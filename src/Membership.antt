-- ===== src/Membership.antt =====
-- The well-formedness of the channel table of src/Server.cpp. The source holds Client* in each
-- channel; a descriptor in one of its sets stands for such a pointer.
pub mod Edits
pub mod Tame
pub mod Join
pub mod Lifecycle
pub mod Modes
pub mod Operator
pub mod Forgotten
use ft_irc.Prelude.{
  Bytes, Map, nat_key, bytes_key, lookup, contains, ℕ, ◌≡◌, Bool, true, false, not, ◌&&◌, none,
  some, is_nil,
}
use ft_irc.Prelude.Maps.Laws.{Each}
use ft_irc.Libcpp.{StrLib}
use ft_irc.Client.{Profile}
use ft_irc.Channel.{Channel}
use ft_irc.Server.{Server}
use ft_irc.Server.Store.{profiles}
use ft_irc.Server.Channels.{channel_key}

-- A client that is registered and not being torn down: one whose pointer may be kept.
unfoldable pub is_live : Map ℕ Profile → ℕ → Bool
is_live ps fd = elim (lookup fd ps) [ none ↦ false | some p ↦ p.registered && not p.tearing_down ]

module _ ⦃str : StrLib⦄ where
  -- `live` are the clients that a channel may point to.
  pub record ChannelOk (live : ℕ → Bool) (key : Bytes) (c : Channel) : Type 0 where
    pub named : key ≡ channel_key c.name
    pub populated : is_nil c.members ≡ false
    pub members_live : (fd : ℕ) → contains fd c.members ≡ true → live fd ≡ true
    pub operators_in : (fd : ℕ) → contains fd c.operators ≡ true → contains fd c.members ≡ true
    pub invites_live : (fd : ℕ) → contains fd c.invite_list ≡ true → live fd ≡ true

  abbrev pub TableOk : (ℕ → Bool) → Map Bytes Channel → Type 0
  TableOk live = Each (ChannelOk live)

module _ {Io : Type 0} ⦃str : StrLib⦄ where
  abbrev pub IsWellFormed : Server Io → Type 0
  IsWellFormed s = TableOk (is_live (profiles s)) s.channels
