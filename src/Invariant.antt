-- ===== src/Invariant.antt =====
-- What every reachable state of the server of src/Server.cpp satisfies.
pub mod Edits
pub mod Lifecycle
pub mod Registration
pub mod Register
pub mod Nick
pub mod Modes
pub mod Dispatch
pub mod Accept
pub mod Timers
use ft_irc.Prelude.{
  Bytes, Map, nat_key, bytes_key, lookup, ℕ, ◌≤◌, ◌≡◌, ◌≢◌, Bool, true, false, not, ◌&&◌, some,
  length,
}
use ft_irc.Prelude.Maps.Laws.{Distinct}
use ft_irc.Limits.{max_nicklen}
use ft_irc.Libcpp.{StrLib}
use ft_irc.Validation.{is_valid_nickname}
use ft_irc.Client.{Profile}
use ft_irc.Server.{Server}
use ft_irc.Server.Store.{profiles}
use ft_irc.Membership.{IsWellFormed}

module _ ⦃str : StrLib⦄ where
  -- One client, under the server's password.
  pub record ProfileOk (password : Bytes) (p : Profile) : Type 0 where
    pub closing : p.pending_close ≡ true → p.tearing_down ≡ true
    pub passed : p.registered ≡ true → p.pass_sent ≡ true
    pub authenticated : p.registered ≡ true → str.eq_consttime p.password password ≡ true
    pub has_nick : p.registered ≡ true → p.nick_set ≡ true
    pub has_user : p.registered ≡ true → p.user_set ≡ true
    pub nick_valid : p.nick_set ≡ true → is_valid_nickname p.nickname ≡ true
    pub nick_short : p.nick_set ≡ true → length p.nickname ≤ max_nicklen

  -- A client whose nickname is taken.
  abbrev pub holds_nick : Profile → Bool
  holds_nick p = p.nick_set && not p.tearing_down

  abbrev pub PeopleOk : Bytes → Map ℕ Profile → Type 0
  PeopleOk password ps = (fd : ℕ) (p : Profile) → lookup fd ps ≡ some p → ProfileOk password p

  -- No two clients hold the same nickname, case aside.
  abbrev pub UniqueNicks : Map ℕ Profile → Type 0
  UniqueNicks ps =
      (a b : ℕ) (p q : Profile)
      → lookup a ps ≡ some p
      → lookup b ps ≡ some q
      → a ≢ b
      → holds_nick p ≡ true
      → holds_nick q ≡ true
      → str.eq_ascii_nocase p.nickname q.nickname ≡ false

module _ {Io : Type 0} ⦃str : StrLib⦄ where
  pub record Inv (s : Server Io) : Type 0 where
    pub distinct : Distinct (profiles s)
    pub table : IsWellFormed s
    pub people : PeopleOk s.password (profiles s)
    pub unique : UniqueNicks (profiles s)
