-- ===== src/Reachable/Consequences.antt =====
-- src/Server.cpp: what holds in every state that the server reaches, spelt out.
use ft_irc.Prelude.{
  Bytes, nat_key, bytes_key, lookup, contains, ℕ, ◌≤◌, ◌≡◌, ◌≢◌, inl, inr, true, false, not, ◌&&◌,
  ◌||◌, Option, some, arith, Option-cases, length, is_nil,
}
use ft_irc.Prelude.Maps.Laws.{Each-lookup}
use ft_irc.Libcpp.{StrLib, StrLaws, SocketLib}
use ft_irc.Message.{Message}
use ft_irc.Limits.{max_nicklen}
use ft_irc.Validation.{is_valid_nickname}
use ft_irc.Client.{Profile}
use ft_irc.Channel.{Channel}
use ft_irc.Server.{Mask, Server}
use ft_irc.Server.Store.{profiles}
use ft_irc.Server.Channels.{channel_key}
use ft_irc.Membership.{is_live, ChannelOk}
use ft_irc.Reachable.{Reach}
use ft_irc.Reachable.Iteration.{Reach-Steady}

module _ {Io : Type 0} ⦃str : StrLib⦄ ⦃sock : SocketLib Io⦄ (laws : StrLaws str)
    (parse : Bytes → Option Message) (s : Server Io) (r : Reach parse s) where
  -- In every state that the server reaches, whatever its clients send, a registered client gave
  -- the server's password, a nickname that is valid and of at most 9 bytes, and a user name.
  -- The comparison of passwords is that of the string library's law.
  pub registered-authenticated :
      (fd : ℕ) (p : Profile)
      → lookup fd (profiles s) ≡ some p
      → p.registered ≡ true
      → (p.password ≡ s.password)
        × (p.user_set ≡ true)
        × (is_valid_nickname p.nickname ≡ true)
        × (length p.nickname ≤ max_nicklen)
  registered-authenticated fd p e known =
      let ok = (Reach-Steady laws parse s r).sound.inv.people fd p e in
      (
        (laws.consttime_iff p.password s.password).0 (ok.authenticated known),
        ok.has_user known,
        ok.nick_valid (ok.has_nick known),
        ok.nick_short (ok.has_nick known),
      )

  -- In every state that the server reaches, whatever its clients send, two clients whose
  -- nicknames are set and that are not being torn down have nicknames that differ in more than
  -- the case of their letters.
  pub nicknames-distinct :
      (a b : ℕ) (p q : Profile)
      → lookup a (profiles s) ≡ some p
      → lookup b (profiles s) ≡ some q
      → a ≢ b
      → (p.nick_set && not p.tearing_down ≡ true)
      → (q.nick_set && not q.tearing_down ≡ true)
      → str.ascii_to_lower p.nickname ≢ str.ascii_to_lower q.nickname
  nicknames-distinct a b p q ea eb apart hp hq same =
      let differ = (Reach-Steady laws parse s r).sound.inv.unique a b p q ea eb apart hp hq in
      let equal = (laws.nocase_iff p.nickname q.nickname).1 same in cc

  -- In every state that the server reaches, whatever its clients send, a channel stands under
  -- its lower-cased name and has a member; its operators are members, and its members and those
  -- it invites are clients of the server that are registered and not being torn down: no
  -- pointer in a channel dangles.
  pub channel-pointers :
      (key : Bytes) (c : Channel)
      → lookup key s.channels ≡ some c
      → (key ≡ channel_key c.name)
        × (is_nil c.members ≡ false)
        × ((fd : ℕ) → contains fd c.operators ≡ true → contains fd c.members ≡ true)
        × ((fd : ℕ)
            → contains fd c.members || contains fd c.invite_list ≡ true
            → (p : Profile) × (lookup fd (profiles s) ≡ some p)
              × (p.registered ≡ true)
              × (p.tearing_down ≡ false))
  unfolding is_live
  channel-pointers key c e =
      let ok =
        Each-lookup (ChannelOk (is_live (profiles s))) key s.channels
          (Reach-Steady laws parse s r).sound.inv.table e in
      (
        ok.named,
        ok.populated,
        ok.operators_in,
        λ fd inside.
            let live : is_live (profiles s) fd ≡ true =
              ground (arith, ok.members_live fd, ok.invites_live fd, inside) in
            elim (Option-cases (lookup fd (profiles s))) [
              | inl h ↦ cc
              | inr (p, h) ↦ (p, h, ground (arith, h, live), ground (arith, h, live))
            ],
      )

  -- In every state that the server reaches, a client that is only being flushed is torn down,
  -- and the mask that the server last gave it asks for no input.
  pub closing-not-read :
      (fd : ℕ) (p : Profile) (m : Mask)
      → lookup fd (profiles s) ≡ some p
      → lookup fd s.epoll_mask ≡ some m
      → p.pending_close ≡ true
      → (p.tearing_down ≡ true) × (m.input ≡ false)
  closing-not-read fd p m e em closing =
      let steady = Reach-Steady laws parse s r in
      ((steady.sound.inv.people fd p e).closing closing, steady.masks fd p m e em closing)
