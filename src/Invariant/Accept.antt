-- ===== src/Invariant/Accept.antt =====
-- src/Server.cpp: accepting a client keeps the invariant.
use ft_irc.Server.Store.{profiles_of, profiles}
use ft_irc.Server.{Server}
use ft_irc.Client.{new_profile, new_client, Client}
use ft_irc.Libcpp.{StrLib, SocketLib}
use ft_irc.Limits.{max_clients}
use ft_irc.Prelude.{
  Bytes, Map, nat_key, bytes_key, lookup, insert, ℕ, ◌≡◌, refl, subst, inl, inr, none, [], ◌∷◌,
  arith, leb, ◌==◌, ==_iff, Bool-cases, if_ind, length,
}
use ft_irc.Prelude.Maps.Laws.{lookup-insert}
use ft_irc.Prelude.Maps.Fresh.{insert-Distinct}
use ft_irc.Membership.{is_live}
use ft_irc.Membership.Lifecycle.{TableOk-mono}
use ft_irc.EventLoop.{accept_client}
use ft_irc.Invariant.{ProfileOk, Inv}

module _ {Io : Type 0} where
  pub profiles_of-insert :
      (fd : ℕ) (c : Client Io) (m : Map ℕ (Client Io))
      → profiles_of (insert fd c m) ≡ insert fd c.who (profiles_of m)
  unfolding profiles_of insert
  profiles_of-insert fd c [] = refl
  profiles_of-insert fd c ((j, d) ∷ m) = ground (arith, profiles_of-insert fd c m)

module _ ⦃str : StrLib⦄ (fd : ℕ) (hostname : Bytes) (now : ℕ) where
  new_profile-ok : (password : Bytes) → ProfileOk password (new_profile fd hostname now)
  unfolding new_profile
  new_profile-ok password = record {
    closing = λ h. cc;
    passed = λ h. cc;
    authenticated = λ h. cc;
    has_nick = λ h. cc;
    has_user = λ h. cc;
    nick_valid = λ h. cc;
    nick_short = λ h. cc;
  }

module _ {Io : Type 0} ⦃str : StrLib⦄ ⦃sock : SocketLib Io⦄ where
  -- A descriptor that the server does not know, as accept(2) gives it.
  pub accept_client-Inv :
      (fd : ℕ) (hostname : Bytes) (s : Server Io)
      → lookup fd (profiles s) ≡ none
      → Inv s
      → Inv (accept_client fd hostname s)
  unfolding accept_client new_client new_profile is_live
  accept_client-Inv fd hostname s fresh v =
      let p = new_profile fd hostname s.clock in
      let added = profiles_of-insert fd (new_client fd hostname s.clock) s.clients in
      if_ind Inv (leb max_clients (length s.clients)) (λ _. v)
        λ _. record {
          distinct = rw added (insert-Distinct fd p (profiles s) fresh v.distinct);
          table = rw added (
              TableOk-mono fd (is_live (profiles s)) (is_live (insert fd p (profiles s))) s.channels
                (λ g e. ground (arith, lookup-insert g fd p (profiles s), ==_iff fd g)) v.table);
          people = rw added λ g q e. elim (Bool-cases (fd == g)) [
            | inl eq ↦
                let same : p ≡ q = ground (arith, lookup-insert g fd p (profiles s), e) in
                subst (ProfileOk s.password) same (new_profile-ok fd hostname s.clock s.password)
            | inr ne ↦ v.people g q (ground (arith, lookup-insert g fd p (profiles s), e))
          ];
          unique = rw added λ a b q r ea eb ne hq hr. ground (
            arith,
            lookup-insert a fd p (profiles s),
            lookup-insert b fd p (profiles s),
            v.unique a b q r,
          );
        }
