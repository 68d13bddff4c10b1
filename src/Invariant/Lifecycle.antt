-- ===== src/Invariant/Lifecycle.antt =====
-- src/Server.cpp: the end of a connection keeps the invariant.
use ft_irc.Server.Store.{blank, profiles_of, profiles, who, set_profile, send_once}
use ft_irc.Server.{Server}
use ft_irc.Channel.{is_member, Channel}
use ft_irc.Client.{new_profile, prefix, Profile, Client}
use ft_irc.Libcpp.{StrLib, SocketLib}
use ft_irc.Prelude.{
  Bytes, text, Map, nat_key, bytes_key, lookup, erase, adjust, has_key, ℕ, ◌≡◌, refl, sym, ap, ◌∙◌,
  ◌⊎◌, inl, inr, true, false, not, ◌&&◌, none, some, List, [], ◌∷◌, ◌++◌, arith, if◌then◌else◌,
  ==_iff, ==_self, Option-cases, if_ind,
}
use ft_irc.Prelude.Maps.Laws.{adjust-Distinct, erase-Distinct, adjust-inv, erase-inv}
use ft_irc.Server.Quiet.{Quiet-refl, send_once-Quiet, then_audit, Quiet}
use ft_irc.Membership.{is_live}
use ft_irc.Membership.Lifecycle.{
  without, is_live-erase, is_live-mark, is_live-adjust, purge-TableOk, TableOk-mono,
}
use ft_irc.Extensions.Quiet.{notify_disconnect-Quiet}
use ft_irc.Lifecycle.{
  purge, mark_tearing_down, mark_pending_close, announce, broadcast_to_channels, has_pending_data,
  teardown_client_state, finalize_disconnect, disconnect_client, disconnect_client_now,
}
use ft_irc.Invariant.{ProfileOk, Inv}
use ft_irc.Invariant.Edits.{
  profiles-set_profile, password-set_profile, adjust-PeopleOk, adjust-UniqueNicks, set_profile-Inv,
}

module _ {Io : Type 0} where
  -- What is read through a Client* is what is stored, or nothing is.
  pub who-cases :
      (s : Server Io) (fd : ℕ)
      → (lookup fd (profiles s) ≡ some (who s fd))
        ⊎ ((lookup fd (profiles s) ≡ none) × (who s fd ≡ blank))
  unfolding who
  who-cases s fd = elim (Option-cases (lookup fd (profiles s))) [
    | inl e ↦ inr (e, rw (e, who))
    | inr (p, e) ↦ inl (rw (e, who))
  ]

  pub is_live-who :
      (s : Server Io) (fd : ℕ)
      → is_live (profiles s) fd ≡ ((who s fd).registered && not (who s fd).tearing_down)
  unfolding is_live who blank new_profile
  is_live-who s fd = elim (Option-cases (lookup fd (profiles s))) [
    | inl e ↦ rw (e, is_live, who)
    | inr (p, e) ↦ rw (e, is_live, who)
  ]

  pub profiles_of-erase :
      (fd : ℕ) (m : Map ℕ (Client Io)) → profiles_of (erase fd m) ≡ erase fd (profiles_of m)
  unfolding profiles_of erase
  profiles_of-erase fd [] = refl
  profiles_of-erase fd ((j, c) ∷ m) = ground (arith, profiles_of-erase fd m)

module _ {Io : Type 0} ⦃str : StrLib⦄ ⦃sock : SocketLib Io⦄ where
  announce-Quiet :
      (s : Server Io) (fd : ℕ) (msg : Bytes) (m : Map Bytes Channel) (acc : List ℕ × Server Io)
      → Quiet s acc.1
      → Quiet s (announce fd msg m acc).1
  unfolding announce
  announce-Quiet s fd msg [] acc q = q
  announce-Quiet s fd msg ((key, c) ∷ m) acc q =
      announce-Quiet s fd msg m (if is_member fd c then send_once c.members msg acc else acc) (
        if_ind (λ (a : List ℕ × Server Io). Quiet s a.1) (is_member fd c)
          (λ _. send_once-Quiet s c.members msg acc q) (λ _. q))

  pub broadcast_to_channels-Quiet :
      (fd : ℕ) (msg : Bytes) (s : Server Io) → Quiet s (broadcast_to_channels fd msg s)
  unfolding broadcast_to_channels
  broadcast_to_channels-Quiet fd msg s =
      announce-Quiet s fd msg s.channels (fd ∷ [], s) (Quiet-refl s)

  -- What a teardown leaves: the client marked, and the channels purged of it.
  pub record TornDown (fd : ℕ) (s t : Server Io) : Type 0 where
    pub torn_profiles : profiles t ≡ adjust fd mark_tearing_down (profiles s)
    pub torn_channels : t.channels ≡ purge fd s.channels
    pub torn_password : t.password ≡ s.password

  pub teardown_client_state-TornDown :
      (fd : ℕ) (reason : Bytes) (s : Server Io)
      → (who s fd).tearing_down ≡ false
      → TornDown fd s (teardown_client_state fd reason s)
  unfolding teardown_client_state
  teardown_client_state-TornDown fd reason s fresh =
      let marked = set_profile fd mark_tearing_down s in
      let marked_password : marked.password ≡ s.password =
        password-set_profile fd mark_tearing_down s in
      let quit = text ":" ++ prefix (who s fd) ++ text " QUIT :" ++ reason in
      let told = (announce fd quit s.channels (fd ∷ [], marked)).1 in
      let q = announce-Quiet marked fd quit s.channels (fd ∷ [], marked) (Quiet-refl marked) in
      let purged : Server Io = record told { channels = purge fd s.channels } in
      let rest =
        then_audit (notify_disconnect-Quiet fd purged) (text "disconnect") (who s fd).nickname
          reason in
      if_ind (TornDown fd s) (who s fd).tearing_down (λ h. cc)
        (λ _. record {
          torn_profiles =
              rest.same_profiles ∙ q.same_profiles ∙ profiles-set_profile fd mark_tearing_down s;
          torn_channels = rest.same_channels;
          torn_password = rest.same_password ∙ q.same_password ∙ marked_password;
        })

module _ ⦃str : StrLib⦄ where
  mark-ok :
      (password : Bytes) (p : Profile)
      → ProfileOk password p
      → ProfileOk password (mark_tearing_down p)
  unfolding mark_tearing_down
  mark-ok password p ok = record {
    closing = λ _. refl;
    passed = ok.passed;
    authenticated = ok.authenticated;
    has_nick = ok.has_nick;
    has_user = ok.has_user;
    nick_valid = ok.nick_valid;
    nick_short = ok.nick_short;
  }

module _ {Io : Type 0} ⦃str : StrLib⦄ ⦃sock : SocketLib Io⦄ (fd : ℕ) where
  pub TornDown-Inv : {s t : Server Io} → TornDown fd s t → Inv s → Inv t
  unfolding mark_tearing_down
  TornDown-Inv {s} {t} d v = record {
    distinct = rw d.torn_profiles (adjust-Distinct fd mark_tearing_down (profiles s) v.distinct);
    table =
        rw (d.torn_profiles, d.torn_channels)
          (TableOk-mono fd (without fd (is_live (profiles s)))
            (is_live (adjust fd mark_tearing_down (profiles s))) (purge fd s.channels)
            (λ g e. is_live-mark fd g (profiles s) ∙ e)
            (purge-TableOk fd (is_live (profiles s)) s.channels v.table));
    people =
        rw (d.torn_profiles, d.torn_password)
          (adjust-PeopleOk fd mark_tearing_down s.password (profiles s)
            (λ p _. mark-ok s.password p) v.people);
    unique = rw d.torn_profiles (
        adjust-UniqueNicks fd mark_tearing_down (profiles s) (λ p. refl) (λ p h. ground arith)
          v.unique);
  }

  pub TornDown-dead : {s t : Server Io} → TornDown fd s t → is_live (profiles t) fd ≡ false
  TornDown-dead {s} d = rw d.torn_profiles (ground (arith, is_live-mark fd fd (profiles s)))

  -- A client that is in no channel can be deleted.
  pub finalize_disconnect-Inv :
      (s : Server Io) → is_live (profiles s) fd ≡ false → Inv s → Inv (finalize_disconnect fd s)
  unfolding finalize_disconnect
  finalize_disconnect-Inv s dead v =
      let erased = profiles_of-erase fd s.clients in
      record {
        distinct = rw erased (erase-Distinct fd (profiles s) v.distinct);
        table = rw erased (
            TableOk-mono fd (is_live (profiles s)) (is_live (erase fd (profiles s))) s.channels
              (λ g e. ground (arith, is_live-erase fd g (profiles s), ==_iff fd g)) v.table);
        people = rw erased (λ g p e. v.people g p (erase-inv g fd (profiles s) e));
        unique = rw erased λ a b p q ea eb.
            v.unique a b p q (erase-inv a fd (profiles s) ea) (erase-inv b fd (profiles s) eb);
      }

module _ {Io : Type 0} ⦃str : StrLib⦄ ⦃sock : SocketLib Io⦄ (fd : ℕ) (reason : Bytes)
    (s : Server Io) (v : Inv s) where
  pending-ok :
      (now : ℕ) (t : Server Io)
      → TornDown fd s t
      → (p : Profile) → lookup fd (profiles t) ≡ some p
      → ProfileOk t.password p
      → ProfileOk t.password (mark_pending_close now p)
  unfolding mark_pending_close mark_tearing_down
  pending-ok now t d p e ok =
      let (p', there, same) =
        adjust-inv fd fd mark_tearing_down (profiles s)
          (ap (lookup fd) (sym d.torn_profiles) ∙ e) in
      record {
        closing = λ _. ground (arith, same, ==_self fd);
        passed = ok.passed;
        authenticated = ok.authenticated;
        has_nick = ok.has_nick;
        has_user = ok.has_user;
        nick_valid = ok.nick_valid;
        nick_short = ok.nick_short;
      }

  pub disconnect_client-Inv : Inv (disconnect_client fd reason s)
  unfolding disconnect_client mark_pending_close
  disconnect_client-Inv =
      if_ind Inv (not (has_key fd s.clients)) (λ _. v)
        λ _.
          if_ind Inv (who s fd).tearing_down (λ _. v)
            λ fresh.
              let d = teardown_client_state-TornDown fd reason s fresh in
              let t = teardown_client_state fd reason s in
              let torn = TornDown-Inv fd d v in
              if_ind Inv (not (has_pending_data fd t))
                (λ _. finalize_disconnect-Inv fd t (TornDown-dead fd d) torn)
                λ _.
                  set_profile-Inv fd (mark_pending_close s.clock) t (pending-ok s.clock t d)
                    (λ g e.
                      is_live-adjust fd (mark_pending_close s.clock) g (profiles t)
                        (λ p. (refl, refl))
                      ∙ e)
                    (adjust-UniqueNicks fd (mark_pending_close s.clock) (profiles t) (λ p. refl)
                      (λ p h. h) torn.unique)
                    torn

  -- A client whose socket is only being flushed is in no channel.
  pub pending-dead : (who s fd).pending_close ≡ true → is_live (profiles s) fd ≡ false
  unfolding blank new_profile
  pending-dead h = elim (who-cases s fd) [
    | inl e ↦ ground (arith, is_live-who s fd, (v.people fd (who s fd) e).closing h)
    | inr e ↦ ground (arith, is_live-who s fd, e.1)
  ]

  pub disconnect_client_now-Inv : Inv (disconnect_client_now fd reason s)
  unfolding disconnect_client_now
  disconnect_client_now-Inv =
      if_ind Inv (not (has_key fd s.clients)) (λ _. v)
        λ _.
          if_ind Inv (who s fd).pending_close (λ h. finalize_disconnect-Inv fd s (pending-dead h) v)
            λ _.
              if_ind Inv (who s fd).tearing_down (λ _. v)
                λ fresh.
                  let d = teardown_client_state-TornDown fd reason s fresh in
                  finalize_disconnect-Inv fd (teardown_client_state fd reason s)
                    (TornDown-dead fd d) (TornDown-Inv fd d v)
