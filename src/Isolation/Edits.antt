-- ===== src/Isolation/Edits.antt =====
-- src/Server.cpp: the operations that the handlers are made of, and the end of a connection.
use ft_irc.Server.Quiet.{Quiet}
use ft_irc.Server.Store.{profiles, who, set_profile}
use ft_irc.Server.{Server}
use ft_irc.Client.{Profile}
use ft_irc.Libcpp.{StrLib, SocketLib}
use ft_irc.Prelude.{
  Bytes, nat_key, bytes_key, lookup, adjust, has_key, ℕ, ◌≡◌, refl, sym, ap, ◌∙◌, ◌≢◌, true, not,
  none, some, arith, ==_iff, ==_self, if_ind,
}
use ft_irc.Prelude.Maps.Laws.{lookup-erase, lookup-adjust, adjust-inv}
use ft_irc.Membership.Tame.{Tame}
use ft_irc.Lifecycle.{
  mark_tearing_down, mark_pending_close, has_pending_data, teardown_client_state,
  finalize_disconnect, disconnect_client, disconnect_client_now,
}
use ft_irc.Invariant.Edits.{profiles-set_profile}
use ft_irc.Invariant.Lifecycle.{profiles_of-erase, teardown_client_state-TornDown, TornDown}
use ft_irc.Invariant.Registration.{Plain}
use ft_irc.Isolation.{SettledAt, Local}

-- A setter that leaves the two flags of a closing client alone.
abbrev pub KeepsFlags : (Profile → Profile) → Type 0
KeepsFlags f =
    (p : Profile) → ((f p).tearing_down ≡ p.tearing_down) × ((f p).pending_close ≡ p.pending_close)

module _ {Io : Type 0} (fd : ℕ) where
  pub Local-same : {s t : Server Io} → profiles t ≡ profiles s → Local fd s t
  Local-same e = record { elsewhere = λ g ne. ap (lookup g) e; settles = λ h. rw e h }

  pub Local-trans : {s t u : Server Io} → Local fd s t → Local fd t u → Local fd s u
  Local-trans p q = record {
    elsewhere = λ g ne. q.elsewhere g ne ∙ p.elsewhere g ne;
    settles = λ h. q.settles (p.settles h);
  }

  pub Local-refl : (s : Server Io) → Local fd s s
  Local-refl s = record { elsewhere = λ g ne. refl; settles = λ h. h }

  pub Local-Quiet : {s t : Server Io} → Quiet s t → Local fd s t
  Local-Quiet q = Local-same q.same_profiles

  -- A write to the client itself.
  pub Local-write :
      (f : Profile → Profile) (s t : Server Io)
      → profiles t ≡ adjust fd f (profiles s)
      → ((p : Profile)
          → lookup fd (profiles s) ≡ some p
          → SettledAt fd (profiles s)
          → (f p).tearing_down ≡ true
          → (f p).pending_close ≡ true)
      → Local fd s t
  Local-write f s t e h = record {
    elsewhere = λ g ne. rw e (ground (arith, lookup-adjust g fd f (profiles s), ==_iff fd g));
    settles = λ settled p there torn.
        let (p', here, same) = adjust-inv fd fd f (profiles s) (ap (lookup fd) (sym e) ∙ there) in
        let closed = h p' here settled in ground (arith, same, ==_self fd, closed);
  }

  pub Local-set_profile :
      (f : Profile → Profile) (s : Server Io) → KeepsFlags f → Local fd s (set_profile fd f s)
  Local-set_profile f s k =
      Local-write f s (set_profile fd f s) (profiles-set_profile fd f s)
        λ p here settled torn. (k p).1 ∙ settled p here (sym (k p).0 ∙ torn)

  pub Local-Plain :
      (f : Profile → Profile) (s : Server Io) → Plain f → Local fd s (set_profile fd f s)
  Local-Plain f s k = Local-set_profile f s (λ p. (k.tearing_down_kept p, k.pending_close_kept p))

module _ {Io : Type 0} ⦃str : StrLib⦄ ⦃sock : SocketLib Io⦄ (fd : ℕ) where
  pub Local-Tame : {s t : Server Io} → Tame s t → Local fd s t
  Local-Tame q = Local-same fd q.profiles_kept

  finalize-elsewhere :
      (s : Server Io) (g : ℕ)
      → fd ≢ g
      → lookup g (profiles (finalize_disconnect fd s)) ≡ lookup g (profiles s)
  unfolding finalize_disconnect
  finalize-elsewhere s g ne =
      rw (profiles_of-erase fd s.clients)
        (ground (arith, lookup-erase g fd (profiles s), ==_iff fd g))

  -- A deleted client is found no more.
  pub finalize_disconnect-gone :
      (s : Server Io) → lookup fd (profiles (finalize_disconnect fd s)) ≡ none
  unfolding finalize_disconnect
  finalize_disconnect-gone s =
      rw (profiles_of-erase fd s.clients)
        (ground (arith, lookup-erase fd fd (profiles s), ==_self fd))

  pub Local-finalize : (s : Server Io) → Local fd s (finalize_disconnect fd s)
  Local-finalize s = record {
    elsewhere = finalize-elsewhere s;
    settles = λ h p there. cc (finalize_disconnect-gone s);
  }

  TornDown-elsewhere :
      {s t : Server Io}
      → TornDown fd s t
      → (g : ℕ) → fd ≢ g
      → lookup g (profiles t) ≡ lookup g (profiles s)
  TornDown-elsewhere {s} d g ne =
      rw d.torn_profiles
        (ground (arith, lookup-adjust g fd mark_tearing_down (profiles s), ==_iff fd g))

  TornDown-finalize : {s t : Server Io} → TornDown fd s t → Local fd s (finalize_disconnect fd t)
  TornDown-finalize {s} {t} d = record {
    elsewhere = λ g ne. finalize-elsewhere t g ne ∙ TornDown-elsewhere d g ne;
    settles = λ h p there. cc (finalize_disconnect-gone t);
  }

  TornDown-pending :
      (now : ℕ) {s t : Server Io}
      → TornDown fd s t
      → Local fd s (set_profile fd (mark_pending_close now) t)
  unfolding mark_pending_close
  TornDown-pending now {s} {t} d =
      let done = set_profile fd (mark_pending_close now) t in
      let wrote : Local fd t done =
        Local-write fd (mark_pending_close now) t done
          (profiles-set_profile fd (mark_pending_close now) t) (λ p here settled torn. refl) in
      record {
        elsewhere = λ g ne. wrote.elsewhere g ne ∙ TornDown-elsewhere d g ne;
        settles = λ h p there torn.
            let (p', here, same) =
              adjust-inv fd fd (mark_pending_close now) (profiles t) (
                ap (lookup fd) (sym (profiles-set_profile fd (mark_pending_close now) t))
                ∙ there) in
            ground (arith, same, ==_self fd);
      }

  pub disconnect_client-Local :
      (reason : Bytes) (s : Server Io) → Local fd s (disconnect_client fd reason s)
  unfolding disconnect_client
  disconnect_client-Local reason s =
      if_ind (Local fd s) (not (has_key fd s.clients)) (λ _. Local-refl fd s)
        λ _.
          if_ind (Local fd s) (who s fd).tearing_down (λ _. Local-refl fd s)
            λ fresh.
              let d = teardown_client_state-TornDown fd reason s fresh in
              if_ind (Local fd s) (not (has_pending_data fd (teardown_client_state fd reason s)))
                (λ _. TornDown-finalize d) (λ _. TornDown-pending s.clock d)

  pub disconnect_client_now-Local :
      (reason : Bytes) (s : Server Io) → Local fd s (disconnect_client_now fd reason s)
  unfolding disconnect_client_now
  disconnect_client_now-Local reason s =
      if_ind (Local fd s) (not (has_key fd s.clients)) (λ _. Local-refl fd s)
        λ _.
          if_ind (Local fd s) (who s fd).pending_close (λ _. Local-finalize s)
            λ _.
              if_ind (Local fd s) (who s fd).tearing_down (λ _. Local-refl fd s)
                λ fresh. TornDown-finalize (teardown_client_state-TornDown fd reason s fresh)
