-- ===== src/Reachable/Timers.antt =====
-- src/Server.cpp: checkTimeouts and checkPendingCloseTimeouts keep the server sound.
use ft_irc.Server.Quiet.{send_to_client-Quiet, Quiet}
use ft_irc.Server.Store.{profiles, who, set_profile, send_to_client}
use ft_irc.Server.{Server}
use ft_irc.Client.{Profile}
use ft_irc.Libcpp.{StrLib, SocketLib}
use ft_irc.Prelude.{
  Bytes, text, Key, Map, nat_key, bytes_key, lookup, ℕ, ◌-◌, ◌≡◌, refl, sym, ap, subst, ◌∙◌, ◌≢◌,
  inl, inr, true, false, ◌&&◌, some, List, [], ◌∷◌, arith, ltb, leb, ◌==◌, ==_iff, Bool-cases,
  if_ind, &&_true, All, All-mono,
}
use ft_irc.Prelude.Maps.Laws.{Each, Each-mono, Distinct, lookup-none}
use ft_irc.Membership.{is_live}
use ft_irc.Membership.Lifecycle.{is_live-erase}
use ft_irc.Lifecycle.{
  is_sendq_exceeded, finalize_disconnect, disconnect_client, disconnect_client_now,
}
use ft_irc.EventLoop.{
  mark_ping_sent, judge, fds, expired, timeout_scan, each_fd, check_timeouts,
  check_pending_close_timeouts, Verdict, leave, overflow, timed_out, ping,
}
use ft_irc.Invariant.{Inv}
use ft_irc.Invariant.Edits.{Quiet-Inv}
use ft_irc.Invariant.Lifecycle.{
  profiles_of-erase, finalize_disconnect-Inv, disconnect_client-Inv, pending-dead,
  disconnect_client_now-Inv,
}
use ft_irc.Invariant.Registration.{who-lookup, Plain-Inv}
use ft_irc.Invariant.Timers.{mark_ping_sent-Plain, each_fd_ind}
use ft_irc.Isolation.{SettledAt, Local}
use ft_irc.Isolation.Edits.{
  Local-Quiet, Local-Plain, Local-finalize, disconnect_client-Local, disconnect_client_now-Local,
}
use ft_irc.Reachable.{Sound}

Verdict_ind :
    {A : Type 0} (P : A → Type 0) (d : Verdict) {w x y z : A}
    → P w
    → P x
    → P y
    → P z
    → P (elim d [ leave ↦ w | overflow ↦ x | timed_out ↦ y | ping ↦ z ])
Verdict_ind P leave w x y z = w
Verdict_ind P overflow w x y z = x
Verdict_ind P timed_out w x y z = y
Verdict_ind P ping w x y z = z

module _ {Io : Type 0} ⦃str : StrLib⦄ ⦃sock : SocketLib Io⦄ where
  -- A client's own business keeps all clients settled.
  pub Local-settled :
      (fd : ℕ) {s t : Server Io}
      → Local fd s t
      → ((g : ℕ) → SettledAt g (profiles s))
      → (g : ℕ) → SettledAt g (profiles t)
  Local-settled fd {s} {t} l h g = elim (Bool-cases (fd == g)) [
    | inl eq ↦ subst (λ k. SettledAt k (profiles t)) ((==_iff fd g).0 eq) (l.settles (h fd))
    | inr ne ↦ λ p e.
        let apart : fd ≢ g = ground (arith, ==_iff fd g) in h g p (sym (l.elsewhere g apart) ∙ e)
  ]

  pub Local-Sound : (fd : ℕ) {s t : Server Io} → Local fd s t → Inv t → Sound s → Sound t
  Local-Sound fd l v h = record { inv = v; settled = Local-settled fd l h.settled }

  -- What does not show in the profiles, the channels and the password.
  pub Quiet-Sound : {s t : Server Io} → Quiet s t → Sound s → Sound t
  Quiet-Sound q h = Local-Sound 0 (Local-Quiet 0 q) (Quiet-Inv q h.inv) h

  ping-Sound :
      (fd : ℕ) (line : Bytes) (s : Server Io)
      → Sound s
      → Sound (set_profile fd mark_ping_sent (send_to_client fd line s))
  ping-Sound fd line s h =
      let asked = Quiet-Sound (send_to_client-Quiet fd line s) h in
      Local-Sound fd (Local-Plain fd mark_ping_sent _ mark_ping_sent-Plain)
        (Plain-Inv fd mark_ping_sent _ mark_ping_sent-Plain asked.inv) asked

  timeout_scan-Sound :
      (l : List ℕ) (acc : List ℕ × List ℕ × Server Io) → Sound acc.2 → Sound (timeout_scan l acc).2
  unfolding timeout_scan
  timeout_scan-Sound [] acc h = h
  timeout_scan-Sound (fd ∷ l) (sendq_now, deferred, s) h = timeout_scan-Sound l _ (
      Verdict_ind (λ (a : List ℕ × List ℕ × Server Io). Sound a.2)
        (judge s.clock (is_sendq_exceeded fd s) (who s fd)) h h h (ping-Sound fd _ s h))

  pub check_timeouts-Sound : (s : Server Io) → Sound s → Sound (check_timeouts s)
  unfolding check_timeouts
  check_timeouts-Sound s h =
      let stamped : Server Io = record s { last_ping_check = s.clock } in
      let q : Quiet s stamped = record {
        same_profiles = refl;
        same_channels = refl;
        same_password = refl;
      } in
      if_ind Sound (ltb (s.clock - s.last_ping_check) 30) (λ _. h)
        λ _.
          each_fd_ind Sound (λ fd. disconnect_client fd (text "Ping timeout"))
            (λ fd t k.
              Local-Sound fd (disconnect_client-Local fd _ t) (disconnect_client-Inv fd _ t k.inv)
                k)
            _ _
            (each_fd_ind Sound (λ fd. disconnect_client_now fd (text "SendQ exceeded"))
              (λ fd t k.
                Local-Sound fd (disconnect_client_now-Local fd _ t)
                  (disconnect_client_now-Inv fd _ t k.inv) k)
              _ _ (timeout_scan-Sound (fds s.clients) ([], [], stamped) (Quiet-Sound q h)))

-- In a map without duplicates every entry is what its key finds.
module _ {K V : Type 0} ⦃key : Key K⦄ where
  pub Each-found :
      (m whole : Map K V)
      → Distinct m
      → ((k : K) (v : V) → lookup k m ≡ some v → lookup k whole ≡ some v)
      → Each (λ k v. lookup k whole ≡ some v) m
  unfolding lookup
  Each-found [] whole d h = tt
  Each-found ((j, w) ∷ m) whole d h = (
    h j w (ground (arith, key.eq_self j)),
    Each-found m whole d.1 (λ k v e. h k v (ground (arith, key.eq_sound j k, lookup-none j m d.0))),
  )

expired-All :
    (P : ℕ → Type 0) (now limit : ℕ) (m : Map ℕ Profile)
    → Each (λ fd p. p.pending_close ≡ true → P fd) m
    → All P (expired now limit m)
unfolding expired
expired-All P now limit [] e = tt
expired-All P now limit ((fd, p) ∷ m) e =
    if_ind (All P) (p.pending_close && leb limit (now - p.pending_close_since))
      (λ h. (e.0 (&&_true _ _ h).0, expired-All P now limit m e.1))
      (λ _. expired-All P now limit m e.1)

module _ {Io : Type 0} ⦃str : StrLib⦄ ⦃sock : SocketLib Io⦄ where
  -- Deleting clients that are in no channel.
  each_fd-Sound :
      (l : List ℕ) (s : Server Io)
      → All (λ fd. is_live (profiles s) fd ≡ false) l
      → Sound s
      → Sound (each_fd finalize_disconnect l s)
  unfolding each_fd finalize_disconnect
  each_fd-Sound [] s dead h = h
  each_fd-Sound (fd ∷ l) s dead h =
      each_fd-Sound l (finalize_disconnect fd s)
        (All-mono (λ g. is_live (profiles s) g ≡ false)
          (λ g. is_live (profiles (finalize_disconnect fd s)) g ≡ false) l
          (λ g e.
            rw (profiles_of-erase fd s.clients) (ground (arith, is_live-erase fd g (profiles s))))
          dead.1)
        (Local-Sound fd (Local-finalize fd s) (finalize_disconnect-Inv fd s dead.0 h.inv) h)

  pub check_pending_close_timeouts-Sound :
      (s : Server Io) → Sound s → Sound (check_pending_close_timeouts s)
  unfolding check_pending_close_timeouts who
  check_pending_close_timeouts-Sound s h =
      each_fd-Sound _ s
        (expired-All (λ fd. is_live (profiles s) fd ≡ false) s.clock s.pending_close_timeout
          (profiles s)
          (Each-mono (λ fd p. lookup fd (profiles s) ≡ some p)
            (λ fd p. p.pending_close ≡ true → is_live (profiles s) fd ≡ false) (profiles s)
            (λ fd p e closing.
              let here : (who s fd).pending_close ≡ true =
                ap (λ (q : Profile). q.pending_close) (who-lookup s fd e) ∙ closing in
              pending-dead fd [] s h.inv here)
            (Each-found (profiles s) (profiles s) h.inv.distinct (λ k v e. e))))
        h
