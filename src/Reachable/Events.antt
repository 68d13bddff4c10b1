-- ===== src/Reachable/Events.antt =====
-- src/Server.cpp: the events of an iteration of `Server::run` keep the server sound.
use ft_irc.Invariant.Timers.{handle_client_output-Inv, handle_client_output-Local}
use ft_irc.Server.Quiet.{Quiet}
use ft_irc.Server.Store.{profiles, who}
use ft_irc.Server.{Mask, Server}
use ft_irc.Message.{Message}
use ft_irc.Client.{new_profile, new_client, Profile}
use ft_irc.Limits.{max_clients}
use ft_irc.Libcpp.{StrLib, StrLaws, SocketLib}
use ft_irc.Prelude.{
  Bytes, Map, nat_key, bytes_key, lookup, has_key, ℕ, ◌≡◌, refl, ap, ◌∙◌, ◌≢◌, Bool, true, false,
  ◌&&◌, Option, List, [], ◌∷◌, arith, leb, ◌==◌, ==_iff, if_ind, ||_false, Option_ind, length,
}
use ft_irc.Prelude.Maps.Laws.{lookup-insert}
use ft_irc.EventLoop.{accept_client, handle_client_eof}
use ft_irc.EventLoop.Iteration.{
  set_clock, handle_input, handle_read, handle_write, handle_broken, handle_event, handle_events,
  Received, Event, bytes, closed, failed, accepted, ready,
}
use ft_irc.Invariant.{Inv}
use ft_irc.Invariant.Lifecycle.{disconnect_client-Inv, disconnect_client_now-Inv}
use ft_irc.Invariant.Accept.{profiles_of-insert, accept_client-Inv}
use ft_irc.Isolation.{SettledAt, Local}
use ft_irc.Isolation.Edits.{
  Local-trans, Local-refl, disconnect_client-Local, disconnect_client_now-Local,
}
use ft_irc.Reachable.{reads, later, Admits, Sound}
use ft_irc.Reachable.Lines.{handle_client_input-Inv, handle_client_input-Local}
use ft_irc.Reachable.Timers.{Local-Sound, Quiet-Sound}

-- The clients whose input is still to be read in this iteration are not torn down.
abbrev pub Readable : {Io : Type 0} → List (ℕ × Event) → Server Io → Type 0
Readable [] s = Unit
Readable ((now, accepted fd hostname) ∷ es) s = Readable es s
Readable ((now, ready fd recv send broken) ∷ es) s =
    (reads (ready fd recv send broken) ≡ true → (who s fd).tearing_down ≡ false) × Readable es s

module _ {Io : Type 0} where
  -- What another client, or a new one, does leaves them so.
  Readable-mono :
      (es : List (ℕ × Event)) (fd : ℕ) (s t : Server Io)
      → later fd es ≡ false
      → ((g : ℕ) → fd ≢ g → (who s g).tearing_down ≡ false → (who t g).tearing_down ≡ false)
      → Readable es s
      → Readable es t
  Readable-mono [] fd s t once h r = tt
  Readable-mono ((now, accepted g hostname) ∷ es) fd s t once h r = Readable-mono es fd s t once h r
  Readable-mono ((now, ready g recv send broken) ∷ es) fd s t once h r =
      let (other, rest) = ||_false (g == fd) (later fd es) once in
      let apart : fd ≢ g = ground (arith, other, ==_iff g fd) in
      (λ awaited. h g apart (r.0 awaited), Readable-mono es fd s t rest h r.1)

  Readable-all :
      (es : List (ℕ × Event)) (s t : Server Io)
      → ((g : ℕ) → (who s g).tearing_down ≡ false → (who t g).tearing_down ≡ false)
      → Readable es s
      → Readable es t
  Readable-all [] s t h r = tt
  Readable-all ((now, accepted g hostname) ∷ es) s t h r = Readable-all es s t h r
  Readable-all ((now, ready g recv send broken) ∷ es) s t h r =
      (λ awaited. h g (r.0 awaited), Readable-all es s t h r.1)

  who-same :
      (s t : Server Io) (g : ℕ) → lookup g (profiles t) ≡ lookup g (profiles s) → who t g ≡ who s g
  unfolding who
  who-same s t g e = rw (e, who)

module _ {Io : Type 0} ⦃str : StrLib⦄ ⦃sock : SocketLib Io⦄ where
  -- A new client is not torn down.
  accept_client-up :
      (fd : ℕ) (hostname : Bytes) (s : Server Io) (g : ℕ)
      → (who s g).tearing_down ≡ false
      → (who (accept_client fd hostname s) g).tearing_down ≡ false
  unfolding accept_client new_client new_profile who
  accept_client-up fd hostname s g up =
      let added = profiles_of-insert fd (new_client fd hostname s.clock) s.clients in
      if_ind (λ (t : Server Io). (who t g).tearing_down ≡ false)
        (leb max_clients (length s.clients)) (λ _. up)
        (λ _.
          ground (arith, added, lookup-insert g fd (new_profile fd hostname s.clock) (profiles s)))

  accept_client-settled :
      (fd : ℕ) (hostname : Bytes) (s : Server Io)
      → ((g : ℕ) → SettledAt g (profiles s))
      → (g : ℕ) → SettledAt g (profiles (accept_client fd hostname s))
  unfolding accept_client new_client new_profile
  accept_client-settled fd hostname s h g =
      let added = profiles_of-insert fd (new_client fd hostname s.clock) s.clients in
      if_ind (λ (t : Server Io). SettledAt g (profiles t)) (leb max_clients (length s.clients))
        (λ _. h g)
        (λ _ p e torn. ground (
          arith,
          added,
          lookup-insert g fd (new_profile fd hostname s.clock) (profiles s),
          h g p,
          e,
        ))

module _ {Io : Type 0} ⦃str : StrLib⦄ ⦃sock : SocketLib Io⦄ (laws : StrLaws str)
    (parse : Bytes → Option Message) where
  -- One event of a descriptor, in its three parts.
  handle_input-Inv :
      (fd : ℕ) (input : Received) (s : Server Io)
      → (who s fd).tearing_down ≡ false
      → Sound s
      → Inv (handle_input parse fd input s)
  unfolding handle_input handle_client_eof
  handle_input-Inv fd (bytes input) s up h =
      handle_client_input-Inv laws parse fd input s up (h.settled fd) h.inv
  handle_input-Inv fd closed s up h = disconnect_client-Inv fd _ s h.inv
  handle_input-Inv fd failed s up h = h.inv

  handle_input-Local :
      (fd : ℕ) (input : Received) (s : Server Io)
      → (who s fd).tearing_down ≡ false
      → Sound s
      → Local fd s (handle_input parse fd input s)
  unfolding handle_input handle_client_eof
  handle_input-Local fd (bytes input) s up h =
      handle_client_input-Local laws parse fd input s up (h.settled fd) h.inv
  handle_input-Local fd closed s up h = disconnect_client-Local fd _ s
  handle_input-Local fd failed s up h = Local-refl fd s

  -- A step of one client that keeps the server sound.
  record Turn (fd : ℕ) (s t : Server Io) : Type 0 where
    sound : Sound t
    local : Local fd s t

  Turn-step : (fd : ℕ) {s t u : Server Io} → Turn fd s t → Local fd t u → Inv u → Turn fd s u
  Turn-step fd k l v = record {
    sound = Local-Sound fd l v k.sound;
    local = Local-trans fd k.local l;
  }

  ready-Turn :
      (fd : ℕ) (recv : Option Received) (send : Option ℕ) (broken : Bool) (s : Server Io)
      → (reads (ready fd recv send broken) ≡ true → (who s fd).tearing_down ≡ false)
      → Sound s
      → Turn fd s (handle_event parse (ready fd recv send broken) s)
  unfolding handle_event handle_read handle_write handle_broken
  ready-Turn fd recv send broken s up h =
      let stay : Turn fd s s = record { sound = h; local = Local-refl fd s } in
      let read : Turn fd s (handle_read parse fd recv s) =
        Option_ind (Turn fd s) recv (λ _. stay)
          λ input e.
            let awaited : reads (ready fd recv send broken) ≡ true = rw e refl in
            Turn-step fd stay (handle_input-Local fd input s (up awaited) h)
              (handle_input-Inv fd input s (up awaited) h) in
      let t = handle_read parse fd recv s in
      let wrote : Turn fd s (handle_write parse fd send t) =
        Option_ind (Turn fd s) send (λ _. read)
          λ sent _.
            if_ind (Turn fd s) (has_key fd t.clients)
              (λ _.
                Turn-step fd read (handle_client_output-Local fd sent t)
                  (handle_client_output-Inv fd sent t read.sound.inv))
              (λ _. read) in
      let u = handle_write parse fd send t in
      if_ind (Turn fd s) (has_key fd s.clients)
        (λ _.
          if_ind (Turn fd s) (broken && has_key fd u.clients)
            (λ _.
              Turn-step fd wrote (disconnect_client_now-Local fd _ u)
                (disconnect_client_now-Inv fd _ u wrote.sound.inv))
            (λ _. wrote))
        (λ _. stay)

  pub set_clock-Quiet : (now : ℕ) (s : Server Io) → Quiet s (set_clock now s)
  set_clock-Quiet now s = record {
    same_profiles = refl;
    same_channels = refl;
    same_password = refl;
  }

  pub handle_events-Sound :
      (masks : Map ℕ Mask) (es : List (ℕ × Event)) (s : Server Io)
      → Admits parse masks es s
      → Readable es s
      → Sound s
      → Sound (handle_events parse es s)
  unfolding handle_events who handle_event accept_client
  handle_events-Sound masks [] s a r h = h
  handle_events-Sound masks ((now, accepted fd hostname) ∷ es) s a r h =
      let clocked : Server Io = set_clock now s in
      let h' = Quiet-Sound (set_clock-Quiet now s) h in
      let t : Server Io = handle_event parse (accepted fd hostname) clocked in
      let kept : Inv t = accept_client-Inv fd hostname clocked a.0 h'.inv in
      let settled : (g : ℕ) → SettledAt g (profiles t) =
        accept_client-settled fd hostname clocked h'.settled in
      let sound : Sound t = record { inv = kept; settled = settled } in
      handle_events-Sound masks es t a.1
        (Readable-all es s t (λ g up. accept_client-up fd hostname clocked g up) r) sound
  handle_events-Sound masks ((now, ready fd recv send broken) ∷ es) s a r h =
      let q = set_clock-Quiet now s in
      let clocked : Server Io = set_clock now s in
      let t : Server Io = handle_event parse (ready fd recv send broken) clocked in
      let turn : Turn fd clocked t = ready-Turn fd recv send broken clocked r.0 (Quiet-Sound q h) in
      let others : (g : ℕ)
          → fd ≢ g
          → (who s g).tearing_down ≡ false
          → (who t g).tearing_down ≡ false =
        λ g apart up.
          ap (λ (p : Profile). p.tearing_down) (who-same clocked t g (turn.local.elsewhere g apart))
          ∙ up in
      handle_events-Sound masks es t a.2 (Readable-mono es fd s t a.0 others r.1) turn.sound
