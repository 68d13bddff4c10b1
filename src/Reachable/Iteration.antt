-- ===== src/Reachable/Iteration.antt =====
-- src/Server.cpp: an iteration of `Server::run` keeps the server sound, and every reachable state is.
use ft_irc.Reachable.Masks.{update_interest-MaskOk}
use ft_irc.Invariant.Timers.{each_fd_ind, tick_extensions-Quiet}
use ft_irc.Server.Quiet.{Quiet-refl, Quiet-trans, with_extensions-Quiet, Quiet}
use ft_irc.Server.Store.{blank, profiles_of, who}
use ft_irc.Server.{new_server, add_extension, Server}
use ft_irc.Message.{Message}
use ft_irc.Client.{new_profile, Profile}
use ft_irc.Libcpp.{StrLib, StrLaws, SocketLib}
use ft_irc.Prelude.{
  Bytes, nat_key, bytes_key, lookup, ℕ, refl, ap, inl, inr, Option, List, [], ◌∷◌, Bool-cases,
}
use ft_irc.EventLoop.{each_fd, update_epoll_interest}
use ft_irc.EventLoop.Iteration.{run_iteration, Event, accepted, ready}
use ft_irc.Invariant.{Inv}
use ft_irc.Invariant.Lifecycle.{who-cases}
use ft_irc.Reachable.{started, extended, iterated, Sound, MaskOk, Admits, Reach}
use ft_irc.Reachable.Lines.{settled-up}
use ft_irc.Reachable.Timers.{Quiet-Sound, check_timeouts-Sound, check_pending_close_timeouts-Sound}
use ft_irc.Reachable.Events.{Readable, set_clock-Quiet, handle_events-Sound}

module _ {Io : Type 0} ⦃str : StrLib⦄ ⦃sock : SocketLib Io⦄ (laws : StrLaws str)
    (parse : Bytes → Option Message) where
  -- Before any event of an iteration: a client with a mask that asks for input is not closing.
  Readable-start :
      (es : List (ℕ × Event)) (s t : Server Io)
      → Admits parse s.epoll_mask es t
      → Sound s
      → MaskOk s
      → Readable es s
  unfolding blank new_profile
  Readable-start [] s t a h m = tt
  Readable-start ((now, accepted fd hostname) ∷ es) s t a h m = Readable-start es s _ a.1 h m
  Readable-start ((now, ready fd recv send broken) ∷ es) s t a h m = (
    λ awaited. elim (who-cases s fd) [
      | inl e ↦
          let (k, found, asks) = a.1 awaited in
          settled-up laws parse fd s (h.settled fd) (elim (Bool-cases (who s fd).pending_close) [
            | inl closing ↦ cc (m fd (who s fd) k e found closing)
            | inr staying ↦ staying
          ])
      | inr e ↦ ap (λ (p : Profile). p.tearing_down) e.1
    ],
    Readable-start es s _ a.2 h m,
  )

  updated-Quiet : (l : List ℕ) (s : Server Io) → Quiet s (each_fd update_epoll_interest l s)
  unfolding update_epoll_interest
  updated-Quiet l s =
      each_fd_ind (Quiet s) update_epoll_interest
        (λ fd t q.
          Quiet-trans q
            (record { same_profiles = refl; same_channels = refl; same_password = refl }))
        l s (Quiet-refl s)

  run_iteration-Sound :
      (es : List (ℕ × Event)) (now : ℕ) (s : Server Io)
      → Admits parse s.epoll_mask es s
      → Sound s
      → MaskOk s
      → Sound (run_iteration parse es now s)
  unfolding run_iteration
  run_iteration-Sound es now s a h m =
      let handled =
        handle_events-Sound laws parse s.epoll_mask es s a (Readable-start es s s a h m) h in
      let timed =
        check_pending_close_timeouts-Sound _
          (check_timeouts-Sound _ (Quiet-Sound (set_clock-Quiet laws parse now _) handled)) in
      Quiet-Sound (updated-Quiet _ _) (Quiet-Sound (tick_extensions-Quiet _) timed)

  run_iteration-MaskOk :
      (es : List (ℕ × Event)) (now : ℕ) (s : Server Io) → MaskOk (run_iteration parse es now s)
  unfolding run_iteration
  run_iteration-MaskOk es now s = update_interest-MaskOk _

  -- A reachable state is sound, and awaits no input from a client that is only flushed.
  pub record Steady (s : Server Io) : Type 0 where
    pub sound : Sound s
    pub masks : MaskOk s

  new_server-Inv :
      (password : Bytes) (timeout now : ℕ) → Inv (new_server {Io = Io} password timeout now)
  unfolding new_server lookup profiles_of
  new_server-Inv password timeout now = record {
    distinct = tt;
    table = tt;
    people = λ fd p e. cc;
    unique = λ a b p q e. cc;
  }

  pub Reach-Steady : (s : Server Io) → Reach parse s → Steady s
  unfolding new_server add_extension lookup profiles_of
  Reach-Steady s (started password timeout now) = record {
    sound = record { inv = new_server-Inv password timeout now; settled = λ fd p e. cc };
    masks = λ fd p m e. cc;
  }
  Reach-Steady t (extended e s r) =
      let k = Reach-Steady s r in
      record { sound = Quiet-Sound (with_extensions-Quiet s _) k.sound; masks = k.masks }
  Reach-Steady t (iterated es now s a r) =
      let k = Reach-Steady s r in
      record {
        sound = run_iteration-Sound es now s a k.sound k.masks;
        masks = run_iteration-MaskOk es now s;
      }
