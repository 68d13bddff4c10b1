-- ===== src/EventLoop/Iteration.antt =====
-- src/Server.cpp: one iteration of the loop of `Server::run`. What the kernel answers (epoll_wait,
-- accept, recv, send) are the events, each with the time at which it is handled.
use ft_irc.Server.{Server}
use ft_irc.Libcpp.{StrLib, SocketLib}
use ft_irc.Prelude.{
  Bytes, text, nat_key, bytes_key, has_key, ℕ, Bool, ◌&&◌, Option, none, some, List, [], ◌∷◌,
  if◌then◌else◌,
}
use ft_irc.Message.{Message}
use ft_irc.Lifecycle.{disconnect_client_now}
use ft_irc.EventLoop.{
  fds, accept_client, each_fd, check_timeouts, check_pending_close_timeouts, handle_client_output,
  handle_client_input, handle_client_eof, update_epoll_interest, tick_extensions,
}

-- What recv(2) answers.
pub data Received : Type 0 where
  bytes : Bytes → Received
  closed : Received
  failed : Received

-- An event of the listening socket, with what accept(2) gave, or of another descriptor. A mask bit
-- that is not set is `none`; `send` is the number of bytes that send(2) takes.
pub data Event : Type 0 where
  accepted : (fd : ℕ) (hostname : Bytes) → Event
  ready : (fd : ℕ) (recv : Option Received) (send : Option ℕ) (broken : Bool) → Event

module _ {Io : Type 0} where
  abbrev pub set_clock : ℕ → Server Io → Server Io
  set_clock now s = record s { clock = now }

module _ {Io : Type 0} ⦃str : StrLib⦄ ⦃sock : SocketLib Io⦄ (parse : Bytes → Option Message) where
  -- handleClientInput, on every answer of recv(2).
  unfoldable pub handle_input : ℕ → Received → Server Io → Server Io
  handle_input fd (bytes input) s = handle_client_input parse fd input s
  handle_input fd closed s = handle_client_eof fd s
  handle_input fd failed s = s

  -- What run does on EPOLLIN, on EPOLLOUT, and on EPOLLERR or EPOLLHUP.
  unfoldable pub handle_read : ℕ → Option Received → Server Io → Server Io
  handle_read fd recv s = elim recv [ none ↦ s | some input ↦ handle_input fd input s ]

  unfoldable pub handle_write : ℕ → Option ℕ → Server Io → Server Io
  handle_write fd send s = elim send [
    | none ↦ s
    | some sent ↦ if has_key fd s.clients then handle_client_output fd sent s else s
  ]

  unfoldable pub handle_broken : ℕ → Bool → Server Io → Server Io
  handle_broken fd broken s =
      if broken && has_key fd s.clients
      then disconnect_client_now fd (text "Connection error") s
      else s

  unfoldable pub handle_event : Event → Server Io → Server Io
  handle_event (accepted fd hostname) s = accept_client fd hostname s
  handle_event (ready fd recv send broken) s =
      if has_key fd s.clients
      then handle_broken fd broken (handle_write fd send (handle_read fd recv s))
      else s

  unfoldable pub handle_events : List (ℕ × Event) → Server Io → Server Io
  handle_events [] s = s
  handle_events ((now, e) ∷ es) s = handle_events es (handle_event e (set_clock now s))

  unfoldable pub run_iteration : List (ℕ × Event) → ℕ → Server Io → Server Io
  run_iteration es now s =
      let timed =
        check_pending_close_timeouts (check_timeouts (set_clock now (handle_events es s))) in
      let ticked = tick_extensions timed in
      each_fd update_epoll_interest (fds ticked.clients) ticked
