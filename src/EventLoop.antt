-- ===== src/EventLoop.antt =====
-- src/Server.cpp: accepting, reading, writing and timing out, the parts of `Server::run`. What
-- accept, recv, send and epoll_wait answer are arguments, and so is the parser of a line.
pub mod Iteration
use ft_irc.Prelude.{
  Bytes, text, Map, nat_key, bytes_key, lookup, insert, has_key, ℕ, ◌+◌, ◌-◌, Bool, true, false,
  not, ◌&&◌, ◌||◌, Option, none, some, List, [], ◌∷◌, ◌++◌, ltb, leb, if◌then◌else◌, length, is_nil,
}
use ft_irc.Limits.{max_clients, ping_interval, ping_timeout, server_name}
use ft_irc.Libcpp.{StrLib, SocketLib}
use ft_irc.Client.{
  new_client, append_to_recv_buffer, extract_messages, clear_send_buffer, Client, Profile,
}
use ft_irc.Message.{Message}
use ft_irc.Server.{Mask, Server}
use ft_irc.Server.Store.{profiles, who, adjust_client, set_who, set_profile, send_to_client}
use ft_irc.Extensions.{on_tick, notify_extensions}
use ft_irc.Lifecycle.{
  has_pending_data, is_sendq_exceeded, finalize_disconnect, disconnect_client,
  disconnect_client_now,
}
use ft_irc.Commands.Messaging.{seen_alive}
use ft_irc.Dispatch.{dispatch_command}

abbrev pub mask : Bool → Bool → Mask
mask input output = record { input = input; output = output }

unfoldable pub mark_ping_sent : Profile → Profile
mark_ping_sent p = record p { ping_sent = true }

abbrev pub is_pending_close : {Io : Type 0} → ℕ → Server Io → Bool
is_pending_close fd s = (who s fd).pending_close

-- What checkTimeouts does with a client.
pub data Verdict : Type 0 where
  leave overflow timed_out ping : Verdict

-- `idle` is now - getLastActivity().
unfoldable pub judge : ℕ → Bool → Profile → Verdict
judge now exceeded p =
    let idle = now - p.last_activity in
    if p.pending_close
    then leave
    else (if exceeded
        then overflow
        else (if p.ping_sent && ltb (ping_interval + ping_timeout) idle
            then timed_out
            else (if not p.ping_sent && ltb ping_interval idle then ping else leave)))

abbrev pub fds : {V : Type 0} → Map ℕ V → List ℕ
fds [] = []
fds ((fd, c) ∷ m) = fd ∷ fds m

unfoldable pub expired : ℕ → ℕ → Map ℕ Profile → List ℕ
expired now limit [] = []
expired now limit ((fd, p) ∷ m) =
    if p.pending_close && leb limit (now - p.pending_close_since)
    then fd ∷ expired now limit m
    else expired now limit m

module _ {Io : Type 0} ⦃str : StrLib⦄ ⦃sock : SocketLib Io⦄ where
  -- acceptClient, for the descriptor and the address that accept(2) gave.
  unfoldable pub accept_client : ℕ → Bytes → Server Io → Server Io
  accept_client fd hostname s = if leb max_clients (length s.clients) then s else record s {
    clients = insert fd (new_client fd hostname s.clock) s.clients;
    epoll_mask = insert fd (mask true false) s.epoll_mask;
  }

  -- The lists that checkTimeouts collects, and the pings that it sends on the way.
  unfoldable pub timeout_scan : List ℕ → List ℕ × List ℕ × Server Io → List ℕ × List ℕ × Server Io
  timeout_scan [] acc = acc
  timeout_scan (fd ∷ rest) (sendq_now, deferred, s) =
      timeout_scan rest (elim (judge s.clock (is_sendq_exceeded fd s) (who s fd)) [
        | leave ↦ (sendq_now, deferred, s)
        | overflow ↦ (sendq_now ++ fd ∷ [], deferred, s)
        | timed_out ↦ (sendq_now, deferred ++ fd ∷ [], s)
        | ping ↦ (
          sendq_now,
          deferred,
          set_profile fd mark_ping_sent (send_to_client fd (text "PING :" ++ server_name) s),
        )
      ])

  unfoldable pub each_fd : (ℕ → Server Io → Server Io) → List ℕ → Server Io → Server Io
  each_fd act [] s = s
  each_fd act (fd ∷ rest) s = each_fd act rest (act fd s)

  unfoldable pub check_timeouts : Server Io → Server Io
  check_timeouts s =
      let (sendq_now, deferred, scanned) =
        timeout_scan (fds s.clients) ([], [], record s { last_ping_check = s.clock }) in
      if ltb (s.clock - s.last_ping_check) 30
      then s
      else each_fd (λ fd. disconnect_client fd (text "Ping timeout")) deferred
          (each_fd (λ fd. disconnect_client_now fd (text "SendQ exceeded")) sendq_now scanned)

  unfoldable pub check_pending_close_timeouts : Server Io → Server Io
  check_pending_close_timeouts s =
      each_fd finalize_disconnect (expired s.clock s.pending_close_timeout (profiles s)) s

  -- handleClientOutput, where send(2) took `sent` bytes.
  unfoldable pub handle_client_output : ℕ → ℕ → Server Io → Server Io
  handle_client_output fd sent s =
      let wrote = adjust_client fd (clear_send_buffer sent) s in
      if not (has_pending_data fd s)
      then s
      else (if (who s fd).pending_close
          then (if not (has_pending_data fd wrote) || is_sendq_exceeded fd wrote
              then finalize_disconnect fd wrote
              else wrote)
          else (if is_sendq_exceeded fd wrote
              then disconnect_client_now fd (text "SendQ exceeded") wrote
              else wrote))

  -- `parse` is handleMessage up to its call of dispatchCommand: none for a line that it ignores.
  unfoldable pub handle_message : (Bytes → Option Message) → ℕ → Bytes → Server Io → Server Io
  handle_message parse fd raw s = elim (parse raw) [
    | none ↦ s
    | some msg ↦ if is_nil msg.command then s else dispatch_command fd msg s
  ]

  -- The loop of handleClientInput, which a disconnection ends.
  unfoldable pub handle_lines : (Bytes → Option Message) → ℕ → List Bytes → Server Io → Server Io
  handle_lines parse fd [] s =
      if is_sendq_exceeded fd s then disconnect_client_now fd (text "SendQ exceeded") s else s
  handle_lines parse fd (raw ∷ lines) s =
      let after = handle_message parse fd raw s in
      let rest = handle_lines parse fd lines after in
      if not (has_key fd after.clients) || (who after fd).pending_close then after else rest

  -- appendToRecvBuffer, updateLastActivity and setPingSent(false).
  unfoldable pub receive : ℕ → Bytes → Client Io → Client Io
  receive now bytes c = append_to_recv_buffer (set_who (seen_alive now) c) bytes

  -- handleClientInput, where recv(2) gave bytes. What extractMessages leaves is stored first.
  unfoldable pub handle_client_input : (Bytes → Option Message) → ℕ → Bytes → Server Io → Server Io
  handle_client_input parse fd bytes s = elim (lookup fd s.clients) [
    | none ↦ s
    | some c ↦
        handle_lines parse fd (extract_messages (receive s.clock bytes c)).0
          (adjust_client fd (λ c. (extract_messages (receive s.clock bytes c)).1) s)
  ]

  -- recv(2) gave nothing: the peer has closed.
  unfoldable pub handle_client_eof : ℕ → Server Io → Server Io
  handle_client_eof fd s = disconnect_client fd (text "Connection closed") s

  -- updateEpollInterest
  unfoldable pub update_epoll_interest : ℕ → Server Io → Server Io
  update_epoll_interest fd s = record s {
    epoll_mask =
        insert fd (mask (not (who s fd).pending_close) (has_pending_data fd s)) s.epoll_mask;
  }

  -- The extensions' onTick.
  unfoldable pub tick_extensions : Server Io → Server Io
  tick_extensions s = notify_extensions on_tick s
