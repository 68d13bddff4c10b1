-- ===== src/FileTransfer/Quiet.antt =====
-- src/bonus/FileTransferExt.cpp: the relay only queues messages.
use ft_irc.Prelude.{
  Bytes, text, bytes_eq, Map, nat_key, bytes_key, lookup, has_key, ℕ, ◌+◌, ◌-◌, ◌/◌, Bool, true,
  false, not, ◌&&◌, ◌||◌, Option, none, some, [], ◌∷◌, ltb, ◌==◌, if◌then◌else◌, if_ind, Option_ind,
  length, is_nil,
}
use ft_irc.Limits.{max_sendq}
use ft_irc.Libcpp.{StrLib, SocketLib}
use ft_irc.Message.{param, Message}
use ft_irc.Server.{Transfer, Server}
use ft_irc.Server.Store.{who, find_client_by_nick}
use ft_irc.Server.Quiet.{
  Quiet-refl, Quiet-trans, queue_to-Quiet, send_to_client-Quiet, then_audit, Quiet,
}
use ft_irc.FileTransfer.Chunks.{is_valid_filename, is_base64_chunk, decoded_bytes}
use ft_irc.FileTransfer.{
  max_file_size, idle_timeout, Relay, find_active, notice, notice_if_there, abort_transfer,
  abort_peers, abort_idle,
}
use ft_irc.FileTransfer.Commands.{
  id_of, offer, send_to, file_send, answer, file_answer, relay_chunk, check_chunk, file_data,
  finish, file_end, file_abort, file_command,
}

module _ {Io : Type 0} ⦃str : StrLib⦄ ⦃sock : SocketLib Io⦄ where
  notice-Quiet : (fd : ℕ) (msg : Bytes) (s : Server Io) → Quiet s (notice fd msg s)
  unfolding notice
  notice-Quiet fd msg s = send_to_client-Quiet fd _ s

  notice_if_there-Quiet :
      (fd : ℕ) (msg : Bytes) (s : Server Io) → Quiet s (notice_if_there fd msg s)
  unfolding notice_if_there
  notice_if_there-Quiet fd msg s =
      if_ind (Quiet s) (has_key fd s.clients) (λ _. notice-Quiet fd msg s) (λ _. Quiet-refl s)

  abort_transfer-Quiet :
      (id : ℕ) (why : Bytes) (ts : Map ℕ Transfer) (s : Server Io)
      → Quiet s (abort_transfer id why (ts, s)).1
  unfolding abort_transfer
  abort_transfer-Quiet id why ts s =
      Option_ind (λ (r : Relay Io). Quiet s r.1) (lookup id ts) (λ _. Quiet-refl s)
        λ t _.
          Quiet-trans (notice_if_there-Quiet t.sender_fd _ s)
            (notice_if_there-Quiet t.recipient_fd _ _)

  pub abort_peers-Quiet :
      (s : Server Io) (fd : ℕ) (m : Map ℕ Transfer) (r : Relay Io)
      → Quiet s r.1
      → Quiet s (abort_peers fd m r).1
  unfolding abort_peers
  abort_peers-Quiet s fd [] r q = q
  abort_peers-Quiet s fd ((id, t) ∷ m) r q =
      abort_peers-Quiet s fd m
        (if t.sender_fd == fd || t.recipient_fd == fd
          then abort_transfer id (text "peer disconnected") r
          else r)
        (if_ind (λ (r' : Relay Io). Quiet s r'.1) (t.sender_fd == fd || t.recipient_fd == fd)
          (λ _. Quiet-trans q (abort_transfer-Quiet id _ r.0 r.1)) (λ _. q))

  pub abort_idle-Quiet :
      (s : Server Io) (now : ℕ) (m : Map ℕ Transfer) (r : Relay Io)
      → Quiet s r.1
      → Quiet s (abort_idle now m r).1
  unfolding abort_idle
  abort_idle-Quiet s now [] r q = q
  abort_idle-Quiet s now ((id, t) ∷ m) r q =
      abort_idle-Quiet s now m
        (if ltb idle_timeout (now - t.last_activity)
          then abort_transfer id (text "timeout") r
          else r)
        (if_ind (λ (r' : Relay Io). Quiet s r'.1) (ltb idle_timeout (now - t.last_activity))
          (λ _. Quiet-trans q (abort_transfer-Quiet id _ r.0 r.1)) (λ _. q))

  -- What a handler of the relay leaves behind is reached by queueing alone.
  abbrev QuietRelay : Server Io → Relay Io → Type 0
  QuietRelay s r = Quiet s r.1

  abbrev QuietCount : Server Io → ℕ × Relay Io → Type 0
  QuietCount s r = Quiet s r.1.1

  offer-Quiet :
      (fd recipient : ℕ) (nick filename : Bytes) (size id : ℕ) (ts : Map ℕ Transfer) (s : Server Io)
      → QuietCount s (offer fd recipient nick filename size id (ts, s))
  unfolding offer
  offer-Quiet fd recipient nick filename size id ts s =
      then_audit (Quiet-trans (queue_to-Quiet recipient _ s) (notice-Quiet fd _ _)) _ _ _

  send_to-Quiet :
      (fd recipient : ℕ) (msg : Message) (next : ℕ) (ts : Map ℕ Transfer) (s : Server Io)
      → QuietCount s (send_to fd recipient msg next (ts, s))
  unfolding send_to
  send_to-Quiet fd recipient msg next ts s =
      if_ind (QuietCount s) (recipient == fd) (λ _. notice-Quiet fd _ s)
        λ _.
          if_ind (QuietCount s) (not (is_valid_filename (param msg 2))) (λ _. notice-Quiet fd _ s)
            λ _.
              Option_ind (QuietCount s) (str.parse_ulong (param msg 3) 1 max_file_size)
                (λ _. notice-Quiet fd _ s)
                λ size _.
                  if_ind (QuietCount s) (not (find_active fd recipient ts == 0))
                    (λ _. notice-Quiet fd _ s)
                    (λ _. offer-Quiet fd recipient (param msg 1) (param msg 2) size next ts s)

  file_send-Quiet :
      (fd : ℕ) (msg : Message) (next : ℕ) (ts : Map ℕ Transfer) (s : Server Io)
      → QuietCount s (file_send fd msg next (ts, s))
  unfolding file_send
  file_send-Quiet fd msg next ts s =
      if_ind (QuietCount s) (ltb (length msg.params) 4) (λ _. notice-Quiet fd _ s)
        λ _.
          Option_ind (QuietCount s) (find_client_by_nick s (param msg 1)) (λ _. notice-Quiet fd _ s)
            λ recipient _.
              if_ind (QuietCount s) (not (who s recipient).registered) (λ _. notice-Quiet fd _ s)
                (λ _. send_to-Quiet fd recipient msg next ts s)

  answer-Quiet :
      (fd id : ℕ) (t : Transfer) (accept : Bool) (ts : Map ℕ Transfer) (s : Server Io)
      → QuietRelay s (answer fd id t accept (ts, s))
  unfolding answer
  answer-Quiet fd id t accept ts s =
      if_ind (QuietRelay s) (not (has_key t.sender_fd s.clients)) (λ _. notice-Quiet fd _ s)
        λ _.
          if_ind (QuietRelay s) accept (λ _. then_audit (queue_to-Quiet t.sender_fd _ s) _ _ _)
            (λ _. then_audit (queue_to-Quiet t.sender_fd _ s) _ _ _)

  relay_chunk-Quiet :
      (fd id : ℕ) (t : Transfer) (msg : Message) (ts : Map ℕ Transfer) (s : Server Io)
      → QuietRelay s (relay_chunk fd id t msg (ts, s))
  unfolding relay_chunk
  relay_chunk-Quiet fd id t msg ts s =
      Option_ind (QuietRelay s) (lookup t.recipient_fd s.clients)
        (λ _. abort_transfer-Quiet id _ ts s)
        λ recipient _.
          if_ind (QuietRelay s) (ltb (max_sendq / 2) (length (sock.out_data recipient.io)))
            (λ _. notice-Quiet fd _ s) (λ _. queue_to-Quiet t.recipient_fd _ s)

  check_chunk-Quiet :
      (fd id : ℕ) (t : Transfer) (msg : Message) (ts : Map ℕ Transfer) (s : Server Io)
      → QuietRelay s (check_chunk fd id t msg (ts, s))
  unfolding check_chunk
  check_chunk-Quiet fd id t msg ts s =
      if_ind (QuietRelay s) (not (is_base64_chunk (param msg 2)))
        (λ _. abort_transfer-Quiet id _ ts s)
        λ _.
          if_ind (QuietRelay s) (decoded_bytes (param msg 2) == 0)
            (λ _. abort_transfer-Quiet id _ ts s)
            λ _.
              if_ind (QuietRelay s)
                (ltb t.declared_size (t.relayed_bytes + decoded_bytes (param msg 2)))
                (λ _. abort_transfer-Quiet id _ ts s) (λ _. relay_chunk-Quiet fd id t msg ts s)

  finish-Quiet :
      (fd id : ℕ) (t : Transfer) (msg : Message) (ts : Map ℕ Transfer) (s : Server Io)
      → QuietRelay s (finish fd id t msg (ts, s))
  unfolding finish
  finish-Quiet fd id t msg ts s =
      then_audit
        (if_ind (Quiet s) (has_key t.recipient_fd s.clients)
          (λ _. queue_to-Quiet t.recipient_fd _ s) (λ _. Quiet-refl s))
        _ _ _

  -- The handlers that begin with an id and its transfer.
  module _ (fd : ℕ) (ts : Map ℕ Transfer) (s : Server Io) where
    for_transfer-Quiet :
        (o : Option ℕ) (usage missing : Bytes) (act : ℕ → Transfer → Relay Io)
        → ((id : ℕ) (t : Transfer) → QuietRelay s (act id t))
        → QuietRelay s (elim o [
          | none ↦ (ts, notice fd usage s)
          | some id ↦ elim (lookup id ts) [ none ↦ (ts, notice fd missing s) | some t ↦ act id t ]
        ])
    for_transfer-Quiet o usage missing act h =
        Option_ind (QuietRelay s) o (λ _. notice-Quiet fd usage s)
          λ id _.
            Option_ind (QuietRelay s) (lookup id ts) (λ _. notice-Quiet fd missing s)
              (λ t _. h id t)

  file_answer-Quiet :
      (fd : ℕ) (msg : Message) (accept : Bool) (ts : Map ℕ Transfer) (s : Server Io)
      → QuietRelay s (file_answer fd msg accept (ts, s))
  unfolding file_answer
  file_answer-Quiet fd msg accept ts s = for_transfer-Quiet fd ts s (id_of msg 2) _ _ _ λ id t.
      if_ind (QuietRelay s) (not (t.recipient_fd == fd)) (λ _. notice-Quiet fd _ s)
        (λ _. answer-Quiet fd id t accept ts s)

  file_data-Quiet :
      (fd : ℕ) (msg : Message) (ts : Map ℕ Transfer) (s : Server Io)
      → QuietRelay s (file_data fd msg (ts, s))
  unfolding file_data
  file_data-Quiet fd msg ts s = for_transfer-Quiet fd ts s (id_of msg 3) _ _ _ λ id t.
      if_ind (QuietRelay s) (not (t.sender_fd == fd)) (λ _. notice-Quiet fd _ s)
        λ _.
          if_ind (QuietRelay s) (not t.accepted) (λ _. notice-Quiet fd _ s)
            (λ _. check_chunk-Quiet fd id t msg ts s)

  file_end-Quiet :
      (fd : ℕ) (msg : Message) (ts : Map ℕ Transfer) (s : Server Io)
      → QuietRelay s (file_end fd msg (ts, s))
  unfolding file_end
  file_end-Quiet fd msg ts s = for_transfer-Quiet fd ts s (id_of msg 2) _ _ _ λ id t.
      if_ind (QuietRelay s) (not (t.sender_fd == fd)) (λ _. notice-Quiet fd _ s)
        (λ _. finish-Quiet fd id t msg ts s)

  file_abort-Quiet :
      (fd : ℕ) (msg : Message) (ts : Map ℕ Transfer) (s : Server Io)
      → QuietRelay s (file_abort fd msg (ts, s))
  unfolding file_abort
  file_abort-Quiet fd msg ts s = for_transfer-Quiet fd ts s (id_of msg 2) _ _ _ λ id t.
      if_ind (QuietRelay s) (not (t.sender_fd == fd) && not (t.recipient_fd == fd))
        (λ _. notice-Quiet fd _ s) (λ _. abort_transfer-Quiet id _ ts s)

  pub file_command-Quiet :
      (fd : ℕ) (msg : Message) (next : ℕ) (ts : Map ℕ Transfer) (s : Server Io)
      → QuietCount s (file_command fd msg next (ts, s))
  unfolding file_command
  file_command-Quiet fd msg next ts s =
      let sub = str.to_upper (param msg 0) in
      if_ind (QuietCount s) (is_nil msg.params) (λ _. notice-Quiet fd _ s)
        λ _.
          if_ind (QuietCount s) (bytes_eq sub (text "SEND")) (λ _. file_send-Quiet fd msg next ts s)
            λ _.
              if_ind (QuietCount s) (bytes_eq sub (text "ACCEPT"))
                (λ _. file_answer-Quiet fd msg true ts s)
                λ _.
                  if_ind (QuietCount s) (bytes_eq sub (text "REJECT"))
                    (λ _. file_answer-Quiet fd msg false ts s)
                    λ _.
                      if_ind (QuietCount s) (bytes_eq sub (text "DATA"))
                        (λ _. file_data-Quiet fd msg ts s)
                        λ _.
                          if_ind (QuietCount s) (bytes_eq sub (text "END"))
                            (λ _. file_end-Quiet fd msg ts s)
                            λ _.
                              if_ind (QuietCount s) (bytes_eq sub (text "ABORT"))
                                (λ _. file_abort-Quiet fd msg ts s) (λ _. notice-Quiet fd _ s)
