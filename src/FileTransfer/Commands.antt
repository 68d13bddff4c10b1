-- ===== src/FileTransfer/Commands.antt =====
-- src/bonus/FileTransferExt.cpp: the handlers of the FILE subcommands.
use ft_irc.Prelude.{
  Bytes, text, bytes_eq, nat_key, bytes_key, lookup, insert, erase, has_key, ℕ, ◌+◌, ◌/◌, Bool,
  true, false, not, ◌&&◌, Option, none, some, ◌++◌, ltb, ◌==◌, if◌then◌else◌, length, is_nil,
}
use ft_irc.Limits.{max_sendq}
use ft_irc.Libcpp.{StrLib, SocketLib}
use ft_irc.Client.{prefix}
use ft_irc.Message.{param, Message}
use ft_irc.Server.{Transfer}
use ft_irc.Server.Store.{who, audit, find_client_by_nick, queue_to}
use ft_irc.FileTransfer.Chunks.{is_valid_filename, is_base64_chunk, decoded_bytes}
use ft_irc.FileTransfer.{max_file_size, Relay, find_active, notice, abort_transfer, parse_id}

module _ ⦃str : StrLib⦄ where
  -- parseId(msg.params[1]), if there are so many parameters.
  abbrev pub id_of : Message → ℕ → Option ℕ
  id_of msg least = if ltb (length msg.params) least then none else parse_id (param msg 1)

module _ {Io : Type 0} ⦃str : StrLib⦄ ⦃sock : SocketLib Io⦄ where
  abbrev pub tell : ℕ → Bytes → Relay Io → Relay Io
  tell fd msg (ts, s) = (ts, notice fd msg s)

  -- The part of cmdSend behind its guards.
  unfoldable pub offer : ℕ → ℕ → Bytes → Bytes → ℕ → ℕ → Relay Io → ℕ × Relay Io
  offer fd recipient nick filename size id (ts, s) =
      let t : Transfer = record {
        sender_fd = fd;
        recipient_fd = recipient;
        filename = filename;
        declared_size = size;
        relayed_bytes = 0;
        accepted = false;
        last_activity = s.clock;
      } in
      let told =
        queue_to recipient
          (text ":"
            ++ prefix (who s fd)
            ++ text " FILE OFFER "
            ++ str.to_string id
            ++ text " "
            ++ filename
            ++ text " "
            ++ str.to_string size)
          s in
      (
        id + 1,
        (
          insert id t ts,
          audit (text "file-offer") (who s fd).nickname
              (nick ++ text " " ++ filename ++ text " " ++ str.to_string size)
              (notice fd (text "FILE " ++ str.to_string id ++ text " offered to " ++ nick) told),
        ),
      )

  -- cmdSend once the recipient is found.
  unfoldable pub send_to : ℕ → ℕ → Message → ℕ → Relay Io → ℕ × Relay Io
  send_to fd recipient msg next_id r =
      if recipient == fd
      then (next_id, tell fd (text "FILE: cannot send to yourself") r)
      else (if not (is_valid_filename (param msg 2))
          then (next_id, tell fd (text "FILE: invalid filename") r)
          else elim (str.parse_ulong (param msg 3) 1 max_file_size) [
            | none ↦ (
              next_id,
              tell fd (text "FILE: invalid size (1.." ++ str.to_string max_file_size ++ text ")") r,
            )
            | some size ↦
                if not (find_active fd recipient r.0 == 0)
                then (
                  next_id,
                  tell fd (text "FILE: a transfer to " ++ param msg 1 ++ text " is already active")
                      r,
                )
                else offer fd recipient (param msg 1) (param msg 2) size next_id r
          ])

  unfoldable pub file_send : ℕ → Message → ℕ → Relay Io → ℕ × Relay Io
  file_send fd msg next_id r =
      if ltb (length msg.params) 4
      then (next_id, tell fd (text "FILE SEND usage: FILE SEND <nick> <file> <size>") r)
      else elim (find_client_by_nick r.1 (param msg 1)) [
        | none ↦ (next_id, tell fd (text "FILE: no such nick " ++ param msg 1) r)
        | some recipient ↦
            if not (who r.1 recipient).registered
            then (next_id, tell fd (text "FILE: no such nick " ++ param msg 1) r)
            else send_to fd recipient msg next_id r
      ]

  -- cmdAnswer for a transfer that was offered to the client.
  unfoldable pub answer : ℕ → ℕ → Transfer → Bool → Relay Io → Relay Io
  answer fd id t accept (ts, s) =
      if not (has_key t.sender_fd s.clients)
      then (erase id ts, notice fd (text "FILE: sender is gone") s)
      else (if accept
          then (
            insert id (record t { last_activity = s.clock; accepted = true }) ts,
            audit (text "file-accept") (who s fd).nickname t.filename (
                queue_to t.sender_fd
                  (text ":" ++ prefix (who s fd) ++ text " FILE OK " ++ str.to_string id) s),
          )
          else (
            erase id ts,
            audit (text "file-reject") (who s fd).nickname t.filename (
                queue_to t.sender_fd
                  (text ":" ++ prefix (who s fd) ++ text " FILE NO " ++ str.to_string id) s),
          ))

  unfoldable pub file_answer : ℕ → Message → Bool → Relay Io → Relay Io
  file_answer fd msg accept r = elim (id_of msg 2) [
    | none ↦ tell fd (text "FILE: usage: FILE ACCEPT|REJECT <id>") r
    | some id ↦ elim (lookup id r.0) [
      | none ↦ tell fd (text "FILE: no offer with id " ++ param msg 1) r
      | some t ↦
          if not (t.recipient_fd == fd)
          then tell fd (text "FILE: no offer with id " ++ param msg 1) r
          else answer fd id t accept r
    ]
  ]

  -- cmdData behind the tests on the chunk.
  unfoldable pub relay_chunk : ℕ → ℕ → Transfer → Message → Relay Io → Relay Io
  relay_chunk fd id t msg (ts, s) = elim (lookup t.recipient_fd s.clients) [
    | none ↦ abort_transfer id (text "peer disconnected") (ts, s)
    | some recipient ↦
        if ltb (max_sendq / 2) (length (sock.out_data recipient.io))
        then tell fd (text "FILE WAIT " ++ param msg 1) (ts, s)
        else (
          insert id
              (record t {
                relayed_bytes = t.relayed_bytes + decoded_bytes (param msg 2);
                last_activity = s.clock;
              })
              ts,
          queue_to t.recipient_fd
              (text ":"
                ++ prefix (who s fd)
                ++ text " FILE DATA "
                ++ param msg 1
                ++ text " "
                ++ param msg 2)
              s,
        )
  ]

  unfoldable pub check_chunk : ℕ → ℕ → Transfer → Message → Relay Io → Relay Io
  check_chunk fd id t msg r =
      if not (is_base64_chunk (param msg 2))
      then abort_transfer id (text "malformed chunk") r
      else (if decoded_bytes (param msg 2) == 0
          then abort_transfer id (text "malformed chunk") r
          else (if ltb t.declared_size (t.relayed_bytes + decoded_bytes (param msg 2))
              then abort_transfer id (text "size overrun") r
              else relay_chunk fd id t msg r))

  unfoldable pub file_data : ℕ → Message → Relay Io → Relay Io
  file_data fd msg r = elim (id_of msg 3) [
    | none ↦ tell fd (text "FILE: usage: FILE DATA <id> <base64>") r
    | some id ↦ elim (lookup id r.0) [
      | none ↦ tell fd (text "FILE: no transfer with id " ++ param msg 1) r
      | some t ↦
          if not (t.sender_fd == fd)
          then tell fd (text "FILE: no transfer with id " ++ param msg 1) r
          else (if not t.accepted
              then tell fd (text "FILE: transfer " ++ param msg 1 ++ text " not accepted yet") r
              else check_chunk fd id t msg r)
    ]
  ]

  -- cmdEnd for a transfer of the client.
  unfoldable pub finish : ℕ → ℕ → Transfer → Message → Relay Io → Relay Io
  finish fd id t msg (ts, s) =
      let line =
        text ":"
        ++ prefix (who s fd)
        ++ text " FILE END "
        ++ param msg 1
        ++ text " "
        ++ str.to_string t.relayed_bytes in
      (
        erase id ts,
        audit (text "file-end") (who s fd).nickname
            (t.filename ++ text " " ++ str.to_string t.relayed_bytes)
            (if has_key t.recipient_fd s.clients then queue_to t.recipient_fd line s else s),
      )

  unfoldable pub file_end : ℕ → Message → Relay Io → Relay Io
  file_end fd msg r = elim (id_of msg 2) [
    | none ↦ tell fd (text "FILE: usage: FILE END <id>") r
    | some id ↦ elim (lookup id r.0) [
      | none ↦ tell fd (text "FILE: no transfer with id " ++ param msg 1) r
      | some t ↦
          if not (t.sender_fd == fd)
          then tell fd (text "FILE: no transfer with id " ++ param msg 1) r
          else finish fd id t msg r
    ]
  ]

  unfoldable pub file_abort : ℕ → Message → Relay Io → Relay Io
  file_abort fd msg r = elim (id_of msg 2) [
    | none ↦ tell fd (text "FILE: usage: FILE ABORT <id>") r
    | some id ↦ elim (lookup id r.0) [
      | none ↦ tell fd (text "FILE: no transfer with id " ++ param msg 1) r
      | some t ↦
          if not (t.sender_fd == fd) && not (t.recipient_fd == fd)
          then tell fd (text "FILE: no transfer with id " ++ param msg 1) r
          else abort_transfer id (text "aborted by " ++ (who r.1 fd).nickname) r
    ]
  ]

  -- onCommand, for a message whose command is FILE.
  unfoldable pub file_command : ℕ → Message → ℕ → Relay Io → ℕ × Relay Io
  file_command fd msg next_id r =
      let sub = str.to_upper (param msg 0) in
      if is_nil msg.params
      then (
        next_id,
        tell fd
            (text
              "FILE usage: SEND <nick> <file> <size> | ACCEPT/REJECT <id> | DATA <id> <b64> | END <id> | ABORT <id>")
            r,
      )
      else (if bytes_eq sub (text "SEND")
          then file_send fd msg next_id r
          else (if bytes_eq sub (text "ACCEPT")
              then (next_id, file_answer fd msg true r)
              else (if bytes_eq sub (text "REJECT")
                  then (next_id, file_answer fd msg false r)
                  else (if bytes_eq sub (text "DATA")
                      then (next_id, file_data fd msg r)
                      else (if bytes_eq sub (text "END")
                          then (next_id, file_end fd msg r)
                          else (if bytes_eq sub (text "ABORT")
                              then (next_id, file_abort fd msg r)
                              else (
                                next_id,
                                tell fd (text "FILE: unknown subcommand " ++ sub) r,
                              )))))))
