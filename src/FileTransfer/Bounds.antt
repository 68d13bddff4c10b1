-- ===== src/FileTransfer/Bounds.antt =====
-- src/bonus/FileTransferExt.cpp: what every transfer of the relay satisfies.
use ft_irc.Server.{Transfer, Server}
use ft_irc.Server.Store.{who, find_client_by_nick}
use ft_irc.Message.{param, Message}
use ft_irc.Limits.{max_sendq}
use ft_irc.Libcpp.{StrLib, StrLaws, SocketLib}
use ft_irc.Prelude.{
  Bytes, text, bytes_eq, Map, nat_key, bytes_key, lookup, has_key, ℕ, ◌+◌, ◌-◌, ◌/◌, ◌≤◌, ◌<◌, ◌≡◌,
  refl, Bool, true, false, not, ◌&&◌, ◌||◌, Option, none, some, [], ◌∷◌, arith, ltb, ◌==◌, if_ind,
  Option_ind, length, is_nil,
}
use ft_irc.Prelude.Maps.Laws.{Each, Each-insert, Each-erase, Each-lookup, Each-mono}
use ft_irc.FileTransfer.{
  max_file_size, idle_timeout, Relay, find_active, notice, abort_transfer, abort_peers, abort_idle,
}
use ft_irc.FileTransfer.Chunks.{is_valid_filename, is_base64_chunk, decoded_bytes}
use ft_irc.FileTransfer.Commands.{
  id_of, offer, send_to, file_send, answer, file_answer, relay_chunk, check_chunk, file_data,
  finish, file_end, file_abort, file_command,
}

-- A transfer: its id was given out, its size is one that was allowed, and no more than that was
-- relayed; nothing was relayed before the recipient accepted.
pub record TransferOk (next_id id : ℕ) (t : Transfer) : Type 0 where
  pub id_given : id < next_id
  pub size_positive : 1 ≤ t.declared_size
  pub size_allowed : t.declared_size ≤ max_file_size
  pub within_size : t.relayed_bytes ≤ t.declared_size
  pub accepted_first : 0 < t.relayed_bytes → t.accepted ≡ true
  pub name_valid : is_valid_filename t.filename ≡ true

abbrev pub TransfersOk : ℕ → Map ℕ Transfer → Type 0
TransfersOk next_id = Each (TransferOk next_id)

abbrev pub RelayOk : {Io : Type 0} → ℕ → Relay Io → Type 0
RelayOk next_id r = TransfersOk next_id r.0

abbrev pub CountOk : {Io : Type 0} → ℕ × Relay Io → Type 0
CountOk r = TransfersOk r.0 r.1.0

module _ {Io : Type 0} ⦃str : StrLib⦄ ⦃sock : SocketLib Io⦄ (next : ℕ) where
  abort_transfer-RelayOk :
      (id : ℕ) (why : Bytes) (r : Relay Io)
      → RelayOk next r
      → RelayOk next (abort_transfer id why r)
  unfolding abort_transfer
  abort_transfer-RelayOk id why (ts, s) h =
      Option_ind (RelayOk next) (lookup id ts) (λ _. h)
        (λ t _. Each-erase (TransferOk next) id ts h)

  pub abort_peers-RelayOk :
      (fd : ℕ) (m : Map ℕ Transfer) (r : Relay Io)
      → RelayOk next r
      → RelayOk next (abort_peers fd m r)
  unfolding abort_peers
  abort_peers-RelayOk fd [] r h = h
  abort_peers-RelayOk fd ((id, t) ∷ m) r h = abort_peers-RelayOk fd m _ (
      if_ind (RelayOk next) (t.sender_fd == fd || t.recipient_fd == fd)
        (λ _. abort_transfer-RelayOk id (text "peer disconnected") r h) (λ _. h))

  pub abort_idle-RelayOk :
      (now : ℕ) (m : Map ℕ Transfer) (r : Relay Io)
      → RelayOk next r
      → RelayOk next (abort_idle now m r)
  unfolding abort_idle
  abort_idle-RelayOk now [] r h = h
  abort_idle-RelayOk now ((id, t) ∷ m) r h = abort_idle-RelayOk now m _ (
      if_ind (RelayOk next) (ltb idle_timeout (now - t.last_activity))
        (λ _. abort_transfer-RelayOk id (text "timeout") r h) (λ _. h))

module _ {Io : Type 0} ⦃str : StrLib⦄ ⦃sock : SocketLib Io⦄ (laws : StrLaws str) (fd : ℕ)
    (msg : Message) (next : ℕ) (ts : Map ℕ Transfer) (s : Server Io) (h : TransfersOk next ts) where
  offer-CountOk :
      (recipient : ℕ) (nick filename : Bytes) (size : ℕ)
      → is_valid_filename filename ≡ true
      → (1 ≤ size) × (size ≤ max_file_size)
      → CountOk (offer fd recipient nick filename size next (ts, s))
  unfolding offer
  offer-CountOk recipient nick filename size named (least, most) =
      Each-insert (TransferOk (next + 1)) next _ ts
        (record {
          id_given = omega arith;
          size_positive = least;
          size_allowed = most;
          within_size = omega arith;
          accepted_first = λ more. absurd (omega (arith, more));
          name_valid = named;
        })
        (Each-mono (TransferOk next) (TransferOk (next + 1)) ts
          (λ id t ok. record {
            id_given = omega (arith, ok.id_given);
            size_positive = ok.size_positive;
            size_allowed = ok.size_allowed;
            within_size = ok.within_size;
            accepted_first = ok.accepted_first;
            name_valid = ok.name_valid;
          })
          h)

  file_send-CountOk : CountOk (file_send fd msg next (ts, s))
  unfolding file_send send_to
  file_send-CountOk =
      let P = λ (r : ℕ × Relay Io). CountOk r in
      if_ind P (ltb (length msg.params) 4) (λ _. h)
        λ _.
          Option_ind P (find_client_by_nick s (param msg 1)) (λ _. h)
            λ recipient _.
              if_ind P (not (who s recipient).registered) (λ _. h)
                λ _.
                  if_ind P (recipient == fd) (λ _. h)
                    λ _.
                      if_ind P (not (is_valid_filename (param msg 2))) (λ _. h)
                        λ named.
                          Option_ind P (str.parse_ulong (param msg 3) 1 max_file_size) (λ _. h)
                            λ size parsed.
                              if_ind P (not (find_active fd recipient ts == 0)) (λ _. h)
                                (λ _.
                                  offer-CountOk recipient (param msg 1) (param msg 2) size
                                    (ground (arith, named))
                                    (laws.parse_ulong_range (param msg 3) 1 max_file_size size
                                      parsed))

  -- The handlers that begin with an id and its transfer.
  for_transfer-RelayOk :
      (o : Option ℕ) (usage missing : Bytes) (act : ℕ → Transfer → Relay Io)
      → ((id : ℕ) (t : Transfer) → TransferOk next id t → RelayOk next (act id t))
      → RelayOk next (elim o [
        | none ↦ (ts, notice fd usage s)
        | some id ↦ elim (lookup id ts) [ none ↦ (ts, notice fd missing s) | some t ↦ act id t ]
      ])
  for_transfer-RelayOk o usage missing act k =
      Option_ind (RelayOk next) o (λ _. h)
        λ id _.
          Option_ind (RelayOk next) (lookup id ts) (λ _. h)
            (λ t found. k id t (Each-lookup (TransferOk next) id ts h found))

  file_answer-RelayOk : (accept : Bool) → RelayOk next (file_answer fd msg accept (ts, s))
  unfolding file_answer answer
  file_answer-RelayOk accept = for_transfer-RelayOk (id_of msg 2) _ _ _ λ id t ok.
      if_ind (RelayOk next) (not (t.recipient_fd == fd)) (λ _. h)
        λ _.
          if_ind (RelayOk next) (not (has_key t.sender_fd s.clients))
            (λ _. Each-erase (TransferOk next) id ts h)
            λ _.
              if_ind (RelayOk next) accept
                (λ _.
                  Each-insert (TransferOk next) id _ ts
                    (record {
                      id_given = ok.id_given;
                      size_positive = ok.size_positive;
                      size_allowed = ok.size_allowed;
                      within_size = ok.within_size;
                      accepted_first = λ _. refl;
                      name_valid = ok.name_valid;
                    })
                    h)
                (λ _. Each-erase (TransferOk next) id ts h)

  file_data-RelayOk : RelayOk next (file_data fd msg (ts, s))
  unfolding file_data check_chunk relay_chunk
  file_data-RelayOk =
      let P = λ (r : Relay Io). RelayOk next r in
      for_transfer-RelayOk (id_of msg 3) _ _ _ λ id t ok.
        let aborted = λ (why : Bytes). abort_transfer-RelayOk next id why (ts, s) h in
        if_ind P (not (t.sender_fd == fd)) (λ _. h)
          λ _.
            if_ind P (not t.accepted) (λ _. h)
              λ taken.
                if_ind P (not (is_base64_chunk (param msg 2))) (λ _. aborted _)
                  λ _.
                    if_ind P (decoded_bytes (param msg 2) == 0) (λ _. aborted _)
                      λ _.
                        if_ind P
                          (ltb t.declared_size (t.relayed_bytes + decoded_bytes (param msg 2)))
                          (λ _. aborted _)
                          λ room.
                            Option_ind P (lookup t.recipient_fd s.clients) (λ _. aborted _)
                              λ recipient _.
                                if_ind P (ltb (max_sendq / 2) (length (sock.out_data recipient.io)))
                                  (λ _. h)
                                  (λ _.
                                    Each-insert (TransferOk next) id _ ts
                                      (record {
                                        id_given = ok.id_given;
                                        size_positive = ok.size_positive;
                                        size_allowed = ok.size_allowed;
                                        within_size = ground (arith, room);
                                        accepted_first = λ _. ground (arith, taken);
                                        name_valid = ok.name_valid;
                                      })
                                      h)

  file_end-RelayOk : RelayOk next (file_end fd msg (ts, s))
  unfolding file_end finish
  file_end-RelayOk = for_transfer-RelayOk (id_of msg 2) _ _ _ λ id t ok.
      if_ind (RelayOk next) (not (t.sender_fd == fd)) (λ _. h)
        (λ _. Each-erase (TransferOk next) id ts h)

  file_abort-RelayOk : RelayOk next (file_abort fd msg (ts, s))
  unfolding file_abort
  file_abort-RelayOk = for_transfer-RelayOk (id_of msg 2) _ _ _ λ id t ok.
      if_ind (RelayOk next) (not (t.sender_fd == fd) && not (t.recipient_fd == fd)) (λ _. h)
        (λ _. abort_transfer-RelayOk next id _ (ts, s) h)

  -- Whatever FILE command a client sends, every transfer keeps an id below the next one, a size
  -- of 1 byte to 50 MiB, a valid file name, and no more relayed than its size; and nothing is
  -- relayed of a transfer that was not accepted. It is assumed of the string library that a
  -- parsed number is within the bounds asked for.
  pub file_command-CountOk : CountOk (file_command fd msg next (ts, s))
  unfolding file_command
  file_command-CountOk =
      let P = λ (r : ℕ × Relay Io). CountOk r in
      let sub = str.to_upper (param msg 0) in
      if_ind P (is_nil msg.params) (λ _. h)
        λ _.
          if_ind P (bytes_eq sub (text "SEND")) (λ _. file_send-CountOk)
            λ _.
              if_ind P (bytes_eq sub (text "ACCEPT")) (λ _. file_answer-RelayOk true)
                λ _.
                  if_ind P (bytes_eq sub (text "REJECT")) (λ _. file_answer-RelayOk false)
                    λ _.
                      if_ind P (bytes_eq sub (text "DATA")) (λ _. file_data-RelayOk)
                        λ _.
                          if_ind P (bytes_eq sub (text "END")) (λ _. file_end-RelayOk)
                            λ _.
                              if_ind P (bytes_eq sub (text "ABORT")) (λ _. file_abort-RelayOk)
                                (λ _. h)
