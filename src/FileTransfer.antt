-- ===== src/FileTransfer.antt =====
-- include/bonus/FileTransferExt.hpp and src/bonus/FileTransferExt.cpp: the FILE relay. Its state
-- is the map of the transfers and the next id; a handler returns both with the server.
pub mod Chunks
pub mod Commands
pub mod Quiet
pub mod Bounds
pub mod Departed
pub mod Disconnected
use ft_irc.Prelude.{
  Bytes, text, Map, nat_key, bytes_key, lookup, erase, has_key, ℕ, ◌-◌, ◌&&◌, ◌||◌, Option, none,
  some, [], ◌∷◌, ◌++◌, ltb, ◌==◌, if◌then◌else◌,
}
use ft_irc.Libcpp.{StrLib, SocketLib}
use ft_irc.Server.{Transfer, Server}
use ft_irc.Server.Store.{who, send_to_client}
use Chunks.{is_valid_filename, is_base64_chunk, decoded_bytes}

abbrev pub max_file_size : ℕ
max_file_size = 52428800

abbrev pub idle_timeout : ℕ
idle_timeout = 60

-- LONG_MAX
abbrev long_max : ℕ
long_max = 9223372036854775807

abbrev pub Relay : Type 0 → Type 0
Relay Io = Map ℕ Transfer × Server Io

-- The first active transfer of a sender to a recipient; 0 if there is none.
unfoldable pub find_active : ℕ → ℕ → Map ℕ Transfer → ℕ
find_active sender recipient [] = 0
find_active sender recipient ((id, t) ∷ m) =
    if t.sender_fd == sender && t.recipient_fd == recipient
    then id
    else find_active sender recipient m

module _ {Io : Type 0} ⦃str : StrLib⦄ ⦃sock : SocketLib Io⦄ where
  unfoldable pub notice : ℕ → Bytes → Server Io → Server Io
  notice fd msg s = send_to_client fd (text "NOTICE " ++ (who s fd).nickname ++ text " :" ++ msg) s

  -- if (client) notice(…), for a client that is looked up by its descriptor.
  unfoldable pub notice_if_there : ℕ → Bytes → Server Io → Server Io
  notice_if_there fd msg s = if has_key fd s.clients then notice fd msg s else s

  unfoldable pub abort_transfer : ℕ → Bytes → Relay Io → Relay Io
  abort_transfer id why (ts, s) = elim (lookup id ts) [
    | none ↦ (ts, s)
    | some t ↦
        let line = text "FILE ABRT " ++ str.to_string id ++ text " :" ++ why in
        (erase id ts, notice_if_there t.recipient_fd line (notice_if_there t.sender_fd line s))
  ]

  -- The loops of onClientDisconnect and onTick walk over the map as it was, by the ids.
  unfoldable pub abort_peers : ℕ → Map ℕ Transfer → Relay Io → Relay Io
  abort_peers fd [] r = r
  abort_peers fd ((id, t) ∷ m) r = abort_peers fd m (
      if t.sender_fd == fd || t.recipient_fd == fd
      then abort_transfer id (text "peer disconnected") r
      else r)

  unfoldable pub abort_idle : ℕ → Map ℕ Transfer → Relay Io → Relay Io
  abort_idle now [] r = r
  abort_idle now ((id, t) ∷ m) r =
      abort_idle now m (
        if ltb idle_timeout (now - t.last_activity)
        then abort_transfer id (text "timeout") r
        else r)

module _ ⦃str : StrLib⦄ where
  unfoldable pub parse_id : Bytes → Option ℕ
  parse_id s = str.parse_long s 1 long_max
