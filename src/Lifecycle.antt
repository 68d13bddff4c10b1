-- ===== src/Lifecycle.antt =====
-- src/Server.cpp: how a connection ends. The log, the trace and close(2) are outside.
use ft_irc.Prelude.{
  Bytes, text, Map, nat_key, bytes_key, lookup, erase, has_key, ℕ, Bool, true, false, not, none,
  some, List, [], ◌∷◌, ◌++◌, if◌then◌else◌,
}
use ft_irc.Libcpp.{StrLib, SocketLib}
use ft_irc.Client.{prefix, Profile}
use ft_irc.Channel.{remove_member, is_member, is_empty, remove_invite, Channel}
use ft_irc.Server.{Server}
use ft_irc.Server.Store.{who, set_profile, audit, send_once}
use ft_irc.Extensions.{on_client_disconnect, notify_extensions}

-- The loop of teardownClientState over the channels has two effects. This is the one on the table:
-- the client's invitation and membership go, and a channel that this empties is deleted.
unfoldable pub purge : ℕ → Map Bytes Channel → Map Bytes Channel
purge fd [] = []
purge fd ((key, c) ∷ m) =
    let uninvited = remove_invite fd c in
    let gone = remove_member fd uninvited in
    if is_member fd uninvited
    then (if is_empty gone then purge fd m else (key, gone) ∷ purge fd m)
    else (key, uninvited) ∷ purge fd m

unfoldable pub mark_tearing_down : Profile → Profile
mark_tearing_down p = record p { tearing_down = true }

unfoldable pub mark_pending_close : ℕ → Profile → Profile
mark_pending_close now p = record p { pending_close = true; pending_close_since = now }

module _ {Io : Type 0} ⦃str : StrLib⦄ ⦃sock : SocketLib Io⦄ where
  -- The other effect: each client that shares a channel is told once.
  unfoldable pub announce : ℕ → Bytes → Map Bytes Channel → List ℕ × Server Io → List ℕ × Server Io
  announce fd msg [] acc = acc
  announce fd msg ((key, c) ∷ m) acc =
      announce fd msg m (if is_member fd c then send_once c.members msg acc else acc)

  -- broadcastToChannels
  unfoldable pub broadcast_to_channels : ℕ → Bytes → Server Io → Server Io
  broadcast_to_channels fd msg s = (announce fd msg s.channels (fd ∷ [], s)).1

  -- has_pending and overflowed of a client's socket; false where there is no such client.
  unfoldable pub has_pending_data : ℕ → Server Io → Bool
  has_pending_data fd s = elim (lookup fd s.clients) [
    | none ↦ false
    | some c ↦ sock.has_pending c.io
  ]

  unfoldable pub is_sendq_exceeded : ℕ → Server Io → Bool
  is_sendq_exceeded fd s = elim (lookup fd s.clients) [
    | none ↦ false
    | some c ↦ sock.overflowed c.io
  ]

  unfoldable pub teardown_client_state : ℕ → Bytes → Server Io → Server Io
  teardown_client_state fd reason s =
      if (who s fd).tearing_down
      then s
      else (let quit = text ":" ++ prefix (who s fd) ++ text " QUIT :" ++ reason in
          let marked = set_profile fd mark_tearing_down s in
          let told = (announce fd quit s.channels (fd ∷ [], marked)).1 in
          let purged = record told { channels = purge fd s.channels } in
          audit (text "disconnect") (who s fd).nickname reason
            (notify_extensions (on_client_disconnect fd) purged))

  unfoldable pub finalize_disconnect : ℕ → Server Io → Server Io
  finalize_disconnect fd s = record s {
    epoll_mask = erase fd s.epoll_mask;
    clients = erase fd s.clients;
  }

  unfoldable pub disconnect_client : ℕ → Bytes → Server Io → Server Io
  disconnect_client fd reason s =
      let torn = teardown_client_state fd reason s in
      if not (has_key fd s.clients)
      then s
      else (if (who s fd).tearing_down
          then s
          else (if not (has_pending_data fd torn)
              then finalize_disconnect fd torn
              else set_profile fd (mark_pending_close s.clock) torn))

  unfoldable pub disconnect_client_now : ℕ → Bytes → Server Io → Server Io
  disconnect_client_now fd reason s =
      if not (has_key fd s.clients)
      then s
      else (if (who s fd).pending_close
          then finalize_disconnect fd s
          else (if (who s fd).tearing_down
              then s
              else finalize_disconnect fd (teardown_client_state fd reason s)))
