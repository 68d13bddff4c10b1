-- ===== src/Extensions.antt =====
-- include/ext/IServerExtension.hpp: the hooks, dispatched on the class of the extension, and the
-- loops over `_extensions` that call them. Hooks that no class overrides do nothing.
pub mod Quiet
use ft_irc.Prelude.{Bytes, text, bytes_eq, ℕ, Bool, true, false, List, [], ◌∷◌, if◌then◌else◌}
use ft_irc.Libcpp.{StrLib, SocketLib}
use ft_irc.Message.{Message}
use ft_irc.Server.{Extension, Server, bot, file_transfer, audit_log}
use ft_irc.Bot.{bot_nickname, bot_message}
use ft_irc.FileTransfer.{abort_peers, abort_idle}
use ft_irc.FileTransfer.Commands.{file_command}

module _ ⦃str : StrLib⦄ where
  unfoldable pub reserves_nick : Bytes → Extension → Bool
  reserves_nick nick (bot next) = str.eq_ascii_nocase nick bot_nickname
  reserves_nick nick (file_transfer ts next_id) = false
  reserves_nick nick audit_log = false

module _ {Io : Type 0} ⦃str : StrLib⦄ ⦃sock : SocketLib Io⦄ where
  unfoldable pub on_privmsg :
      ℕ → Bytes → Bytes → Extension → Server Io → Extension × Server Io × Bool
  on_privmsg sender target msg (bot next) s =
      let (next', s') = bot_message next sender msg s in
      if str.eq_ascii_nocase target bot_nickname
      then (bot next', s', true)
      else (bot next, s, false)
  on_privmsg sender target msg (file_transfer ts next_id) s = (file_transfer ts next_id, s, false)
  on_privmsg sender target msg audit_log s = (audit_log, s, false)

  unfoldable pub on_command : ℕ → Message → Extension → Server Io → Extension × Server Io × Bool
  on_command fd msg (bot next) s = (bot next, s, false)
  on_command fd msg (file_transfer ts next_id) s =
      let (next_id', r) = file_command fd msg next_id (ts, s) in
      if bytes_eq msg.command (text "FILE")
      then (file_transfer r.0 next_id', r.1, true)
      else (file_transfer ts next_id, s, false)
  on_command fd msg audit_log s = (audit_log, s, false)

  unfoldable pub on_client_disconnect : ℕ → Extension → Server Io → Extension × Server Io
  on_client_disconnect fd (bot next) s = (bot next, s)
  on_client_disconnect fd (file_transfer ts next_id) s =
      let (ts', s') = abort_peers fd ts (ts, s) in (file_transfer ts' next_id, s')
  on_client_disconnect fd audit_log s = (audit_log, s)

  unfoldable pub on_tick : Extension → Server Io → Extension × Server Io
  on_tick (bot next) s = (bot next, s)
  on_tick (file_transfer ts next_id) s =
      let (ts', s') = abort_idle s.clock ts (ts, s) in (file_transfer ts' next_id, s')
  on_tick audit_log s = (audit_log, s)

  -- A loop over the extensions that stops at the first which handles the call.
  unfoldable pub first_handler :
      (Extension → Server Io → Extension × Server Io × Bool)
      → List Extension
      → Server Io
      → List Extension × Server Io × Bool
  first_handler hook [] s = ([], s, false)
  first_handler hook (e ∷ es) s =
      let (e', s', handled) = hook e s in
      let (es', s'', later) = first_handler hook es s' in
      if handled then (e' ∷ es, s', true) else (e' ∷ es', s'', later)

  -- A loop over all the extensions.
  unfoldable pub each_extension :
      (Extension → Server Io → Extension × Server Io)
      → List Extension
      → Server Io
      → List Extension × Server Io
  each_extension hook [] s = ([], s)
  each_extension hook (e ∷ es) s =
      let (e', s') = hook e s in let (es', s'') = each_extension hook es s' in (e' ∷ es', s'')

  unfoldable pub ask_extensions :
      (Extension → Server Io → Extension × Server Io × Bool) → Server Io → Server Io × Bool
  ask_extensions hook s =
      let (es, s', handled) = first_handler hook s.extensions s in
      (record s' { extensions = es }, handled)

  unfoldable pub notify_extensions :
      (Extension → Server Io → Extension × Server Io) → Server Io → Server Io
  notify_extensions hook s =
      let (es, s') = each_extension hook s.extensions s in record s' { extensions = es }
