-- ===== src/Extensions/Quiet.antt =====
-- The hooks of the extensions only queue messages and change the extension's own state.
use ft_irc.Prelude.{Bytes, text, bytes_eq, ℕ, Bool, List, [], ◌∷◌, if_ind}
use ft_irc.Libcpp.{StrLib, SocketLib}
use ft_irc.Message.{Message}
use ft_irc.Server.{Extension, Server, bot, file_transfer, audit_log}
use ft_irc.Server.Quiet.{Quiet-refl, Quiet-trans, with_extensions-Quiet, Quiet}
use ft_irc.Bot.Quiet.{bot_message-Quiet}
use ft_irc.Bot.{bot_nickname}
use ft_irc.FileTransfer.Quiet.{abort_peers-Quiet, abort_idle-Quiet, file_command-Quiet}
use ft_irc.Extensions.{
  on_privmsg, on_command, on_client_disconnect, on_tick, first_handler, each_extension,
  ask_extensions, notify_extensions,
}

module _ {Io : Type 0} ⦃str : StrLib⦄ ⦃sock : SocketLib Io⦄ where
  on_privmsg-Quiet :
      (fd : ℕ) (target msg : Bytes) (e : Extension) (s : Server Io)
      → Quiet s (on_privmsg fd target msg e s).1
  unfolding on_privmsg
  on_privmsg-Quiet fd target msg (bot next) s =
      if_ind (λ (r : Extension × Server Io × Bool). Quiet s r.1)
        (str.eq_ascii_nocase target bot_nickname) (λ _. bot_message-Quiet next fd msg s)
        (λ _. Quiet-refl s)
  on_privmsg-Quiet fd target msg (file_transfer ts next_id) s = Quiet-refl s
  on_privmsg-Quiet fd target msg audit_log s = Quiet-refl s

  on_command-Quiet :
      (fd : ℕ) (msg : Message) (e : Extension) (s : Server Io) → Quiet s (on_command fd msg e s).1
  unfolding on_command
  on_command-Quiet fd msg (bot next) s = Quiet-refl s
  on_command-Quiet fd msg (file_transfer ts next_id) s =
      if_ind (λ (r : Extension × Server Io × Bool). Quiet s r.1)
        (bytes_eq msg.command (text "FILE")) (λ _. file_command-Quiet fd msg next_id ts s)
        (λ _. Quiet-refl s)
  on_command-Quiet fd msg audit_log s = Quiet-refl s

  on_client_disconnect-Quiet :
      (fd : ℕ) (e : Extension) (s : Server Io) → Quiet s (on_client_disconnect fd e s).1
  unfolding on_client_disconnect
  on_client_disconnect-Quiet fd (bot next) s = Quiet-refl s
  on_client_disconnect-Quiet fd (file_transfer ts next_id) s =
      abort_peers-Quiet s fd ts (ts, s) (Quiet-refl s)
  on_client_disconnect-Quiet fd audit_log s = Quiet-refl s

  on_tick-Quiet : (e : Extension) (s : Server Io) → Quiet s (on_tick e s).1
  unfolding on_tick
  on_tick-Quiet (bot next) s = Quiet-refl s
  on_tick-Quiet (file_transfer ts next_id) s = abort_idle-Quiet s s.clock ts (ts, s) (Quiet-refl s)
  on_tick-Quiet audit_log s = Quiet-refl s

  first_handler-Quiet :
      (hook : Extension → Server Io → Extension × Server Io × Bool)
      → ((e : Extension) (s : Server Io) → Quiet s (hook e s).1)
      → (es : List Extension) (s : Server Io) → Quiet s (first_handler hook es s).1
  unfolding first_handler
  first_handler-Quiet hook h [] s = Quiet-refl s
  first_handler-Quiet hook h (e ∷ es) s =
      if_ind (λ (r : List Extension × Server Io × Bool). Quiet s r.1) (hook e s).2 (λ _. h e s)
        (λ _. Quiet-trans (h e s) (first_handler-Quiet hook h es (hook e s).1))

  each_extension-Quiet :
      (hook : Extension → Server Io → Extension × Server Io)
      → ((e : Extension) (s : Server Io) → Quiet s (hook e s).1)
      → (es : List Extension) (s : Server Io) → Quiet s (each_extension hook es s).1
  unfolding each_extension
  each_extension-Quiet hook h [] s = Quiet-refl s
  each_extension-Quiet hook h (e ∷ es) s =
      Quiet-trans (h e s) (each_extension-Quiet hook h es (hook e s).1)

  pub ask_privmsg-Quiet :
      (fd : ℕ) (target msg : Bytes) (s : Server Io)
      → Quiet s (ask_extensions (on_privmsg fd target msg) s).0
  unfolding ask_extensions
  ask_privmsg-Quiet fd target msg s =
      Quiet-trans
        (first_handler-Quiet (on_privmsg fd target msg) (on_privmsg-Quiet fd target msg)
          s.extensions s)
        (with_extensions-Quiet _ _)

  pub ask_command-Quiet :
      (fd : ℕ) (msg : Message) (s : Server Io) → Quiet s (ask_extensions (on_command fd msg) s).0
  unfolding ask_extensions
  ask_command-Quiet fd msg s =
      Quiet-trans (first_handler-Quiet (on_command fd msg) (on_command-Quiet fd msg) s.extensions s)
        (with_extensions-Quiet _ _)

  pub notify_disconnect-Quiet :
      (fd : ℕ) (s : Server Io) → Quiet s (notify_extensions (on_client_disconnect fd) s)
  unfolding notify_extensions
  notify_disconnect-Quiet fd s =
      Quiet-trans
        (each_extension-Quiet (on_client_disconnect fd) (on_client_disconnect-Quiet fd) s.extensions
          s)
        (with_extensions-Quiet _ _)

  pub notify_tick-Quiet : (s : Server Io) → Quiet s (notify_extensions on_tick s)
  unfolding notify_extensions
  notify_tick-Quiet s =
      Quiet-trans (each_extension-Quiet on_tick on_tick-Quiet s.extensions s)
        (with_extensions-Quiet _ _)
