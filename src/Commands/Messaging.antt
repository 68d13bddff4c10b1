-- ===== src/Commands/Messaging.antt =====
-- src/CommandMessaging.cpp: PRIVMSG, NOTICE, PING, PONG and QUIT.
pub mod Quiet
pub mod Delivery
use ft_irc.Prelude.{
  Bytes, text, ℕ, false, not, ◌||◌, none, some, List, [], ◌∷◌, ◌++◌, ltb, ◌==◌, if◌then◌else◌,
  length, get_or, is_nil,
}
use ft_irc.Limits.{server_name}
use ft_irc.Libcpp.{StrLib, SocketLib}
use ft_irc.Client.{prefix, Profile}
use ft_irc.Channel.{is_member}
use ft_irc.Message.{matched, field, list, param, Message}
use ft_irc.Server.{Server}
use ft_irc.Server.Store.{who, set_profile, find_client_by_nick, queue_to, send_reply, broadcast}
use ft_irc.Server.Channels.{find_channel}
use ft_irc.Extensions.{on_privmsg, ask_extensions}
use ft_irc.Lifecycle.{disconnect_client}
use ft_irc.Commands.Registration.{field_or_param}

module _ ⦃str : StrLib⦄ where
  abbrev pub targets_of : Message → List Bytes
  targets_of msg =
      if matched msg
      then list msg (text "msgtarget") b','
      else str.split_nonempty (param msg 0) b','

-- updateLastActivity and setPingSent(false)
unfoldable pub seen_alive : ℕ → Profile → Profile
seen_alive now p = record p { last_activity = now; ping_sent = false }

module _ {Io : Type 0} ⦃str : StrLib⦄ ⦃sock : SocketLib Io⦄ where
  -- ":<prefix> <command> <target> :<text>"
  unfoldable pub message_line : ℕ → Bytes → Bytes → Bytes → Server Io → Bytes
  message_line fd command target body s =
      text ":"
      ++ prefix (who s fd)
      ++ text " "
      ++ command
      ++ text " "
      ++ target
      ++ text " :"
      ++ body

  unfoldable pub privmsg_channel : ℕ → Bytes → Bytes → Server Io → Server Io
  privmsg_channel fd target body s = elim (find_channel s target) [
    | none ↦ send_reply fd (text "403") (target ++ text " :No such channel") s
    | some chan ↦
        if not (is_member fd chan)
        then send_reply fd (text "404") (target ++ text " :Cannot send to channel") s
        else broadcast chan.members (message_line fd (text "PRIVMSG") target body s) (some fd) s
  ]

  unfoldable pub privmsg_client : ℕ → Bytes → Bytes → Server Io → Server Io
  privmsg_client fd target body s =
      let (asked, handled) = ask_extensions (on_privmsg fd target body) s in
      if handled then asked else elim (find_client_by_nick asked target) [
        | none ↦ send_reply fd (text "401") (target ++ text " :No such nick/channel") asked
        | some t ↦ queue_to t (message_line fd (text "PRIVMSG") target body asked) asked
      ]

  unfoldable pub privmsg_each : ℕ → Bytes → List Bytes → Server Io → Server Io
  privmsg_each fd body [] s = s
  privmsg_each fd body (target ∷ targets) s = privmsg_each fd body targets (
      if get_or target 0 0 == b'#'
      then privmsg_channel fd target body s
      else privmsg_client fd target body s)

  unfoldable pub cmd_privmsg : ℕ → Message → Server Io → Server Io
  cmd_privmsg fd msg s =
      if is_nil msg.params || is_nil (param msg 0)
      then send_reply fd (text "411") (text ":No recipient given (PRIVMSG)") s
      else (if ltb (length msg.params) 2 || is_nil (param msg 1)
          then send_reply fd (text "412") (text ":No text to send") s
          else privmsg_each fd (field_or_param msg (text "msgtext") 1) (targets_of msg) s)

  unfoldable pub notice_one : ℕ → Bytes → Bytes → Server Io → Server Io
  notice_one fd body target s =
      let line = message_line fd (text "NOTICE") target body s in
      if get_or target 0 0 == b'#'
      then elim (find_channel s target) [
        | none ↦ s
        | some chan ↦ if is_member fd chan then broadcast chan.members line (some fd) s else s
      ]
      else elim (find_client_by_nick s target) [ none ↦ s | some t ↦ queue_to t line s ]

  unfoldable pub notice_each : ℕ → Bytes → List Bytes → Server Io → Server Io
  notice_each fd body [] s = s
  notice_each fd body (target ∷ targets) s =
      notice_each fd body targets (notice_one fd body target s)

  unfoldable pub cmd_notice : ℕ → Message → Server Io → Server Io
  cmd_notice fd msg s =
      if ltb (length msg.params) 2 || is_nil (param msg 0) || is_nil (param msg 1)
      then s
      else notice_each fd (field_or_param msg (text "msgtext") 1) (targets_of msg) s

  unfoldable pub cmd_ping : ℕ → Message → Server Io → Server Io
  cmd_ping fd msg s =
      if is_nil msg.params
      then send_reply fd (text "461") (text "PING :Not enough parameters") s
      else queue_to fd
          (text ":" ++ server_name ++ text " PONG " ++ server_name ++ text " :" ++ param msg 0) s

  unfoldable pub cmd_pong : ℕ → Message → Server Io → Server Io
  cmd_pong fd msg s = set_profile fd (seen_alive s.clock) s

  unfoldable pub cmd_quit : ℕ → Message → Server Io → Server Io
  cmd_quit fd msg s =
      disconnect_client fd
        (if matched msg
          then field msg (text "quitmsg")
          else (if is_nil msg.params then text "Quit" else param msg 0))
        s
