-- ===== src/Dispatch.antt =====
-- src/Server.cpp: the command table, `findCommand` and `dispatchCommand`.
pub mod Gate
use ft_irc.Prelude.{
  Bytes, text, bytes_eq, ℕ, Bool, true, false, not, ◌&&◌, Option, none, some, List, [], ◌∷◌, ◌++◌,
  if◌then◌else◌,
}
use ft_irc.Libcpp.{StrLib, SocketLib}
use ft_irc.Message.{Message}
use ft_irc.Server.{Server}
use ft_irc.Server.Store
use ft_irc.Server.Store.{send_reply}
use ft_irc.Extensions.{on_command, ask_extensions}
use ft_irc.Commands.Registration.{cmd_cap, cmd_pass, cmd_nick, cmd_user}
use ft_irc.Commands.Channels.{cmd_join, cmd_part}
use ft_irc.Commands.Operator.{cmd_kick, cmd_invite, cmd_topic, cmd_mode}
use ft_irc.Commands.Messaging.{cmd_privmsg, cmd_notice, cmd_ping, cmd_pong, cmd_quit}
use ft_irc.Commands.Query.{cmd_who, cmd_whois, cmd_userhost}

-- A handler of the table.
pub data Command : Type 0 where
  cap pass nick user quit pong ping join part privmsg notice kick invite topic mode who whois
        userhost :
      Command

pub record CommandEntry : Type 0 where
  pub name : Bytes
  pub handler : Command
  pub needs_registration : Bool

abbrev pub entry : Bytes → Command → Bool → CommandEntry
entry name handler needs = record { name = name; handler = handler; needs_registration = needs }

unfoldable pub commands : List CommandEntry
commands =
    entry (text "CAP") Command.cap false
    ∷ entry (text "PASS") Command.pass false
    ∷ entry (text "NICK") Command.nick false
    ∷ entry (text "USER") Command.user false
    ∷ entry (text "QUIT") Command.quit false
    ∷ entry (text "PONG") Command.pong false
    ∷ entry (text "PING") Command.ping true
    ∷ entry (text "JOIN") Command.join true
    ∷ entry (text "PART") Command.part true
    ∷ entry (text "PRIVMSG") Command.privmsg true
    ∷ entry (text "NOTICE") Command.notice true
    ∷ entry (text "KICK") Command.kick true
    ∷ entry (text "INVITE") Command.invite true
    ∷ entry (text "TOPIC") Command.topic true
    ∷ entry (text "MODE") Command.mode true
    ∷ entry (text "WHO") Command.who true
    ∷ entry (text "WHOIS") Command.whois true
    ∷ entry (text "USERHOST") Command.userhost true
    ∷ []

unfoldable pub find_entry : Bytes → List CommandEntry → Option CommandEntry
find_entry name [] = none
find_entry name (e ∷ es) = if bytes_eq name e.name then some e else find_entry name es

unfoldable pub find_command : Bytes → Option CommandEntry
find_command name = find_entry name commands

module _ {Io : Type 0} ⦃str : StrLib⦄ ⦃sock : SocketLib Io⦄ where
  unfoldable pub run_handler : Command → ℕ → Message → Server Io → Server Io
  run_handler Command.cap fd msg s = cmd_cap fd msg s
  run_handler Command.pass fd msg s = cmd_pass fd msg s
  run_handler Command.nick fd msg s = cmd_nick fd msg s
  run_handler Command.user fd msg s = cmd_user fd msg s
  run_handler Command.quit fd msg s = cmd_quit fd msg s
  run_handler Command.pong fd msg s = cmd_pong fd msg s
  run_handler Command.ping fd msg s = cmd_ping fd msg s
  run_handler Command.join fd msg s = cmd_join fd msg s
  run_handler Command.part fd msg s = cmd_part fd msg s
  run_handler Command.privmsg fd msg s = cmd_privmsg fd msg s
  run_handler Command.notice fd msg s = cmd_notice fd msg s
  run_handler Command.kick fd msg s = cmd_kick fd msg s
  run_handler Command.invite fd msg s = cmd_invite fd msg s
  run_handler Command.topic fd msg s = cmd_topic fd msg s
  run_handler Command.mode fd msg s = cmd_mode fd msg s
  run_handler Command.who fd msg s = cmd_who fd msg s
  run_handler Command.whois fd msg s = cmd_whois fd msg s
  run_handler Command.userhost fd msg s = cmd_userhost fd msg s

  -- Where the command is not in the table, the extensions are asked.
  unfoldable pub extension_command : ℕ → Message → Server Io → Server Io
  extension_command fd msg s =
      let (asked, handled) = ask_extensions (on_command fd msg) s in
      if handled
      then asked
      else send_reply fd (text "421") (msg.command ++ text " :Unknown command") asked

  unfoldable pub dispatch_command : ℕ → Message → Server Io → Server Io
  dispatch_command fd msg s =
      let not_registered = send_reply fd (text "451") (text ":You have not registered") s in
      elim (find_command msg.command) [
        | none ↦ if (Store.who s fd).registered then extension_command fd msg s else not_registered
        | some e ↦
            if e.needs_registration && not (Store.who s fd).registered
            then not_registered
            else run_handler e.handler fd msg s
      ]
