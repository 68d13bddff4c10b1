-- ===== src/Dispatch/Gate.antt =====
-- src/Server.cpp: what dispatchCommand makes of the messages of a client that is not registered.
use ft_irc.Prelude.{Bytes, text, bytes_eq, ℕ, ◌≡◌, false, Option, none, some, arith, if◌then◌else◌}
use ft_irc.Libcpp.{StrLib, SocketLib}
use ft_irc.Message.{Message}
use ft_irc.Server.{Server}
use ft_irc.Server.Store.{who, send_reply}
use ft_irc.Dispatch.{commands, find_entry, find_command, run_handler, dispatch_command, Command}

-- The names of the commands that are open to everyone, with what each does.
abbrev pub open_command : Bytes → Option Command
open_command name =
    if bytes_eq name (text "CAP")
    then some Command.cap
    else (if bytes_eq name (text "PASS")
        then some Command.pass
        else (if bytes_eq name (text "NICK")
            then some Command.nick
            else (if bytes_eq name (text "USER")
                then some Command.user
                else (if bytes_eq name (text "QUIT")
                    then some Command.quit
                    else (if bytes_eq name (text "PONG") then some Command.pong else none)))))

module _ {Io : Type 0} ⦃str : StrLib⦄ ⦃sock : SocketLib Io⦄ where
  -- A message of a client that is not registered runs the handler of its command if that is
  -- CAP, PASS, NICK, USER, QUIT or PONG, each name its own, and whatever else it is it only
  -- queues the reply 451; no extension is asked.
  pub dispatch_command-unregistered :
      (fd : ℕ) (msg : Message) (s : Server Io)
      → (who s fd).registered ≡ false
      → dispatch_command fd msg s ≡ elim (open_command msg.command) [
        | none ↦ send_reply fd (text "451") (text ":You have not registered") s
        | some c ↦ run_handler c fd msg s
      ]
  unfolding dispatch_command find_command find_entry commands
  dispatch_command-unregistered fd msg s h = ground (arith, h)
