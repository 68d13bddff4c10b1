-- ===== src/Commands/Operator.antt =====
-- src/CommandOperator.cpp: KICK, INVITE, TOPIC and MODE.
use ft_irc.Prelude.{
  Bytes, text, nat_key, bytes_key, ℕ, not, ◌&&◌, ◌||◌, none, some, ◌++◌, ◌==◌, if◌then◌else◌,
  length, get_or, is_nil,
}
use ft_irc.Limits.{max_topiclen}
use ft_irc.Libcpp.{StrLib, SocketLib}
use ft_irc.Client.{prefix}
use ft_irc.Channel.{is_member, is_operator, add_invite, set_topic, Channel}
use ft_irc.Message.{matched, has, field, param, Message}
use ft_irc.Server.{Server}
use ft_irc.Server.Store.{who, find_client_by_nick, queue_to, send_reply, broadcast}
use ft_irc.Server.Channels.{put_channel, leave_channel, channel_key, find_channel}
use ft_irc.Validation.{cut}
use ft_irc.Commands.Registration.{field_or_param}
use ft_irc.Commands.Channels.{reply_modes}
use ft_irc.Commands.Modes.{find_member, handle_channel_mode}
use ft_irc.Commands.UserModes.{handle_user_mode}

module _ {Io : Type 0} ⦃str : StrLib⦄ ⦃sock : SocketLib Io⦄ where
  unfoldable pub no_such_channel : ℕ → Bytes → Server Io → Server Io
  no_such_channel fd name s = send_reply fd (text "403") (name ++ text " :No such channel") s

  unfoldable pub not_on_channel : ℕ → Bytes → Server Io → Server Io
  not_on_channel fd name s =
      send_reply fd (text "442") (name ++ text " :You're not on that channel") s

  unfoldable pub not_operator : ℕ → Bytes → Server Io → Server Io
  not_operator fd name s =
      send_reply fd (text "482") (name ++ text " :You're not channel operator") s

  -- KICK behind its guards.
  unfoldable pub kick : ℕ → Bytes → Channel → ℕ → Bytes → Server Io → Server Io
  kick fd name chan target reason s =
      let line =
        text ":"
        ++ prefix (who s fd)
        ++ text " KICK "
        ++ chan.name
        ++ text " "
        ++ (who s target).nickname
        ++ text " :"
        ++ reason in
      leave_channel (channel_key name) chan target (broadcast chan.members line none s)

  unfoldable pub cmd_kick : ℕ → Message → Server Io → Server Io
  cmd_kick fd msg s =
      let name = field msg (text "kickchans") in
      let target = field msg (text "kickusers") in
      let reason =
        if has msg (text "kickreason")
        then field msg (text "kickreason")
        else (who s fd).nickname in
      if not (matched msg)
      then send_reply fd (text "461") (text "KICK :Not enough parameters") s
      else elim (find_channel s name) [
        | none ↦ no_such_channel fd name s
        | some chan ↦
            if not (is_member fd chan)
            then not_on_channel fd name s
            else (if not (is_operator fd chan)
                then not_operator fd name s
                else elim (find_member target chan.members s) [
                  | none ↦
                      send_reply fd (text "441")
                        (target ++ text " " ++ name ++ text " :They aren't on that channel") s
                  | some t ↦ kick fd name chan t reason s
                ])
      ]

  -- INVITE behind its guards.
  unfoldable pub invite : ℕ → Bytes → Channel → ℕ → Bytes → Server Io → Server Io
  invite fd name chan t target s =
      queue_to t (text ":" ++ prefix (who s fd) ++ text " INVITE " ++ target ++ text " :" ++ name) (
        send_reply fd (text "341") (target ++ text " " ++ name)
          (put_channel (channel_key name) (add_invite t chan) s))

  unfoldable pub cmd_invite : ℕ → Message → Server Io → Server Io
  cmd_invite fd msg s =
      let target = field msg (text "invnick") in
      let name = field msg (text "invchan") in
      if not (matched msg)
      then send_reply fd (text "461") (text "INVITE :Not enough parameters") s
      else elim (find_channel s name) [
        | none ↦ no_such_channel fd name s
        | some chan ↦
            if not (is_member fd chan)
            then not_on_channel fd name s
            else (if chan.invite_only && not (is_operator fd chan)
                then not_operator fd name s
                else elim (find_client_by_nick s target) [
                  | none ↦ send_reply fd (text "401") (target ++ text " :No such nick/channel") s
                  | some t ↦
                      if is_member t chan
                      then send_reply fd (text "443")
                          (target ++ text " " ++ name ++ text " :is already on channel") s
                      else invite fd name chan t target s
                ])
      ]

  -- TOPIC with a text, behind its guards.
  unfoldable pub change_topic : ℕ → Bytes → Channel → Bytes → Server Io → Server Io
  change_topic fd name chan topic s =
      broadcast chan.members
        (text ":" ++ prefix (who s fd) ++ text " TOPIC " ++ chan.name ++ text " :" ++ topic) none
        (put_channel (channel_key name) (set_topic topic (who s fd).nickname s.clock chan) s)

  unfoldable pub show_topic : ℕ → Bytes → Channel → Server Io → Server Io
  show_topic fd name chan s =
      if is_nil chan.topic
      then send_reply fd (text "331") (name ++ text " :No topic is set") s
      else send_reply fd (text "333")
          (name ++ text " " ++ chan.topic_setter ++ text " " ++ str.to_string chan.topic_time)
          (send_reply fd (text "332") (name ++ text " :" ++ chan.topic) s)

  unfoldable pub cmd_topic : ℕ → Message → Server Io → Server Io
  cmd_topic fd msg s =
      let name = param msg 0 in
      if is_nil msg.params || is_nil name
      then send_reply fd (text "461") (text "TOPIC :Not enough parameters") s
      else elim (find_channel s name) [
        | none ↦ no_such_channel fd name s
        | some chan ↦
            if not (is_member fd chan)
            then not_on_channel fd name s
            else (if length msg.params == 1
                then show_topic fd name chan s
                else (if chan.topic_restricted && not (is_operator fd chan)
                    then not_operator fd name s
                    else change_topic fd name chan
                        (cut max_topiclen (field_or_param msg (text "topictext") 1)) s))
      ]

  unfoldable pub cmd_mode : ℕ → Message → Server Io → Server Io
  cmd_mode fd msg s =
      let target = param msg 0 in
      if is_nil msg.params || is_nil target
      then send_reply fd (text "461") (text "MODE :Not enough parameters") s
      else (if get_or target 0 0 == b'#'
          then elim (find_channel s target) [
            | none ↦ no_such_channel fd target s
            | some chan ↦
                if length msg.params == 1
                then (if is_member fd chan
                    then reply_modes fd target chan s
                    else not_on_channel fd target s)
                else handle_channel_mode fd (channel_key target) chan msg s
          ]
          else handle_user_mode fd msg s)
