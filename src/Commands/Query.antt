-- ===== src/Commands/Query.antt =====
-- src/CommandQuery.cpp: WHO, WHOIS and USERHOST, which only send replies.
pub mod Quiet
use ft_irc.Prelude.{
  Bytes, text, Map, nat_key, bytes_key, contains, ℕ, ◌||◌, none, some, List, [], ◌∷◌, ◌++◌, ltb,
  ◌==◌, if◌then◌else◌, length, get_or, take, is_nil,
}
use ft_irc.Limits.{server_name}
use ft_irc.Libcpp.{StrLib, SocketLib}
use ft_irc.Client.{Profile}
use ft_irc.Channel.{is_member, is_operator, Channel}
use ft_irc.Message.{param, Message}
use ft_irc.Server.{Server}
use ft_irc.Server.Store.{who, find_client_by_nick, send_reply}
use ft_irc.Server.Channels.{find_channel}

-- "<username> <hostname> <server> <nickname>", and the real name behind the flags.
unfoldable pub who_text : Bytes → Profile → Bytes → Bytes
who_text place p flags =
    place
    ++ text " "
    ++ p.username
    ++ text " "
    ++ p.hostname
    ++ text " "
    ++ server_name
    ++ text " "
    ++ p.nickname
    ++ text " "
    ++ flags
    ++ text " :0 "
    ++ p.realname

-- The channel list of WHOIS.
unfoldable pub channel_list : ℕ → Map Bytes Channel → Bytes → Bytes
channel_list fd [] acc = acc
channel_list fd ((key, c) ∷ m) acc = channel_list fd m (
    if is_member fd c
    then ((acc ++ (if is_nil acc then [] else text " "))
        ++ (if is_operator fd c then text "@" else []))
      ++ c.name
    else acc)

module _ {Io : Type 0} ⦃str : StrLib⦄ ⦃sock : SocketLib Io⦄ where
  unfoldable pub who_each : ℕ → Bytes → List ℕ → List ℕ → Server Io → Server Io
  who_each fd target operators [] s = s
  who_each fd target operators (m ∷ members) s = who_each fd target operators members (
      send_reply fd (text "352")
        (who_text target (who s m) (if contains m operators then text "H@" else text "H")) s)

  unfoldable pub cmd_who : ℕ → Message → Server Io → Server Io
  cmd_who fd msg s =
      let target = param msg 0 in
      let finished =
        λ (t : Server Io). send_reply fd (text "315") (target ++ text " :End of WHO list") t in
      if is_nil msg.params || is_nil target
      then send_reply fd (text "315") (text "* :End of WHO list") s
      else (if get_or target 0 0 == b'#'
          then elim (find_channel s target) [
            | none ↦ finished s
            | some chan ↦ finished (who_each fd target chan.operators chan.members s)
          ]
          else elim (find_client_by_nick s target) [
            | none ↦ finished s
            | some t ↦
                finished (send_reply fd (text "352") (who_text (text "*") (who s t) (text "H")) s)
          ])

  unfoldable pub whois : ℕ → Profile → ℕ → Server Io → Server Io
  whois fd p t s =
      let chans = channel_list t s.channels [] in
      let user =
        send_reply fd (text "311")
          (p.nickname
            ++ text " "
            ++ p.username
            ++ text " "
            ++ p.hostname
            ++ text " * :"
            ++ p.realname)
          s in
      let served =
        send_reply fd (text "312") (p.nickname ++ text " " ++ server_name ++ text " :ft_irc server")
          user in
      let listed =
        if is_nil chans
        then served
        else send_reply fd (text "319") (p.nickname ++ text " :" ++ chans) served in
      send_reply fd (text "318") (p.nickname ++ text " :End of WHOIS list") listed

  unfoldable pub cmd_whois : ℕ → Message → Server Io → Server Io
  cmd_whois fd msg s =
      let nick = param msg (if ltb 1 (length msg.params) then 1 else 0) in
      if is_nil msg.params || is_nil nick
      then send_reply fd (text "431") (text ":No nickname given") s
      else elim (find_client_by_nick s nick) [
        | none ↦ send_reply fd (text "401") (nick ++ text " :No such nick/channel") s
        | some t ↦ whois fd (who s t) t s
      ]

  unfoldable pub userhosts : List Bytes → Server Io → Bytes → Bytes
  userhosts [] s acc = acc
  userhosts (nick ∷ nicks) s acc = userhosts nicks s (elim (find_client_by_nick s nick) [
    | none ↦ acc
    | some t ↦
        ((acc ++ (if is_nil acc then [] else text " ")) ++ (who s t).nickname)
        ++ text "=+"
        ++ (who s t).username
        ++ text "@"
        ++ (who s t).hostname
  ])

  unfoldable pub cmd_userhost : ℕ → Message → Server Io → Server Io
  cmd_userhost fd msg s =
      if is_nil msg.params
      then send_reply fd (text "461") (text "USERHOST :Not enough parameters") s
      else send_reply fd (text "302") (text ":" ++ userhosts (take 5 msg.params) s []) s
