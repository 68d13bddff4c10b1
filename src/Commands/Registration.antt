-- ===== src/Commands/Registration.antt =====
-- src/CommandRegistration.cpp: CAP, PASS, NICK, USER and the end of the registration.
use ft_irc.Prelude.{
  Bytes, text, bytes_eq, ℕ, ◌/◌, ◌%◌, Bool, true, false, not, ◌&&◌, ◌||◌, none, some, List, ◌++◌,
  ltb, ◌==◌, if◌then◌else◌, length, is_nil, any,
}
use ft_irc.Limits.{max_nicklen, max_userlen, server_name, server_version, server_created}
use ft_irc.Libcpp.{StrLib, SocketLib}
use ft_irc.Client.{prefix, Profile}
use ft_irc.Message.{matched, field, param, Message}
use ft_irc.Server.{Extension, Server}
use ft_irc.Server.Store.{who, set_profile, audit, is_nick_in_use, queue_to, send_reply}
use ft_irc.Extensions.{reserves_nick}
use ft_irc.Lifecycle.{broadcast_to_channels, disconnect_client}
use ft_irc.Validation.{is_valid_nickname, is_valid_username, cut}

unfoldable pub set_nickname : Bytes → Profile → Profile
set_nickname nick p = record p { nickname = nick }

unfoldable pub set_password : Bytes → Profile → Profile
set_password password p = record p { password = password; pass_sent = true }

unfoldable pub set_nick_set : Profile → Profile
set_nick_set p = record p { nick_set = true }

unfoldable pub set_registered : Profile → Profile
set_registered p = record p { registered = true }

-- A field of the grammar's match, or a parameter of a line that matched no command rule.
abbrev pub field_or_param : Message → Bytes → ℕ → Bytes
field_or_param msg name i = if matched msg then field msg name else param msg i

module _ ⦃str : StrLib⦄ where
  abbrev pub reserved_by_any : Bytes → List Extension → Bool
  reserved_by_any nick es = any (reserves_nick nick) es

  -- applyUserModeBitmask: `bits & 4` and `bits & 8`.
  unfoldable pub apply_user_mode_bitmask : Bytes → Profile → Profile
  apply_user_mode_bitmask arg p = elim (str.parse_long arg 0 255) [
    | none ↦ p
    | some bits ↦ record p {
      wallops = if bits / 4 % 2 == 1 then true else p.wallops;
      invisible = if bits / 8 % 2 == 1 then true else p.invisible;
    }
  ]

  -- cmdUser for a user name that passed the tests.
  unfoldable pub take_user : Bytes → Bytes → Bytes → Profile → Profile
  take_user username modes realname p =
      record (apply_user_mode_bitmask modes (record p { username = username })) {
        realname = realname;
        user_set = true;
      }

module _ {Io : Type 0} ⦃str : StrLib⦄ ⦃sock : SocketLib Io⦄ where
  unfoldable pub cmd_cap : ℕ → Message → Server Io → Server Io
  cmd_cap fd msg s =
      if is_nil msg.params
      then s
      else (if bytes_eq (str.to_upper (param msg 0)) (text "LS")
          then queue_to fd (text ":" ++ server_name ++ text " CAP * LS :") s
          else s)

  unfoldable pub cmd_pass : ℕ → Message → Server Io → Server Io
  cmd_pass fd msg s =
      if (who s fd).registered
      then send_reply fd (text "462") (text ":You may not reregister") s
      else (if is_nil msg.params
          then send_reply fd (text "461") (text "PASS :Not enough parameters") s
          else set_profile fd (set_password (field_or_param msg (text "password") 0)) s)

  -- The numerics that end a registration.
  unfoldable pub welcome : ℕ → Server Io → Server Io
  welcome fd s =
      let who_is = prefix (who s fd) in
      send_reply fd (text "422") (text ":MOTD File is missing") (
        send_reply fd (text "005")
          (text
              "CHANTYPES=# PREFIX=(o)@ CHANMODES=,,kl,it NICKLEN=9 CHANNELLEN=50 TOPICLEN=390 NETWORK="
            ++ server_name
            ++ text " CASEMAPPING=ascii :are supported by this server")
          (send_reply fd (text "004") (server_name ++ text " " ++ server_version ++ text " o itkol")
            (send_reply fd (text "003") (text ":This server was created " ++ server_created) (
              send_reply fd (text "002")
                (text ":Your host is "
                  ++ server_name
                  ++ text ", running version "
                  ++ server_version)
                (send_reply fd (text "001")
                  (text ":Welcome to the " ++ server_name ++ text " Network " ++ who_is) s)))))

  unfoldable pub complete_registration : ℕ → Server Io → Server Io
  complete_registration fd s =
      if not (who s fd).pass_sent || not (str.eq_consttime (who s fd).password s.password)
      then disconnect_client fd (text "Password mismatch")
          (send_reply fd (text "464") (text ":Password incorrect") s)
      else audit (text "register") (who s fd).nickname
          ((who s fd).username ++ text "@" ++ (who s fd).hostname)
          (welcome fd (set_profile fd set_registered s))

  -- cmdNick for a nickname that passed every test.
  unfoldable pub take_nick : ℕ → Bytes → Server Io → Server Io
  take_nick fd nick s =
      let change = text ":" ++ prefix (who s fd) ++ text " NICK :" ++ nick in
      let named = set_profile fd set_nick_set (set_profile fd (set_nickname nick) s) in
      if (who s fd).registered
      then set_profile fd (set_nickname nick)
          (broadcast_to_channels fd change (queue_to fd change s))
      else (if (who s fd).user_set then complete_registration fd named else named)

  unfoldable pub cmd_nick : ℕ → Message → Server Io → Server Io
  cmd_nick fd msg s =
      let wanted = field_or_param msg (text "newnick") 0 in
      let nick = cut max_nicklen wanted in
      if is_nil msg.params
      then send_reply fd (text "431") (text ":No nickname given") s
      else (if not (is_valid_nickname wanted)
          then send_reply fd (text "432") (wanted ++ text " :Erroneous nickname") s
          else (if is_nick_in_use s nick fd || reserved_by_any nick s.extensions
              then send_reply fd (text "433") (nick ++ text " :Nickname is already in use") s
              else take_nick fd nick s))

  unfoldable pub cmd_user : ℕ → Message → Server Io → Server Io
  cmd_user fd msg s =
      let short = send_reply fd (text "461") (text "USER :Not enough parameters") s in
      let username = cut max_userlen (field_or_param msg (text "username") 0) in
      let filled =
        set_profile fd (take_user username (param msg 1) (field_or_param msg (text "realname") 3))
          s in
      if (who s fd).registered
      then send_reply fd (text "462") (text ":You may not reregister") s
      else (if ltb (length msg.params) 4
          then short
          else (if not (matched msg)
                && not (elim msg.trailing_index [ none ↦ false | some i ↦ i == 3 ])
              then short
              else (if not (is_valid_username username)
                  then send_reply fd (text "461") (text "USER :Invalid username") s
                  else (if (who s fd).nick_set then complete_registration fd filled else filled))))
