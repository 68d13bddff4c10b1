-- ===== src/Commands/Modes.antt =====
-- src/CommandOperator.cpp: `handleChannelMode` and `handleUserMode`. The loop over the mode string
-- carries its variables in a record; the channel is stored back when the loop has ended.
use ft_irc.Prelude.{
  Bytes, text, nat_key, bytes_key, ℕ, Bool, true, false, not, Option, none, some, List, [], ◌∷◌,
  ◌++◌, ltb, ◌==◌, if◌then◌else◌, length, drop, is_nil,
}
use ft_irc.Limits.{max_userlimit}
use ft_irc.Libcpp.{StrLib, SocketLib}
use ft_irc.Client.{prefix}
use ft_irc.Channel.{is_member, is_operator, set_operator, Channel}
use ft_irc.Message.{param, Message}
use ft_irc.Server.{Server}
use ft_irc.Server.Store.{who, send_reply, broadcast}
use ft_irc.Server.Channels.{put_channel}
use ft_irc.Validation.{is_valid_channel_key}
use ft_irc.Commands.ModeLines.{
  render_mode_lines, params_required, already_reported, starts_with_sign, ModeChange,
}

pub record Walk (Io : Type 0) : Type 0 where
  pub adding : Bool
  -- The parameters that are not used yet: those from `paramIdx` on.
  pub args : List Bytes
  pub applied : List ModeChange
  pub reported : List Bytes
  pub chan : Channel
  pub server : Server Io

abbrev change : Bool → ℕ → Bytes → ModeChange
change adding letter arg = record { adding = adding; letter = letter; arg = arg }

-- setKey and removeKey, setUserLimit and removeUserLimit, setInviteOnly, setTopicRestricted
unfoldable pub set_key : Bytes → Channel → Channel
set_key key c = record c { key = key }

unfoldable pub set_user_limit : ℕ → Channel → Channel
set_user_limit limit c = record c { user_limit = limit }

unfoldable pub set_invite_only : Bool → Channel → Channel
set_invite_only on c = record c { invite_only = on }

unfoldable pub set_topic_restricted : Bool → Channel → Channel
set_topic_restricted on c = record c { topic_restricted = on }

module _ {Io : Type 0} where
  -- A letter that took effect.
  unfoldable pub apply_mode : (Channel → Channel) → ModeChange → List Bytes → Walk Io → Walk Io
  apply_mode edit mc args w = record w {
    chan = edit w.chan;
    applied = w.applied ++ mc ∷ [];
    args = args;
  }

module _ {Io : Type 0} ⦃str : StrLib⦄ where
  -- Channel::findMember
  unfoldable pub find_member : Bytes → List ℕ → Server Io → Option ℕ
  find_member nick [] s = none
  find_member nick (fd ∷ members) s =
      if str.eq_ascii_nocase (who s fd).nickname nick then some fd else find_member nick members s

module _ {Io : Type 0} ⦃str : StrLib⦄ ⦃sock : SocketLib Io⦄ where
  -- if (!alreadyReported(reported, what)) sendReply(client, numeric, params);
  unfoldable pub report_once : ℕ → Bytes → Bytes → Bytes → Walk Io → Walk Io
  report_once fd what numeric params w = if already_reported w.reported what then w else record w {
    reported = w.reported ++ what ∷ [];
    server = send_reply fd numeric params w.server;
  }

  unfoldable pub report_missing : ℕ → Walk Io → Walk Io
  report_missing fd w =
      report_once fd (text "461") (text "461") (text "MODE :Not enough parameters") w

  unfoldable pub mode_key_on : ℕ → Walk Io → Walk Io
  mode_key_on fd w = elim w.args [
    | [] ↦ report_missing fd w
    | key ∷ args ↦
        if is_valid_channel_key key
        then apply_mode (set_key key) (change true b'k' key) args w
        else report_once fd (text "525:" ++ key) (text "525")
            (w.chan.name ++ text " :Key is not well-formed") (record w { args = args })
  ]

  -- `later` is the rest of the mode string: a spare parameter is taken for the old key.
  unfoldable pub mode_key_off : Bytes → Walk Io → Walk Io
  mode_key_off later w = elim w.args [
    | [] ↦ apply_mode (set_key []) (change false b'k' []) [] w
    | old ∷ args ↦
        if ltb (params_required false later) (length w.args)
        then apply_mode (set_key []) (change false b'k' old) args w
        else apply_mode (set_key []) (change false b'k' []) w.args w
  ]

  unfoldable pub mode_operator : ℕ → Walk Io → Walk Io
  mode_operator fd w = elim w.args [
    | [] ↦ report_missing fd w
    | nick ∷ args ↦ elim (find_member nick w.chan.members w.server) [
      | none ↦
          report_once fd (text "441:" ++ str.ascii_to_lower nick) (text "441")
            (nick ++ text " " ++ w.chan.name ++ text " :They aren't on that channel")
            (record w { args = args })
      | some target ↦
          apply_mode (set_operator target w.adding)
            (change w.adding b'o' (who w.server target).nickname) args w
    ]
  ]

  unfoldable pub mode_limit_on : ℕ → Walk Io → Walk Io
  mode_limit_on fd w = elim w.args [
    | [] ↦ report_missing fd w
    | limit_str ∷ args ↦ elim (str.parse_long limit_str 1 max_userlimit) [
      | none ↦
          report_once fd (text "696:" ++ limit_str) (text "696")
            (w.chan.name ++ text " l " ++ limit_str ++ text " :Invalid channel limit")
            (record w { args = args })
      | some limit ↦
          apply_mode (set_user_limit limit) (change true b'l' (str.to_string limit)) args w
    ]
  ]

  -- One letter of the mode string, with the rest of the string.
  unfoldable pub channel_mode_letter : ℕ → ℕ → Bytes → Walk Io → Walk Io
  channel_mode_letter fd c later w =
      if c == b'+'
      then record w { adding = true }
      else (if c == b'-'
          then record w { adding = false }
          else (if c == b'i'
              then apply_mode (set_invite_only w.adding) (change w.adding b'i' []) w.args w
              else (if c == b't'
                  then apply_mode (set_topic_restricted w.adding) (change w.adding b't' []) w.args w
                  else (if c == b'k'
                      then (if w.adding then mode_key_on fd w else mode_key_off later w)
                      else (if c == b'o'
                          then mode_operator fd w
                          else (if c == b'l'
                              then (if w.adding
                                  then mode_limit_on fd w
                                  else apply_mode (set_user_limit 0) (change false b'l' []) w.args
                                      w)
                              else report_once fd (text "472:" ++ c ∷ []) (text "472")
                                  (c ∷ text " :is unknown mode char to me") w))))))

  unfoldable pub channel_mode_loop : ℕ → Bytes → Walk Io → Walk Io
  channel_mode_loop fd [] w = w
  channel_mode_loop fd (c ∷ cs) w = channel_mode_loop fd cs (channel_mode_letter fd c cs w)

  unfoldable pub broadcast_lines : List ℕ → List Bytes → Server Io → Server Io
  broadcast_lines members [] s = s
  broadcast_lines members (line ∷ lines) s =
      broadcast_lines members lines (broadcast members line none s)

  -- The store of the channel and broadcastModeChanges, if a change was applied.
  unfoldable pub finish_modes : ℕ → Bytes → Walk Io → Server Io
  finish_modes fd key w =
      let stored = put_channel key w.chan w.server in
      let head = text ":" ++ prefix (who w.server fd) ++ text " MODE " ++ w.chan.name ++ text " " in
      if is_nil w.applied
      then stored
      else broadcast_lines w.chan.members (render_mode_lines head w.applied) stored

  abbrev start_walk : Channel → List Bytes → Server Io → Walk Io
  start_walk chan args s = record {
    adding = true;
    args = args;
    applied = [];
    reported = [];
    chan = chan;
    server = s;
  }

  unfoldable pub handle_channel_mode : ℕ → Bytes → Channel → Message → Server Io → Server Io
  handle_channel_mode fd key chan msg s =
      if not (is_member fd chan)
      then send_reply fd (text "442") (chan.name ++ text " :You're not on that channel") s
      else (if not (is_operator fd chan)
          then send_reply fd (text "482") (chan.name ++ text " :You're not channel operator") s
          else (if not (starts_with_sign (param msg 1))
              then s
              else finish_modes fd key
                  (channel_mode_loop fd (param msg 1) (start_walk chan (drop 2 msg.params) s))))
