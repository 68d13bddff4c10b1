-- ===== src/Commands/Channels.antt =====
-- src/CommandChannel.cpp: JOIN and PART. No extension does anything on a join or a part.
use ft_irc.Prelude.{
  Bytes, text, bytes_eq, Map, nat_key, bytes_key, ℕ, ◌+◌, ◌-◌, not, ◌&&◌, none, some, List, [], ◌∷◌,
  ◌++◌, map, ltb, leb, if◌then◌else◌, length, is_nil,
}
use ft_irc.Limits.{max_msglen, server_name}
use ft_irc.Libcpp.{StrLib, SocketLib}
use ft_irc.Client.{prefix}
use ft_irc.Channel.{
  add_member, is_member, is_invited, remove_invite, new_channel, mode_string, mode_params, Channel,
}
use ft_irc.Channel.Names.{names_entry, names_chunks}
use ft_irc.Message.{matched, has, field, list, list_keep_empty, Message}
use ft_irc.Server.{Server}
use ft_irc.Server.Store.{who, audit, send_reply, broadcast}
use ft_irc.Server.Channels.{put_channel, leave_channel, channel_key, find_channel}
use ft_irc.Validation.{is_valid_channel_name}

-- The number of bytes that RPL_NAMREPLY leaves for the names.
unfoldable pub names_budget : Bytes → Bytes → ℕ
names_budget nick head =
    let framing = 1 + length server_name + 1 + 3 + 1 + length nick + 1 + length head in
    if ltb (framing + 1) (max_msglen - 2) then max_msglen - 2 - framing else 1

-- The keys of the channels that the client is in.
unfoldable pub keys_of_member : ℕ → Map Bytes Channel → List Bytes
keys_of_member fd [] = []
keys_of_member fd ((key, c) ∷ m) =
    if is_member fd c then key ∷ keys_of_member fd m else keys_of_member fd m

module _ {Io : Type 0} ⦃str : StrLib⦄ ⦃sock : SocketLib Io⦄ where
  unfoldable pub reply_topic : ℕ → Bytes → Channel → Server Io → Server Io
  reply_topic fd name chan s =
      if not (is_nil chan.topic)
      then send_reply fd (text "333")
          (name ++ text " " ++ chan.topic_setter ++ text " " ++ str.to_string chan.topic_time)
          (send_reply fd (text "332") (name ++ text " :" ++ chan.topic) s)
      else send_reply fd (text "331") (name ++ text " :No topic is set") s

  unfoldable pub reply_modes : ℕ → Bytes → Channel → Server Io → Server Io
  reply_modes fd name chan s =
      let args = mode_params chan in
      send_reply fd (text "329") (name ++ text " " ++ str.to_string chan.creation_time) (
        send_reply fd (text "324")
          (name
            ++ text " "
            ++ mode_string chan
            ++ (if not (is_nil args) then text " " ++ args else []))
          s)

  unfoldable pub reply_each : ℕ → Bytes → Bytes → List Bytes → Server Io → Server Io
  reply_each fd numeric head [] s = s
  reply_each fd numeric head (chunk ∷ chunks) s =
      reply_each fd numeric head chunks (send_reply fd numeric (head ++ chunk) s)

  unfoldable pub reply_names : ℕ → Bytes → Channel → Server Io → Server Io
  reply_names fd name chan s =
      let head = text "= " ++ name ++ text " :" in
      let entries =
        map (λ m. names_entry chan.operators (λ f. (who s f).nickname) m) chan.members in
      send_reply fd (text "366") (name ++ text " :End of /NAMES list") (
        reply_each fd (text "353") head
          (names_chunks (names_budget (who s fd).nickname head) entries) s)

  -- What follows once the client is in the channel.
  unfoldable pub joined : ℕ → Bytes → Channel → Server Io → Server Io
  joined fd name chan s =
      let stored = put_channel (channel_key name) chan s in
      let told =
        broadcast chan.members (text ":" ++ prefix (who s fd) ++ text " JOIN " ++ chan.name) none
          stored in
      reply_modes fd name chan (
        reply_names fd name chan
          (reply_topic fd name chan (audit (text "join") (who s fd).nickname name told)))

  -- One round of the loop of cmdJoin.
  unfoldable pub join_one : ℕ → Bytes → Bytes → Server Io → Server Io
  join_one fd name key s =
      if not (is_valid_channel_name name)
      then send_reply fd (text "476") (name ++ text " :Bad Channel Mask") s
      else elim (find_channel s name) [
        | none ↦ joined fd name (new_channel name fd s.clock) s
        | some chan ↦
            if is_member fd chan
            then s
            else (if chan.invite_only && not (is_invited fd chan)
                then send_reply fd (text "473") (name ++ text " :Cannot join channel (+i)") s
                else (if not (is_nil chan.key) && not (bytes_eq chan.key key)
                    then send_reply fd (text "475") (name ++ text " :Cannot join channel (+k)") s
                    else (if ltb 0 chan.user_limit && leb chan.user_limit (length chan.members)
                        then send_reply fd (text "471") (name ++ text " :Cannot join channel (+l)")
                            s
                        else joined fd name (remove_invite fd (add_member fd chan)) s)))
      ]

  -- The i-th channel is joined with the i-th key, or with none.
  unfoldable pub join_each : ℕ → List Bytes → List Bytes → Server Io → Server Io
  join_each fd [] keys s = s
  join_each fd (name ∷ names) [] s = join_each fd names [] (join_one fd name [] s)
  join_each fd (name ∷ names) (key ∷ keys) s = join_each fd names keys (join_one fd name key s)

  -- A client that is a member leaves the channel, and the others are told.
  unfoldable pub part : ℕ → Bytes → Bytes → Channel → Server Io → Server Io
  part fd name reason chan s =
      let line =
        text ":"
        ++ prefix (who s fd)
        ++ text " PART "
        ++ chan.name
        ++ (if is_nil reason then [] else text " :" ++ reason) in
      leave_channel (channel_key name) chan fd
        (audit (text "part") (who s fd).nickname name (broadcast chan.members line none s))

  unfoldable pub part_one : ℕ → Bytes → Bytes → Server Io → Server Io
  part_one fd reason name s = elim (find_channel s name) [
    | none ↦ send_reply fd (text "403") (name ++ text " :No such channel") s
    | some chan ↦
        if not (is_member fd chan)
        then send_reply fd (text "442") (name ++ text " :You're not on that channel") s
        else part fd name reason chan s
  ]

  unfoldable pub part_each : ℕ → Bytes → List Bytes → Server Io → Server Io
  part_each fd reason [] s = s
  part_each fd reason (name ∷ names) s = part_each fd reason names (part_one fd reason name s)

  unfoldable pub leave_each : ℕ → List Bytes → Server Io → Server Io
  leave_each fd [] s = s
  leave_each fd (key ∷ keys) s =
      leave_each fd keys
        (elim (find_channel s key) [ none ↦ s | some chan ↦ part fd key [] chan s ])

  unfoldable pub part_all_channels : ℕ → Server Io → Server Io
  part_all_channels fd s = leave_each fd (keys_of_member fd s.channels) s

  unfoldable pub cmd_join : ℕ → Message → Server Io → Server Io
  cmd_join fd msg s =
      if not (matched msg)
      then send_reply fd (text "461") (text "JOIN :Not enough parameters") s
      else (if not (has msg (text "chanlist"))
          then part_all_channels fd s
          else join_each fd (list msg (text "chanlist") b',')
              (list_keep_empty msg (text "keylist") b',') s)

  unfoldable pub cmd_part : ℕ → Message → Server Io → Server Io
  cmd_part fd msg s =
      if not (matched msg)
      then send_reply fd (text "461") (text "PART :Not enough parameters") s
      else part_each fd (field msg (text "partmsg")) (list msg (text "chanlist") b',') s
