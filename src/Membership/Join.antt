-- ===== src/Membership/Join.antt =====
-- src/CommandChannel.cpp: JOIN and PART keep the channel table well-formed.
use ft_irc.Prelude.{
  Bytes, text, bytes_eq, nat_key, bytes_key, ℕ, ◌≡◌, ◌∙◌, true, not, ◌&&◌, none, some, List, [],
  ◌∷◌, ◌++◌, ltb, leb, if_ind, Option_ind, length, is_nil,
}
use ft_irc.Libcpp.{StrLib, SocketLib}
use ft_irc.Channel.{add_member, is_member, is_invited, remove_invite, new_channel, Channel}
use ft_irc.Message.{matched, has, Message}
use ft_irc.Validation.{is_valid_channel_name}
use ft_irc.Server.{Server}
use ft_irc.Server.Store.{profiles, send_reply}
use ft_irc.Server.Channels.{put_channel, channel_key, find_channel}
use ft_irc.Server.Quiet.{
  Quiet-refl, Quiet-trans, send_reply-Quiet, broadcast-Quiet, then_reply, then_audit,
  find_channel-Quiet, Quiet,
}
use ft_irc.Commands.Channels.{
  reply_topic, reply_modes, reply_each, reply_names, joined, join_one, join_each, part, part_one,
  part_each, leave_each, part_all_channels, cmd_join, cmd_part,
}
use ft_irc.Membership.{is_live, TableOk, ChannelOk}
use ft_irc.Membership.Edits.{add_member-ChannelOk, remove_invite-ChannelOk, new_channel-ChannelOk}
use ft_irc.Membership.Tame.{
  Quiet-Tame, Tame-refl, Tame-trans, put_channel-Tame, leave_channel-Tame, find_channel-ChannelOk,
  Tame,
}

module _ {Io : Type 0} ⦃str : StrLib⦄ ⦃sock : SocketLib Io⦄ where
  reply_topic-Quiet :
      (fd : ℕ) (name : Bytes) (c : Channel) (s : Server Io) → Quiet s (reply_topic fd name c s)
  unfolding reply_topic
  reply_topic-Quiet fd name c s =
      if_ind (Quiet s) (not (is_nil c.topic)) (λ _. then_reply (send_reply-Quiet fd _ _ s) fd _ _)
        (λ _. send_reply-Quiet fd _ _ s)

  pub reply_modes-Quiet :
      (fd : ℕ) (name : Bytes) (c : Channel) (s : Server Io) → Quiet s (reply_modes fd name c s)
  unfolding reply_modes
  reply_modes-Quiet fd name c s = then_reply (send_reply-Quiet fd _ _ s) fd _ _

  reply_each-Quiet :
      (fd : ℕ) (numeric head : Bytes) (chunks : List Bytes) (s : Server Io)
      → Quiet s (reply_each fd numeric head chunks s)
  unfolding reply_each
  reply_each-Quiet fd numeric head [] s = Quiet-refl s
  reply_each-Quiet fd numeric head (chunk ∷ chunks) s =
      Quiet-trans (send_reply-Quiet fd numeric (head ++ chunk) s)
        (reply_each-Quiet fd numeric head chunks (send_reply fd numeric (head ++ chunk) s))

  reply_names-Quiet :
      (fd : ℕ) (name : Bytes) (c : Channel) (s : Server Io) → Quiet s (reply_names fd name c s)
  unfolding reply_names
  reply_names-Quiet fd name c s = then_reply (reply_each-Quiet fd _ _ _ s) fd _ _

  -- What the client is sent after the channel is stored.
  pub joined-Quiet :
      (fd : ℕ) (name : Bytes) (c : Channel) (s : Server Io)
      → Quiet (put_channel (channel_key name) c s) (joined fd name c s)
  unfolding joined
  joined-Quiet fd name c s =
      Quiet-trans
        (Quiet-trans
          (Quiet-trans (then_audit (broadcast-Quiet c.members _ none _) _ _ _)
            (reply_topic-Quiet fd name c _))
          (reply_names-Quiet fd name c _))
        (reply_modes-Quiet fd name c _)

  joined-Tame :
      (fd : ℕ) (name : Bytes) (c : Channel) (s : Server Io)
      → (TableOk (is_live (profiles s)) s.channels
          → ChannelOk (is_live (profiles s)) (channel_key name) c)
      → Tame s (joined fd name c s)
  joined-Tame fd name c s h =
      Tame-trans (put_channel-Tame (channel_key name) c s h) (Quiet-Tame (joined-Quiet fd name c s))

  pub join_one-Tame :
      (fd : ℕ) (name key : Bytes) (s : Server Io)
      → is_live (profiles s) fd ≡ true
      → Tame s (join_one fd name key s)
  unfolding join_one
  join_one-Tame fd name key s live =
      if_ind (Tame s) (not (is_valid_channel_name name))
        (λ _. Quiet-Tame (send_reply-Quiet fd _ _ s))
        λ _.
          Option_ind (Tame s) (find_channel s name)
            (λ _.
              joined-Tame fd name (new_channel name fd s.clock) s
                (λ _. new_channel-ChannelOk (is_live (profiles s)) name fd s.clock live))
            λ c found.
              if_ind (Tame s) (is_member fd c) (λ _. Tame-refl s)
                λ _.
                  if_ind (Tame s) (c.invite_only && not (is_invited fd c))
                    (λ _. Quiet-Tame (send_reply-Quiet fd _ _ s))
                    λ _.
                      if_ind (Tame s) (not (is_nil c.key) && not (bytes_eq c.key key))
                        (λ _. Quiet-Tame (send_reply-Quiet fd _ _ s))
                        λ _.
                          if_ind (Tame s)
                            (ltb 0 c.user_limit && leb c.user_limit (length c.members))
                            (λ _. Quiet-Tame (send_reply-Quiet fd _ _ s))
                            λ _. joined-Tame fd name (remove_invite fd (add_member fd c)) s λ t.
                              remove_invite-ChannelOk
                                (add_member-ChannelOk (find_channel-ChannelOk s name found t) fd
                                  live)
                                fd

  join_each-Tame :
      (fd : ℕ) (names keys : List Bytes) (s : Server Io)
      → is_live (profiles s) fd ≡ true
      → Tame s (join_each fd names keys s)
  unfolding join_each
  join_each-Tame fd [] keys s live = Tame-refl s
  join_each-Tame fd (name ∷ names) [] s live =
      let one = join_one-Tame fd name [] s live in
      Tame-trans one
        (join_each-Tame fd names [] (join_one fd name [] s) (rw one.profiles_kept live))
  join_each-Tame fd (name ∷ names) (key ∷ keys) s live =
      let one = join_one-Tame fd name key s live in
      Tame-trans one
        (join_each-Tame fd names keys (join_one fd name key s) (rw one.profiles_kept live))

  part-Tame :
      (fd : ℕ) (name reason : Bytes) (c : Channel) (s : Server Io)
      → find_channel s name ≡ some c
      → Tame s (part fd name reason c s)
  unfolding part
  part-Tame fd name reason c s found =
      let q = then_audit (broadcast-Quiet c.members _ none s) _ _ _ in
      Tame-trans (Quiet-Tame q) (
        leave_channel-Tame (channel_key name) c fd _
          (λ t. find_channel-ChannelOk _ name (find_channel-Quiet name q ∙ found) t))

  part_one-Tame :
      (fd : ℕ) (reason name : Bytes) (s : Server Io) → Tame s (part_one fd reason name s)
  unfolding part_one
  part_one-Tame fd reason name s =
      Option_ind (Tame s) (find_channel s name) (λ _. Quiet-Tame (send_reply-Quiet fd _ _ s))
        λ c found.
          if_ind (Tame s) (not (is_member fd c)) (λ _. Quiet-Tame (send_reply-Quiet fd _ _ s))
            (λ _. part-Tame fd name reason c s found)

  part_each-Tame :
      (fd : ℕ) (reason : Bytes) (names : List Bytes) (s : Server Io)
      → Tame s (part_each fd reason names s)
  unfolding part_each
  part_each-Tame fd reason [] s = Tame-refl s
  part_each-Tame fd reason (name ∷ names) s =
      Tame-trans (part_one-Tame fd reason name s)
        (part_each-Tame fd reason names (part_one fd reason name s))

  leave_each-Tame : (fd : ℕ) (keys : List Bytes) (s : Server Io) → Tame s (leave_each fd keys s)
  unfolding leave_each
  leave_each-Tame fd [] s = Tame-refl s
  leave_each-Tame fd (key ∷ keys) s =
      Tame-trans
        (Option_ind (Tame s) (find_channel s key) (λ _. Tame-refl s)
          (λ c found. part-Tame fd key [] c s found))
        (leave_each-Tame fd keys
          (elim (find_channel s key) [ none ↦ s | some chan ↦ part fd key [] chan s ]))

  pub cmd_join-Tame :
      (fd : ℕ) (msg : Message) (s : Server Io)
      → is_live (profiles s) fd ≡ true
      → Tame s (cmd_join fd msg s)
  unfolding cmd_join part_all_channels
  cmd_join-Tame fd msg s live =
      if_ind (Tame s) (not (matched msg)) (λ _. Quiet-Tame (send_reply-Quiet fd _ _ s))
        λ _.
          if_ind (Tame s) (not (has msg (text "chanlist"))) (λ _. leave_each-Tame fd _ s)
            (λ _. join_each-Tame fd _ _ s live)

  pub cmd_part-Tame : (fd : ℕ) (msg : Message) (s : Server Io) → Tame s (cmd_part fd msg s)
  unfolding cmd_part
  cmd_part-Tame fd msg s =
      if_ind (Tame s) (not (matched msg)) (λ _. Quiet-Tame (send_reply-Quiet fd _ _ s))
        (λ _. part_each-Tame fd _ _ s)
