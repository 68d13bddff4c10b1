-- ===== src/Membership/Operator.antt =====
-- src/CommandOperator.cpp: KICK, INVITE, TOPIC and the channel's MODE keep the table well-formed.
use ft_irc.Commands.Channels.{reply_modes}
use ft_irc.Membership.Modes.{handle_channel_mode-Tame}
use ft_irc.Membership.Join.{reply_modes-Quiet}
use ft_irc.Commands.Modes.{find_member, handle_channel_mode}
use ft_irc.Server.{Server}
use ft_irc.Channel.{is_member, is_operator, add_invite}
use ft_irc.Message.{matched, field, param, Message}
use ft_irc.Server.Channels.{channel_key, find_channel}
use ft_irc.Server.Quiet.{
  send_reply-Quiet, broadcast-Quiet, then_reply, then_queue, find_channel-Quiet,
}
use ft_irc.Membership.Edits.{add_invite-ChannelOk, set_topic-ChannelOk}
use ft_irc.Membership.Tame.{
  Quiet-Tame, Tame-trans, put_channel-Tame, leave_channel-Tame, find_channel-ChannelOk, Tame,
}
use ft_irc.Commands.Operator.{
  no_such_channel, not_on_channel, not_operator, kick, cmd_kick, invite, cmd_invite, change_topic,
  show_topic, cmd_topic,
}
use ft_irc.Membership.{is_live}
use ft_irc.Prelude.Maps.Laws.{Distinct, lookup-none}
use ft_irc.Prelude.{
  Bytes, text, Map, nat_key, bytes_key, lookup, ℕ, ◌≡◌, ◌∙◌, true, not, ◌&&◌, ◌||◌, none, some, [],
  ◌∷◌, arith, ◌==◌, if◌then◌else◌, if_ind, Option_ind, length, is_nil,
}
use ft_irc.Libcpp.{StrLib, SocketLib}
use ft_irc.Client.{Profile}
use ft_irc.Server.Store.{profiles, find_by_nick, find_client_by_nick}

module _ ⦃str : StrLib⦄ where
  -- Whom findClientByNick finds is live.
  find_by_nick-is_live :
      (nick : Bytes) (m : Map ℕ Profile) {t : ℕ}
      → Distinct m
      → find_by_nick nick m ≡ some t
      → is_live m t ≡ true
  unfolding find_by_nick is_live lookup
  find_by_nick-is_live nick [] d e = cc
  find_by_nick-is_live nick ((fd, p) ∷ m) {t} d e =
      ground (arith, find_by_nick-is_live nick m {t = t}, d.1, lookup-none fd m)

module _ {Io : Type 0} ⦃str : StrLib⦄ ⦃sock : SocketLib Io⦄ where
  pub cmd_kick-Tame : (fd : ℕ) (msg : Message) (s : Server Io) → Tame s (cmd_kick fd msg s)
  unfolding cmd_kick no_such_channel not_on_channel not_operator kick
  cmd_kick-Tame fd msg s =
      let name = field msg (text "kickchans") in
      if_ind (Tame s) (not (matched msg)) (λ _. Quiet-Tame (send_reply-Quiet fd _ _ s))
        λ _.
          Option_ind (Tame s) (find_channel s name) (λ _. Quiet-Tame (send_reply-Quiet fd _ _ s))
            λ c found.
              if_ind (Tame s) (not (is_member fd c)) (λ _. Quiet-Tame (send_reply-Quiet fd _ _ s))
                λ _.
                  if_ind (Tame s) (not (is_operator fd c))
                    (λ _. Quiet-Tame (send_reply-Quiet fd _ _ s))
                    λ _.
                      Option_ind (Tame s) (find_member (field msg (text "kickusers")) c.members s)
                        (λ _. Quiet-Tame (send_reply-Quiet fd _ _ s))
                        λ t _.
                          let q = broadcast-Quiet c.members _ none s in
                          Tame-trans (Quiet-Tame q) (
                            leave_channel-Tame (channel_key name) c t _
                              (find_channel-ChannelOk _ name (find_channel-Quiet name q ∙ found)))

  pub cmd_invite-Tame :
      (fd : ℕ) (msg : Message) (s : Server Io)
      → Distinct (profiles s)
      → Tame s (cmd_invite fd msg s)
  unfolding cmd_invite no_such_channel not_on_channel not_operator invite find_client_by_nick
  cmd_invite-Tame fd msg s d =
      let name = field msg (text "invchan") in
      if_ind (Tame s) (not (matched msg)) (λ _. Quiet-Tame (send_reply-Quiet fd _ _ s))
        λ _.
          Option_ind (Tame s) (find_channel s name) (λ _. Quiet-Tame (send_reply-Quiet fd _ _ s))
            λ c found.
              if_ind (Tame s) (not (is_member fd c)) (λ _. Quiet-Tame (send_reply-Quiet fd _ _ s))
                λ _.
                  if_ind (Tame s) (c.invite_only && not (is_operator fd c))
                    (λ _. Quiet-Tame (send_reply-Quiet fd _ _ s))
                    λ _.
                      Option_ind (Tame s) (find_by_nick (field msg (text "invnick")) (profiles s))
                        (λ _. Quiet-Tame (send_reply-Quiet fd _ _ s))
                        λ t there.
                          if_ind (Tame s) (is_member t c)
                            (λ _. Quiet-Tame (send_reply-Quiet fd _ _ s))
                            λ _.
                              Tame-trans
                                (put_channel-Tame (channel_key name) (add_invite t c) s λ ok.
                                  add_invite-ChannelOk (find_channel-ChannelOk s name found ok) t (
                                    find_by_nick-is_live (field msg (text "invnick")) (profiles s) d
                                      there))
                                (Quiet-Tame (then_queue (send_reply-Quiet fd _ _ _) t _))

  pub cmd_topic-Tame : (fd : ℕ) (msg : Message) (s : Server Io) → Tame s (cmd_topic fd msg s)
  unfolding cmd_topic no_such_channel not_on_channel not_operator show_topic change_topic
  cmd_topic-Tame fd msg s =
      let name = param msg 0 in
      if_ind (Tame s) (is_nil msg.params || is_nil name)
        (λ _. Quiet-Tame (send_reply-Quiet fd _ _ s))
        λ _.
          Option_ind (Tame s) (find_channel s name) (λ _. Quiet-Tame (send_reply-Quiet fd _ _ s))
            λ c found.
              if_ind (Tame s) (not (is_member fd c)) (λ _. Quiet-Tame (send_reply-Quiet fd _ _ s))
                λ _.
                  if_ind (Tame s) (length msg.params == 1)
                    (λ _.
                      if_ind (Tame s) (is_nil c.topic) (λ _. Quiet-Tame (send_reply-Quiet fd _ _ s))
                        (λ _. Quiet-Tame (then_reply (send_reply-Quiet fd _ _ s) fd _ _)))
                    λ _.
                      if_ind (Tame s) (c.topic_restricted && not (is_operator fd c))
                        (λ _. Quiet-Tame (send_reply-Quiet fd _ _ s))
                        λ _.
                          Tame-trans
                            (put_channel-Tame (channel_key name) _ s (λ ok.
                              set_topic-ChannelOk (find_channel-ChannelOk s name found ok) _ _ _))
                            (Quiet-Tame (broadcast-Quiet c.members _ none _))

  -- The channel's side of MODE.
  pub channel_mode-Tame :
      (fd : ℕ) (msg : Message) (s : Server Io)
      → Tame s (elim (find_channel s (param msg 0)) [
        | none ↦ no_such_channel fd (param msg 0) s
        | some chan ↦
            if length msg.params == 1
            then (if is_member fd chan
                then reply_modes fd (param msg 0) chan s
                else not_on_channel fd (param msg 0) s)
            else handle_channel_mode fd (channel_key (param msg 0)) chan msg s
      ])
  unfolding no_such_channel not_on_channel
  channel_mode-Tame fd msg s =
      Option_ind (Tame s) (find_channel s (param msg 0))
        (λ _. Quiet-Tame (send_reply-Quiet fd _ _ s))
        λ c found.
          if_ind (Tame s) (length msg.params == 1)
            (λ _.
              if_ind (Tame s) (is_member fd c) (λ _. Quiet-Tame (reply_modes-Quiet fd _ c s))
                (λ _. Quiet-Tame (send_reply-Quiet fd _ _ s)))
            (λ _. handle_channel_mode-Tame fd (param msg 0) c msg s found)
