-- ===== src/Authority/Operators.antt =====
-- src/CommandOperator.cpp: what a client that is no channel operator cannot do.
use ft_irc.Server.Quiet.{send_reply-Quiet, queue_lines-Quiet, then_reply}
use ft_irc.Server.Store.{who}
use ft_irc.Server.Channels.{find_channel}
use ft_irc.Server.{Server}
use ft_irc.Channel.{is_member, is_operator, Channel}
use ft_irc.Message.{matched, field, param, Message}
use ft_irc.Libcpp.{StrLib, SocketLib}
use ft_irc.Prelude.{
  Bytes, text, ℕ, ◌≡◌, refl, ◌∙◌, true, false, not, ◌&&◌, ◌||◌, some, [], ◌∷◌, ◌++◌, arith, ◌==◌,
  if_ind, Option_ind, length, get_or, is_nil,
}
use ft_irc.Membership.Join.{reply_modes-Quiet}
use ft_irc.Commands.ModeLines.{already_reported, starts_with_sign}
use ft_irc.Commands.Modes.{handle_channel_mode}
use ft_irc.Commands.Operator.{
  no_such_channel, not_on_channel, not_operator, cmd_kick, show_topic, cmd_topic, cmd_mode,
}
use ft_irc.Commands.UserModes.{
  apply_user_mode, user_mode_letter, user_mode_loop, finish_user_modes, handle_user_mode, UserWalk,
}
use ft_irc.Authority.Unregistered.{set_profile-kept, reply-kept}

-- The client is no operator of the channel of that name, if there is one.
abbrev pub IsNoOperator : {Io : Type 0} → ⦃str : StrLib⦄ → ℕ → Bytes → Server Io → Type 0
IsNoOperator fd name s = (c : Channel) → find_channel s name ≡ some c → is_operator fd c ≡ false

module _ {Io : Type 0} ⦃str : StrLib⦄ ⦃sock : SocketLib Io⦄ (fd : ℕ) (msg : Message)
    (s : Server Io) where
  -- A KICK of a client that is no operator of the channel that it names changes no channel.
  pub cmd_kick-kept :
      IsNoOperator fd (field msg (text "kickchans")) s → (cmd_kick fd msg s).channels ≡ s.channels
  unfolding cmd_kick no_such_channel not_on_channel not_operator
  cmd_kick-kept h =
      let P = λ (t : Server Io). t.channels ≡ s.channels in
      if_ind P (not (matched msg)) (λ _. reply-kept fd _ _ s)
        λ _.
          Option_ind P (find_channel s (field msg (text "kickchans"))) (λ _. reply-kept fd _ _ s)
            λ c found.
              if_ind P (not (is_member fd c)) (λ _. reply-kept fd _ _ s)
                λ _.
                  if_ind P (not (is_operator fd c)) (λ _. reply-kept fd _ _ s)
                    (λ op. absurd (ground (arith, op, h c found)))

  -- A TOPIC of a client that is no operator of the channel that it names changes no channel,
  -- where that channel, if it exists, has its topic restricted.
  pub cmd_topic-kept :
      ((c : Channel)
        → find_channel s (param msg 0) ≡ some c
        → (c.topic_restricted ≡ true) × (is_operator fd c ≡ false))
      → (cmd_topic fd msg s).channels ≡ s.channels
  unfolding cmd_topic no_such_channel not_on_channel not_operator show_topic
  cmd_topic-kept h =
      let P = λ (t : Server Io). t.channels ≡ s.channels in
      if_ind P (is_nil msg.params || is_nil (param msg 0)) (λ _. reply-kept fd _ _ s)
        λ _.
          Option_ind P (find_channel s (param msg 0)) (λ _. reply-kept fd _ _ s)
            λ c found.
              if_ind P (not (is_member fd c)) (λ _. reply-kept fd _ _ s)
                λ _.
                  if_ind P (length msg.params == 1)
                    (λ _.
                      if_ind P (is_nil c.topic) (λ _. reply-kept fd _ _ s)
                        (λ _. (then_reply (send_reply-Quiet fd _ _ s) fd _ _).same_channels))
                    λ _.
                      if_ind P (c.topic_restricted && not (is_operator fd c))
                        (λ _. reply-kept fd _ _ s) (λ op. absurd (ground (arith, op, h c found)))

  user_mode_letter-kept :
      (c : ℕ) (w : UserWalk Io) → (user_mode_letter fd c w).server.channels ≡ w.server.channels
  unfolding user_mode_letter apply_user_mode
  user_mode_letter-kept c w =
      let P = λ (u : UserWalk Io). u.server.channels ≡ w.server.channels in
      if_ind P (c == b'+') (λ _. refl)
        λ _.
          if_ind P (c == b'-') (λ _. refl)
            λ _.
              if_ind P (c == b'i') (λ _. set_profile-kept fd _ w.server)
                λ _.
                  if_ind P (c == b'w') (λ _. set_profile-kept fd _ w.server)
                    λ _.
                      if_ind P (already_reported w.reported (text "501:" ++ c ∷ [])) (λ _. refl)
                        (λ _. reply-kept fd _ _ w.server)

  user_mode_loop-kept :
      (cs : Bytes) (w : UserWalk Io) → (user_mode_loop fd cs w).server.channels ≡ w.server.channels
  unfolding user_mode_loop
  user_mode_loop-kept [] w = refl
  user_mode_loop-kept (c ∷ cs) w =
      user_mode_loop-kept cs (user_mode_letter fd c w) ∙ user_mode_letter-kept c w

  handle_user_mode-kept : (handle_user_mode fd msg s).channels ≡ s.channels
  unfolding handle_user_mode finish_user_modes
  handle_user_mode-kept =
      let P = λ (t : Server Io). t.channels ≡ s.channels in
      if_ind P (not (str.eq_ascii_nocase (param msg 0) (who s fd).nickname))
        (λ _. reply-kept fd _ _ s)
        λ _.
          if_ind P (length msg.params == 1) (λ _. reply-kept fd _ _ s)
            λ _.
              if_ind P (not (starts_with_sign (param msg 1))) (λ _. refl)
                λ _.
                  let start : UserWalk Io = record {
                    adding = true;
                    applied = [];
                    reported = [];
                    server = s;
                  } in
                  let w = user_mode_loop fd (param msg 1) start in
                  let same = user_mode_loop-kept (param msg 1) start in
                  if_ind P (is_nil w.applied) (λ _. same)
                    (λ _. (queue_lines-Quiet fd _ w.server).same_channels ∙ same)

  -- A MODE of a client that is no operator of the channel that it names changes no channel; nor
  -- does one for a client's own modes.
  pub cmd_mode-kept : IsNoOperator fd (param msg 0) s → (cmd_mode fd msg s).channels ≡ s.channels
  unfolding cmd_mode handle_channel_mode no_such_channel not_on_channel
  cmd_mode-kept h =
      let P = λ (t : Server Io). t.channels ≡ s.channels in
      if_ind P (is_nil msg.params || is_nil (param msg 0)) (λ _. reply-kept fd _ _ s)
        λ _.
          if_ind P (get_or (param msg 0) 0 0 == b'#')
            (λ _.
              Option_ind P (find_channel s (param msg 0)) (λ _. reply-kept fd _ _ s)
                λ c found.
                  if_ind P (length msg.params == 1)
                    (λ _.
                      if_ind P (is_member fd c)
                        (λ _. (reply_modes-Quiet fd (param msg 0) c s).same_channels)
                        (λ _. reply-kept fd _ _ s))
                    λ _.
                      if_ind P (not (is_member fd c)) (λ _. reply-kept fd _ _ s)
                        λ _.
                          if_ind P (not (is_operator fd c)) (λ _. reply-kept fd _ _ s)
                            (λ op. absurd (ground (arith, op, h c found))))
            (λ _. handle_user_mode-kept)
