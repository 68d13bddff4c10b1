-- ===== src/Authority/Unregistered.antt =====
-- src/Server.cpp and src/CommandRegistration.cpp: an unregistered client and the channels.
use ft_irc.Server.Quiet.{queue_to-Quiet, send_reply-Quiet, then_audit}
use ft_irc.Server.Store.{profiles, who, adjust_client, set_profile, is_nick_in_use, send_reply}
use ft_irc.Server.{Server}
use ft_irc.Message.{matched, param, Message}
use ft_irc.Client.{Profile}
use ft_irc.Limits.{max_nicklen, max_userlen}
use ft_irc.Libcpp.{StrLib, SocketLib}
use ft_irc.Validation.{is_valid_nickname, is_valid_username, cut}
use ft_irc.Prelude.{
  Bytes, text, bytes_eq, nat_key, bytes_key, ℕ, ◌≡◌, refl, ◌∙◌, false, not, ◌&&◌, ◌||◌, none, some,
  arith, ltb, ◌==◌, if_ind, Option_ind, length, is_nil,
}
use ft_irc.Membership.{is_live}
use ft_irc.Membership.Forgotten.{AllForget, TableOk-AllForget}
use ft_irc.Commands.Registration.{
  set_nickname, set_nick_set, set_registered, field_or_param, reserved_by_any, take_user, cmd_cap,
  cmd_pass, complete_registration, take_nick, cmd_nick, cmd_user,
}
use ft_irc.Commands.Messaging.{cmd_pong, cmd_quit}
use ft_irc.Dispatch.{find_command, run_handler, dispatch_command, Command}
use ft_irc.Invariant.{Inv}
use ft_irc.Invariant.Lifecycle.{is_live-who}
use ft_irc.Invariant.Register.{welcome-Quiet}
use ft_irc.Invariant.Dispatch.{is_gated, find_command-gated}
use ft_irc.Authority.Departed.{disconnect_client-kept}

module _ {Io : Type 0} ⦃str : StrLib⦄ ⦃sock : SocketLib Io⦄ (fd : ℕ) where
  pub set_profile-kept :
      (f : Profile → Profile) (s : Server Io) → (set_profile fd f s).channels ≡ s.channels
  unfolding set_profile adjust_client
  set_profile-kept f s = refl

  pub reply-kept :
      (numeric params : Bytes) (s : Server Io)
      → (send_reply fd numeric params s).channels ≡ s.channels
  reply-kept numeric params s = (send_reply-Quiet fd numeric params s).same_channels

  complete_registration-kept :
      (s : Server Io) → AllForget fd s.channels → (complete_registration fd s).channels ≡ s.channels
  unfolding complete_registration
  complete_registration-kept s h =
      let told = send_reply fd (text "464") (text ":Password incorrect") s in
      if_ind (λ (t : Server Io). t.channels ≡ s.channels)
        (not (who s fd).pass_sent || not (str.eq_consttime (who s fd).password s.password))
        (λ _.
          disconnect_client-kept fd (text "Password mismatch") told (rw (reply-kept _ _ s) h)
          ∙ reply-kept _ _ s)
        (λ _.
          (then_audit (welcome-Quiet fd _) _ _ _).same_channels ∙ set_profile-kept set_registered s)

module _ {Io : Type 0} ⦃str : StrLib⦄ ⦃sock : SocketLib Io⦄ (fd : ℕ) (msg : Message) (s : Server Io)
    (fresh : (who s fd).registered ≡ false) (h : AllForget fd s.channels) where
  cmd_cap-kept : (cmd_cap fd msg s).channels ≡ s.channels
  unfolding cmd_cap
  cmd_cap-kept =
      let P = λ (t : Server Io). t.channels ≡ s.channels in
      if_ind P (is_nil msg.params) (λ _. refl)
        λ _.
          if_ind P (bytes_eq (str.to_upper (param msg 0)) (text "LS"))
            (λ _. (queue_to-Quiet fd _ s).same_channels) (λ _. refl)

  cmd_pass-kept : (cmd_pass fd msg s).channels ≡ s.channels
  unfolding cmd_pass
  cmd_pass-kept =
      let P = λ (t : Server Io). t.channels ≡ s.channels in
      if_ind P (who s fd).registered (λ _. reply-kept fd _ _ s)
        λ _. if_ind P (is_nil msg.params) (λ _. reply-kept fd _ _ s) (λ _. set_profile-kept fd _ s)

  take_nick-kept : (wanted : Bytes) → (take_nick fd wanted s).channels ≡ s.channels
  unfolding take_nick
  take_nick-kept wanted =
      let P = λ (t : Server Io). t.channels ≡ s.channels in
      let named = set_profile fd set_nick_set (set_profile fd (set_nickname wanted) s) in
      let same : named.channels ≡ s.channels =
        set_profile-kept fd set_nick_set _ ∙ set_profile-kept fd (set_nickname wanted) s in
      if_ind P (who s fd).registered (λ known. cc)
        λ _.
          if_ind P (who s fd).user_set (λ _. complete_registration-kept fd named (rw same h) ∙ same)
            (λ _. same)

  cmd_nick-kept : (cmd_nick fd msg s).channels ≡ s.channels
  unfolding cmd_nick
  cmd_nick-kept =
      let P = λ (t : Server Io). t.channels ≡ s.channels in
      let wanted = field_or_param msg (text "newnick") 0 in
      if_ind P (is_nil msg.params) (λ _. reply-kept fd _ _ s)
        λ _.
          if_ind P (not (is_valid_nickname wanted)) (λ _. reply-kept fd _ _ s)
            λ _.
              if_ind P
                (is_nick_in_use s (cut max_nicklen wanted) fd
                  || reserved_by_any (cut max_nicklen wanted) s.extensions)
                (λ _. reply-kept fd _ _ s) (λ _. take_nick-kept (cut max_nicklen wanted))

  cmd_user-kept : (cmd_user fd msg s).channels ≡ s.channels
  unfolding cmd_user
  cmd_user-kept =
      let P = λ (t : Server Io). t.channels ≡ s.channels in
      let username = cut max_userlen (field_or_param msg (text "username") 0) in
      let f = take_user username (param msg 1) (field_or_param msg (text "realname") 3) in
      let same = set_profile-kept fd f s in
      if_ind P (who s fd).registered (λ _. reply-kept fd _ _ s)
        λ _.
          if_ind P (ltb (length msg.params) 4) (λ _. reply-kept fd _ _ s)
            λ _.
              if_ind P
                (not (matched msg)
                  && not (elim msg.trailing_index [ none ↦ false | some i ↦ i == 3 ]))
                (λ _. reply-kept fd _ _ s)
                λ _.
                  if_ind P (not (is_valid_username username)) (λ _. reply-kept fd _ _ s)
                    λ _.
                      if_ind P (who s fd).nick_set
                        (λ _. complete_registration-kept fd (set_profile fd f s) (rw same h) ∙ same)
                        (λ _. same)

  run_handler-kept :
      (c : Command) → is_gated c ≡ false → (run_handler c fd msg s).channels ≡ s.channels
  unfolding run_handler cmd_pong cmd_quit
  run_handler-kept Command.cap e = cmd_cap-kept
  run_handler-kept Command.pass e = cmd_pass-kept
  run_handler-kept Command.nick e = cmd_nick-kept
  run_handler-kept Command.user e = cmd_user-kept
  run_handler-kept Command.quit e = disconnect_client-kept fd _ s h
  run_handler-kept Command.pong e = set_profile-kept fd _ s
  run_handler-kept Command.ping e = cc
  run_handler-kept Command.join e = cc
  run_handler-kept Command.part e = cc
  run_handler-kept Command.privmsg e = cc
  run_handler-kept Command.notice e = cc
  run_handler-kept Command.kick e = cc
  run_handler-kept Command.invite e = cc
  run_handler-kept Command.topic e = cc
  run_handler-kept Command.mode e = cc
  run_handler-kept Command.who e = cc
  run_handler-kept Command.whois e = cc
  run_handler-kept Command.userhost e = cc

module _ {Io : Type 0} ⦃str : StrLib⦄ ⦃sock : SocketLib Io⦄ (fd : ℕ) (msg : Message)
    (s : Server Io) where
  -- Where the server satisfies its invariant, a client that is not registered changes no
  -- channel, whatever it sends; nor does the message that registers it, or that ends its
  -- connection.
  pub dispatch_command-kept :
      Inv s → (who s fd).registered ≡ false → (dispatch_command fd msg s).channels ≡ s.channels
  unfolding dispatch_command
  dispatch_command-kept v fresh =
      let P = λ (t : Server Io). t.channels ≡ s.channels in
      let dead : is_live (profiles s) fd ≡ false = is_live-who s fd ∙ ground (arith, fresh) in
      let h = TableOk-AllForget fd (is_live (profiles s)) dead s.channels v.table in
      Option_ind P (find_command msg.command)
        (λ _. if_ind P (who s fd).registered (λ known. cc) (λ _. reply-kept fd _ _ s))
        λ e found.
          if_ind P (e.needs_registration && not (who s fd).registered) (λ _. reply-kept fd _ _ s)
            λ allowed.
              run_handler-kept fd msg s fresh h e.handler
                (ground (arith, find_command-gated msg.command found))
