-- ===== src/Isolation/Register.antt =====
-- src/CommandRegistration.cpp: PASS, NICK and USER.
use ft_irc.Server.Quiet.{Quiet-trans, queue_to-Quiet, send_reply-Quiet, then_audit}
use ft_irc.Server.Store.{who, set_profile, is_nick_in_use, send_reply}
use ft_irc.Server.{Server}
use ft_irc.Message.{matched, param, Message}
use ft_irc.Validation.{is_valid_nickname, is_valid_username, cut}
use ft_irc.Limits.{max_nicklen, max_userlen}
use ft_irc.Libcpp.{StrLib, SocketLib}
use ft_irc.Prelude.{
  Bytes, text, ℕ, refl, false, not, ◌&&◌, ◌||◌, none, some, ltb, ◌==◌, if_ind, length, is_nil,
}
use ft_irc.Commands.Registration.{
  set_nickname, set_password, set_nick_set, set_registered, field_or_param, reserved_by_any,
  take_user, cmd_pass, complete_registration, take_nick, cmd_nick, cmd_user,
}
use ft_irc.Invariant.Lifecycle.{broadcast_to_channels-Quiet}
use ft_irc.Invariant.Register.{take_user-Plain, welcome-Quiet}
use ft_irc.Isolation.{Local}
use ft_irc.Isolation.Edits.{
  KeepsFlags, Local-trans, Local-Quiet, Local-set_profile, Local-Plain, disconnect_client-Local,
}

set_nickname-KeepsFlags : (nick : Bytes) → KeepsFlags (set_nickname nick)
unfolding set_nickname
set_nickname-KeepsFlags nick p = (refl, refl)

set_nick_set-KeepsFlags : KeepsFlags set_nick_set
unfolding set_nick_set
set_nick_set-KeepsFlags p = (refl, refl)

set_registered-KeepsFlags : KeepsFlags set_registered
unfolding set_registered
set_registered-KeepsFlags p = (refl, refl)

set_password-KeepsFlags : (password : Bytes) → KeepsFlags (set_password password)
unfolding set_password
set_password-KeepsFlags password p = (refl, refl)

module _ {Io : Type 0} ⦃str : StrLib⦄ ⦃sock : SocketLib Io⦄ (fd : ℕ) where
  reply-Local :
      (numeric params : Bytes) (s : Server Io) → Local fd s (send_reply fd numeric params s)
  reply-Local numeric params s = Local-Quiet fd (send_reply-Quiet fd numeric params s)

  pub complete_registration-Local : (s : Server Io) → Local fd s (complete_registration fd s)
  unfolding complete_registration
  complete_registration-Local s =
      if_ind (Local fd s)
        (not (who s fd).pass_sent || not (str.eq_consttime (who s fd).password s.password))
        (λ _. Local-trans fd (reply-Local _ _ s) (disconnect_client-Local fd _ _))
        λ ok.
          Local-trans fd (Local-set_profile fd set_registered s set_registered-KeepsFlags)
            (Local-Quiet fd (then_audit (welcome-Quiet fd _) _ _ _))

  pub cmd_pass-Local : (msg : Message) (s : Server Io) → Local fd s (cmd_pass fd msg s)
  unfolding cmd_pass
  cmd_pass-Local msg s =
      if_ind (Local fd s) (who s fd).registered (λ _. reply-Local _ _ s)
        λ _.
          if_ind (Local fd s) (is_nil msg.params) (λ _. reply-Local _ _ s)
            λ _. Local-set_profile fd _ s (set_password-KeepsFlags _)

  take_nick-Local : (nick : Bytes) (s : Server Io) → Local fd s (take_nick fd nick s)
  unfolding take_nick
  take_nick-Local nick s =
      let rename = λ (t : Server Io).
        Local-set_profile fd (set_nickname nick) t (set_nickname-KeepsFlags nick) in
      let named : Local fd s (set_profile fd set_nick_set (set_profile fd (set_nickname nick) s)) =
        Local-trans fd (rename s) (Local-set_profile fd set_nick_set _ set_nick_set-KeepsFlags) in
      if_ind (Local fd s) (who s fd).registered
        (λ _.
          Local-trans fd
            (Local-Quiet fd
              (Quiet-trans (queue_to-Quiet fd _ s) (broadcast_to_channels-Quiet fd _ _)))
            (rename _))
        λ _.
          if_ind (Local fd s) (who s fd).user_set
            (λ _. Local-trans fd named (complete_registration-Local _)) (λ _. named)

  pub cmd_nick-Local : (msg : Message) (s : Server Io) → Local fd s (cmd_nick fd msg s)
  unfolding cmd_nick
  cmd_nick-Local msg s =
      let nick = cut max_nicklen (field_or_param msg (text "newnick") 0) in
      if_ind (Local fd s) (is_nil msg.params) (λ _. reply-Local _ _ s)
        λ _.
          if_ind (Local fd s) (not (is_valid_nickname (field_or_param msg (text "newnick") 0)))
            (λ _. reply-Local _ _ s)
            λ _.
              if_ind (Local fd s) (is_nick_in_use s nick fd || reserved_by_any nick s.extensions)
                (λ _. reply-Local _ _ s) (λ _. take_nick-Local nick s)

  pub cmd_user-Local : (msg : Message) (s : Server Io) → Local fd s (cmd_user fd msg s)
  unfolding cmd_user
  cmd_user-Local msg s =
      let username = cut max_userlen (field_or_param msg (text "username") 0) in
      let realname = field_or_param msg (text "realname") 3 in
      let filled =
        Local-Plain fd (take_user username (param msg 1) realname) s
          (take_user-Plain username (param msg 1) realname) in
      if_ind (Local fd s) (who s fd).registered (λ _. reply-Local _ _ s)
        λ _.
          if_ind (Local fd s) (ltb (length msg.params) 4) (λ _. reply-Local _ _ s)
            λ _.
              if_ind (Local fd s)
                (not (matched msg)
                  && not (elim msg.trailing_index [ none ↦ false | some i ↦ i == 3 ]))
                (λ _. reply-Local _ _ s)
                λ _.
                  if_ind (Local fd s) (not (is_valid_username username)) (λ _. reply-Local _ _ s)
                    λ _.
                      if_ind (Local fd s) (who s fd).nick_set
                        (λ _. Local-trans fd filled (complete_registration-Local _)) (λ _. filled)
