-- ===== src/Invariant/Register.antt =====
-- src/CommandRegistration.cpp: PASS and completeRegistration keep the invariant.
use ft_irc.Server.Store.{profiles, who, set_profile}
use ft_irc.Server.{Server}
use ft_irc.Message.{Message}
use ft_irc.Client.{Profile}
use ft_irc.Libcpp.{StrLib, SocketLib}
use ft_irc.Prelude.{
  Bytes, text, nat_key, bytes_key, ℕ, ◌≡◌, refl, ◌∙◌, true, not, ◌||◌, arith, if_ind, is_nil,
}
use ft_irc.Prelude.Maps.Laws.{lookup-adjust}
use ft_irc.Server.Quiet.{send_reply-Quiet, then_reply, then_audit, Quiet}
use ft_irc.Membership.{is_live}
use ft_irc.Membership.Lifecycle.{is_live-adjust}
use ft_irc.Commands.Registration.{
  set_password, set_registered, field_or_param, apply_user_mode_bitmask, take_user, cmd_pass,
  welcome, complete_registration,
}
use ft_irc.Invariant.{ProfileOk, Inv}
use ft_irc.Invariant.Edits.{Quiet-Inv, adjust-UniqueNicks, set_profile-Inv}
use ft_irc.Invariant.Lifecycle.{disconnect_client-Inv}
use ft_irc.Invariant.Registration.{who-lookup, Plain}

module _ ⦃str : StrLib⦄ where
  registered-ok :
      (password : Bytes) (p : Profile)
      → p.pass_sent ≡ true
      → str.eq_consttime p.password password ≡ true
      → p.nick_set ≡ true
      → p.user_set ≡ true
      → ProfileOk password p
      → ProfileOk password (set_registered p)
  unfolding set_registered
  registered-ok password p sent same named known ok = record {
    closing = ok.closing;
    passed = λ _. sent;
    authenticated = λ _. same;
    has_nick = λ _. named;
    has_user = λ _. known;
    nick_valid = ok.nick_valid;
    nick_short = ok.nick_short;
  }

  pub take_user-Plain :
      (username modes realname : Bytes) → Plain (take_user username modes realname)
  unfolding take_user apply_user_mode_bitmask
  take_user-Plain username modes realname = record {
    nickname_kept = λ p. ground arith;
    password_kept = λ p. ground arith;
    registered_kept = λ p. ground arith;
    pass_sent_kept = λ p. ground arith;
    nick_set_kept = λ p. ground arith;
    user_set_kept = λ p h. refl;
    pending_close_kept = λ p. ground arith;
    tearing_down_kept = λ p. ground arith;
  }

  pub user_set-take_user :
      (username modes realname : Bytes) (p : Profile)
      → (take_user username modes realname p).user_set ≡ true
  unfolding take_user
  user_set-take_user username modes realname p = refl

module _ {Io : Type 0} ⦃str : StrLib⦄ ⦃sock : SocketLib Io⦄ where
  pub welcome-Quiet : (fd : ℕ) (s : Server Io) → Quiet s (welcome fd s)
  unfolding welcome
  welcome-Quiet fd s =
      then_reply
        (then_reply
          (then_reply (then_reply (then_reply (send_reply-Quiet fd _ _ s) fd _ _) fd _ _) fd _ _) fd
          _ _)
        fd _ _

  set_registered-Inv :
      (fd : ℕ) (s : Server Io)
      → (who s fd).pass_sent ≡ true
      → str.eq_consttime (who s fd).password s.password ≡ true
      → (who s fd).nick_set ≡ true
      → (who s fd).user_set ≡ true
      → Inv s
      → Inv (set_profile fd set_registered s)
  unfolding set_registered is_live
  set_registered-Inv fd s sent same named known v =
      set_profile-Inv fd set_registered s
        (λ p e ok.
          let w = who-lookup s fd e in
          registered-ok s.password p (rw (← w) sent) (rw (← w) same) (rw (← w) named)
            (rw (← w) known) ok)
        (λ g e. ground (arith, lookup-adjust g fd set_registered (profiles s)))
        (adjust-UniqueNicks fd set_registered (profiles s) (λ p. refl) (λ p h. h) v.unique) v

  pub complete_registration-Inv :
      (fd : ℕ) (s : Server Io)
      → (who s fd).nick_set ≡ true
      → (who s fd).user_set ≡ true
      → Inv s
      → Inv (complete_registration fd s)
  unfolding complete_registration
  complete_registration-Inv fd s named known v =
      if_ind Inv (not (who s fd).pass_sent || not (str.eq_consttime (who s fd).password s.password))
        (λ _. disconnect_client-Inv fd _ _ (Quiet-Inv (send_reply-Quiet fd _ _ s) v))
        λ ok.
          Quiet-Inv (then_audit (welcome-Quiet fd _) _ _ _)
            (set_registered-Inv fd s (ground arith) (ground arith) named known v)

  pub cmd_pass-Inv : (fd : ℕ) (msg : Message) (s : Server Io) → Inv s → Inv (cmd_pass fd msg s)
  unfolding cmd_pass set_password
  cmd_pass-Inv fd msg s v =
      if_ind Inv (who s fd).registered (λ _. Quiet-Inv (send_reply-Quiet fd _ _ s) v)
        λ fresh.
          if_ind Inv (is_nil msg.params) (λ _. Quiet-Inv (send_reply-Quiet fd _ _ s) v)
            λ _.
              let password = field_or_param msg (text "password") 0 in
              set_profile-Inv fd (set_password password) s
                (λ p e ok.
                  let unregistered = rw (who-lookup s fd e) at fresh in
                  record {
                    closing = ok.closing;
                    passed = λ _. refl;
                    authenticated = λ r. cc;
                    has_nick = ok.has_nick;
                    has_user = ok.has_user;
                    nick_valid = ok.nick_valid;
                    nick_short = ok.nick_short;
                  })
                (λ g e.
                  is_live-adjust fd (set_password password) g (profiles s) (λ p. (refl, refl)) ∙ e)
                (adjust-UniqueNicks fd (set_password password) (profiles s) (λ p. refl) (λ p h. h)
                  v.unique)
                v
