-- ===== src/Invariant/Modes.antt =====
-- src/CommandOperator.cpp: MODE keeps the invariant, on a channel and on the client itself.
use ft_irc.Server.Store.{who}
use ft_irc.Server.{Server}
use ft_irc.Message.{param, Message}
use ft_irc.Libcpp.{StrLib, SocketLib}
use ft_irc.Prelude.{
  Bytes, text, ℕ, refl, Bool, true, not, ◌||◌, [], ◌∷◌, ◌++◌, ◌==◌, if_ind, length, get_or, is_nil,
}
use ft_irc.Server.Quiet.{send_reply-Quiet, queue_lines-Quiet}
use ft_irc.Membership.Operator.{channel_mode-Tame}
use ft_irc.Commands.ModeLines.{already_reported, starts_with_sign}
use ft_irc.Commands.UserModes.{
  set_invisible, set_wallops, apply_user_mode, user_mode_letter, user_mode_loop, finish_user_modes,
  handle_user_mode, UserWalk,
}
use ft_irc.Commands.Operator.{cmd_mode}
use ft_irc.Invariant.{Inv}
use ft_irc.Invariant.Edits.{Tame-Inv, Quiet-Inv}
use ft_irc.Invariant.Registration.{Plain-Inv, Plain}

pub set_invisible-Plain : (on : Bool) → Plain (set_invisible on)
unfolding set_invisible
set_invisible-Plain on = record {
  nickname_kept = λ p. refl;
  password_kept = λ p. refl;
  registered_kept = λ p. refl;
  pass_sent_kept = λ p. refl;
  nick_set_kept = λ p. refl;
  user_set_kept = λ p h. h;
  pending_close_kept = λ p. refl;
  tearing_down_kept = λ p. refl;
}

pub set_wallops-Plain : (on : Bool) → Plain (set_wallops on)
unfolding set_wallops
set_wallops-Plain on = record {
  nickname_kept = λ p. refl;
  password_kept = λ p. refl;
  registered_kept = λ p. refl;
  pass_sent_kept = λ p. refl;
  nick_set_kept = λ p. refl;
  user_set_kept = λ p h. h;
  pending_close_kept = λ p. refl;
  tearing_down_kept = λ p. refl;
}

module _ {Io : Type 0} ⦃str : StrLib⦄ ⦃sock : SocketLib Io⦄ (fd : ℕ) where
  user_mode_letter-Inv :
      (c : ℕ) (w : UserWalk Io) → Inv w.server → Inv (user_mode_letter fd c w).server
  unfolding user_mode_letter apply_user_mode
  user_mode_letter-Inv c w v =
      if_ind (λ (u : UserWalk Io). Inv u.server) (c == b'+') (λ _. v)
        λ _.
          if_ind (λ (u : UserWalk Io). Inv u.server) (c == b'-') (λ _. v)
            λ _.
              if_ind (λ (u : UserWalk Io). Inv u.server) (c == b'i')
                (λ _.
                  Plain-Inv fd (set_invisible w.adding) w.server (set_invisible-Plain w.adding) v)
                λ _.
                  if_ind (λ (u : UserWalk Io). Inv u.server) (c == b'w')
                    (λ _.
                      Plain-Inv fd (set_wallops w.adding) w.server (set_wallops-Plain w.adding) v)
                    λ _.
                      if_ind (λ (u : UserWalk Io). Inv u.server)
                        (already_reported w.reported (text "501:" ++ c ∷ [])) (λ _. v)
                        (λ _. Quiet-Inv (send_reply-Quiet fd _ _ w.server) v)

  user_mode_loop-Inv :
      (cs : Bytes) (w : UserWalk Io) → Inv w.server → Inv (user_mode_loop fd cs w).server
  unfolding user_mode_loop
  user_mode_loop-Inv [] w v = v
  user_mode_loop-Inv (c ∷ cs) w v =
      user_mode_loop-Inv cs (user_mode_letter fd c w) (user_mode_letter-Inv c w v)

  handle_user_mode-Inv : (msg : Message) (s : Server Io) → Inv s → Inv (handle_user_mode fd msg s)
  unfolding handle_user_mode finish_user_modes
  handle_user_mode-Inv msg s v =
      if_ind Inv (not (str.eq_ascii_nocase (param msg 0) (who s fd).nickname))
        (λ _. Quiet-Inv (send_reply-Quiet fd _ _ s) v)
        λ _.
          if_ind Inv (length msg.params == 1) (λ _. Quiet-Inv (send_reply-Quiet fd _ _ s) v)
            λ _.
              if_ind Inv (not (starts_with_sign (param msg 1))) (λ _. v)
                λ _.
                  let start : UserWalk Io = record {
                    adding = true;
                    applied = [];
                    reported = [];
                    server = s;
                  } in
                  let w = user_mode_loop fd (param msg 1) start in
                  let done = user_mode_loop-Inv (param msg 1) start v in
                  if_ind Inv (is_nil w.applied) (λ _. done)
                    (λ _. Quiet-Inv (queue_lines-Quiet fd _ w.server) done)

  pub cmd_mode-Inv : (msg : Message) (s : Server Io) → Inv s → Inv (cmd_mode fd msg s)
  unfolding cmd_mode
  cmd_mode-Inv msg s v =
      if_ind Inv (is_nil msg.params || is_nil (param msg 0))
        (λ _. Quiet-Inv (send_reply-Quiet fd _ _ s) v)
        λ _.
          if_ind Inv (get_or (param msg 0) 0 0 == b'#')
            (λ _. Tame-Inv (channel_mode-Tame fd msg s) v) (λ _. handle_user_mode-Inv msg s v)
