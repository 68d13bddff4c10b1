-- ===== src/Isolation/Dispatch.antt =====
-- src/Server.cpp: a message of one client leaves the others' own state alone.
use ft_irc.Server.Quiet.{queue_to-Quiet, send_reply-Quiet, queue_lines-Quiet, then_reply}
use ft_irc.Server.Store.{profiles, who}
use ft_irc.Server.{Server}
use ft_irc.Message.{param, Message}
use ft_irc.Libcpp.{StrLib, SocketLib}
use ft_irc.Prelude.{
  Bytes, text, bytes_eq, ℕ, ◌≡◌, refl, true, false, not, ◌&&◌, ◌||◌, [], ◌∷◌, ◌++◌, arith, ◌==◌,
  if_ind, Option_ind, length, get_or, is_nil,
}
use ft_irc.Membership.{is_live}
use ft_irc.Membership.Join.{cmd_join-Tame, cmd_part-Tame}
use ft_irc.Membership.Operator.{cmd_kick-Tame, cmd_invite-Tame, cmd_topic-Tame, channel_mode-Tame}
use ft_irc.Extensions.{on_command, ask_extensions}
use ft_irc.Extensions.Quiet.{ask_command-Quiet}
use ft_irc.Commands.ModeLines.{already_reported, starts_with_sign}
use ft_irc.Commands.UserModes.{
  apply_user_mode, user_mode_letter, user_mode_loop, finish_user_modes, handle_user_mode, UserWalk,
}
use ft_irc.Commands.Operator.{cmd_mode}
use ft_irc.Commands.Registration.{cmd_cap}
use ft_irc.Commands.Messaging.{seen_alive, cmd_pong, cmd_quit}
use ft_irc.Commands.Messaging.Quiet.{cmd_privmsg-Quiet, cmd_notice-Quiet, cmd_ping-Quiet}
use ft_irc.Commands.Query.Quiet.{cmd_who-Quiet, cmd_whois-Quiet, cmd_userhost-Quiet}
use ft_irc.Dispatch.{find_command, run_handler, extension_command, dispatch_command, Command}
use ft_irc.Invariant.{Inv}
use ft_irc.Invariant.Lifecycle.{is_live-who}
use ft_irc.Invariant.Modes.{set_invisible-Plain, set_wallops-Plain}
use ft_irc.Invariant.Dispatch.{is_gated, find_command-gated, seen_alive-Plain}
use ft_irc.Isolation.{Local}
use ft_irc.Isolation.Edits.{
  Local-trans, Local-refl, Local-Quiet, Local-Plain, Local-Tame, disconnect_client-Local,
}
use ft_irc.Isolation.Register.{cmd_pass-Local, cmd_nick-Local, cmd_user-Local}

module _ {Io : Type 0} ⦃str : StrLib⦄ ⦃sock : SocketLib Io⦄ (fd : ℕ) where
  user_mode_letter-Local :
      (c : ℕ) (s : Server Io) (w : UserWalk Io)
      → Local fd s w.server
      → Local fd s (user_mode_letter fd c w).server
  unfolding user_mode_letter apply_user_mode
  user_mode_letter-Local c s w h =
      let P = λ (u : UserWalk Io). Local fd s u.server in
      if_ind P (c == b'+') (λ _. h)
        λ _.
          if_ind P (c == b'-') (λ _. h)
            λ _.
              if_ind P (c == b'i')
                (λ _. Local-trans fd h (Local-Plain fd _ w.server (set_invisible-Plain w.adding)))
                λ _.
                  if_ind P (c == b'w')
                    (λ _. Local-trans fd h (Local-Plain fd _ w.server (set_wallops-Plain w.adding)))
                    λ _.
                      if_ind P (already_reported w.reported (text "501:" ++ c ∷ [])) (λ _. h)
                        (λ _. Local-trans fd h (Local-Quiet fd (send_reply-Quiet fd _ _ w.server)))

  user_mode_loop-Local :
      (cs : Bytes) (s : Server Io) (w : UserWalk Io)
      → Local fd s w.server
      → Local fd s (user_mode_loop fd cs w).server
  unfolding user_mode_loop
  user_mode_loop-Local [] s w h = h
  user_mode_loop-Local (c ∷ cs) s w h =
      user_mode_loop-Local cs s (user_mode_letter fd c w) (user_mode_letter-Local c s w h)

  handle_user_mode-Local : (msg : Message) (s : Server Io) → Local fd s (handle_user_mode fd msg s)
  unfolding handle_user_mode finish_user_modes
  handle_user_mode-Local msg s =
      let reply =
        λ (numeric params : Bytes). Local-Quiet fd (send_reply-Quiet fd numeric params s) in
      if_ind (Local fd s) (not (str.eq_ascii_nocase (param msg 0) (who s fd).nickname))
        (λ _. reply _ _)
        λ _.
          if_ind (Local fd s) (length msg.params == 1) (λ _. reply _ _)
            λ _.
              if_ind (Local fd s) (not (starts_with_sign (param msg 1))) (λ _. Local-refl fd s)
                λ _.
                  let start : UserWalk Io = record {
                    adding = true;
                    applied = [];
                    reported = [];
                    server = s;
                  } in
                  let w = user_mode_loop fd (param msg 1) start in
                  let done = user_mode_loop-Local (param msg 1) s start (Local-refl fd s) in
                  if_ind (Local fd s) (is_nil w.applied) (λ _. done)
                    (λ _. Local-trans fd done (Local-Quiet fd (queue_lines-Quiet fd _ w.server)))

  cmd_mode-Local : (msg : Message) (s : Server Io) → Local fd s (cmd_mode fd msg s)
  unfolding cmd_mode
  cmd_mode-Local msg s =
      if_ind (Local fd s) (is_nil msg.params || is_nil (param msg 0))
        (λ _. Local-Quiet fd (send_reply-Quiet fd _ _ s))
        λ _.
          if_ind (Local fd s) (get_or (param msg 0) 0 0 == b'#')
            (λ _. Local-Tame fd (channel_mode-Tame fd msg s)) (λ _. handle_user_mode-Local msg s)

module _ {Io : Type 0} ⦃str : StrLib⦄ ⦃sock : SocketLib Io⦄ (fd : ℕ) (msg : Message) (s : Server Io)
    (v : Inv s) where
  cmd_cap-Local : Local fd s (cmd_cap fd msg s)
  unfolding cmd_cap
  cmd_cap-Local =
      if_ind (Local fd s) (is_nil msg.params) (λ _. Local-refl fd s)
        λ _.
          if_ind (Local fd s) (bytes_eq (str.to_upper (param msg 0)) (text "LS"))
            (λ _. Local-Quiet fd (queue_to-Quiet fd _ s)) (λ _. Local-refl fd s)

  cmd_pong-Local : Local fd s (cmd_pong fd msg s)
  unfolding cmd_pong
  cmd_pong-Local = Local-Plain fd (seen_alive s.clock) s (seen_alive-Plain s.clock)

  cmd_quit-Local : Local fd s (cmd_quit fd msg s)
  unfolding cmd_quit
  cmd_quit-Local = disconnect_client-Local fd _ s

  run_handler-Local :
      (c : Command)
      → (is_gated c ≡ true → is_live (profiles s) fd ≡ true)
      → Local fd s (run_handler c fd msg s)
  unfolding run_handler
  run_handler-Local Command.cap live = cmd_cap-Local
  run_handler-Local Command.pass live = cmd_pass-Local fd msg s
  run_handler-Local Command.nick live = cmd_nick-Local fd msg s
  run_handler-Local Command.user live = cmd_user-Local fd msg s
  run_handler-Local Command.quit live = cmd_quit-Local
  run_handler-Local Command.pong live = cmd_pong-Local
  run_handler-Local Command.ping live = Local-Quiet fd (cmd_ping-Quiet fd msg s)
  run_handler-Local Command.join live = Local-Tame fd (cmd_join-Tame fd msg s (live refl))
  run_handler-Local Command.part live = Local-Tame fd (cmd_part-Tame fd msg s)
  run_handler-Local Command.privmsg live = Local-Quiet fd (cmd_privmsg-Quiet fd msg s)
  run_handler-Local Command.notice live = Local-Quiet fd (cmd_notice-Quiet fd msg s)
  run_handler-Local Command.kick live = Local-Tame fd (cmd_kick-Tame fd msg s)
  run_handler-Local Command.invite live = Local-Tame fd (cmd_invite-Tame fd msg s v.distinct)
  run_handler-Local Command.topic live = Local-Tame fd (cmd_topic-Tame fd msg s)
  run_handler-Local Command.mode live = cmd_mode-Local fd msg s
  run_handler-Local Command.who live = Local-Quiet fd (cmd_who-Quiet fd msg s)
  run_handler-Local Command.whois live = Local-Quiet fd (cmd_whois-Quiet fd msg s)
  run_handler-Local Command.userhost live = Local-Quiet fd (cmd_userhost-Quiet fd msg s)

  extension_command-Local : Local fd s (extension_command fd msg s)
  unfolding extension_command
  extension_command-Local =
      let q = ask_command-Quiet fd msg s in
      if_ind (Local fd s) (ask_extensions (on_command fd msg) s).1 (λ _. Local-Quiet fd q)
        (λ _. Local-Quiet fd (then_reply q fd _ _))

  -- Where the server satisfies its invariant, a message of a client that is not being torn down
  -- leaves every other client's own state as it was, and tears its sender down only together
  -- with marking it as closing, unless the sender is deleted.
  pub dispatch_command-Local :
      (who s fd).tearing_down ≡ false → Local fd s (dispatch_command fd msg s)
  unfolding dispatch_command
  dispatch_command-Local up =
      Option_ind (Local fd s) (find_command msg.command)
        (λ _.
          if_ind (Local fd s) (who s fd).registered (λ _. extension_command-Local)
            (λ _. Local-Quiet fd (send_reply-Quiet fd _ _ s)))
        λ e found.
          if_ind (Local fd s) (e.needs_registration && not (who s fd).registered)
            (λ _. Local-Quiet fd (send_reply-Quiet fd _ _ s))
            λ allowed.
              run_handler-Local e.handler
                (λ gated. ground (arith, is_live-who s fd, find_command-gated msg.command found))
