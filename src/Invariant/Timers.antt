-- ===== src/Invariant/Timers.antt =====
-- src/Server.cpp: the timeouts, the output and the extensions' tick keep the invariant.
use ft_irc.Server.Quiet.{adjust_id, profiles_of-adjust, Quiet}
use ft_irc.Server.Store.{profiles, who, adjust_client}
use ft_irc.Server.{Server}
use ft_irc.Client.{clear_send_buffer, Profile}
use ft_irc.Libcpp.{StrLib, SocketLib}
use ft_irc.Prelude.{Map, nat_key, bytes_key, ℕ, refl, ap, ◌∙◌, not, ◌||◌, List, [], ◌∷◌, if_ind}
use ft_irc.Membership.{is_live}
use ft_irc.Extensions.Quiet.{notify_tick-Quiet}
use ft_irc.Lifecycle.{has_pending_data, is_sendq_exceeded}
use ft_irc.EventLoop.{mark_ping_sent, each_fd, handle_client_output, tick_extensions}
use ft_irc.Invariant.{Inv}
use ft_irc.Invariant.Edits.{Quiet-Inv}
use ft_irc.Invariant.Lifecycle.{finalize_disconnect-Inv, pending-dead, disconnect_client_now-Inv}
use ft_irc.Invariant.Registration.{Plain}
use ft_irc.Isolation.{Local}
use ft_irc.Isolation.Edits.{
  Local-trans, Local-refl, Local-Quiet, Local-finalize, disconnect_client_now-Local,
}

pub mark_ping_sent-Plain : Plain mark_ping_sent
unfolding mark_ping_sent
mark_ping_sent-Plain = record {
  nickname_kept = λ p. refl;
  password_kept = λ p. refl;
  registered_kept = λ p. refl;
  pass_sent_kept = λ p. refl;
  nick_set_kept = λ p. refl;
  user_set_kept = λ p h. h;
  pending_close_kept = λ p. refl;
  tearing_down_kept = λ p. refl;
}

module _ {Io : Type 0} ⦃str : StrLib⦄ ⦃sock : SocketLib Io⦄ where
  -- Whatever each call keeps, the loop keeps.
  pub each_fd_ind :
      (P : Server Io → Type 0) (act : ℕ → Server Io → Server Io)
      → ((fd : ℕ) (s : Server Io) → P s → P (act fd s))
      → (l : List ℕ) (s : Server Io) → P s
      → P (each_fd act l s)
  unfolding each_fd
  each_fd_ind P act h [] s p = p
  each_fd_ind P act h (fd ∷ l) s p = each_fd_ind P act h l (act fd s) (h fd s p)

  clear_send_buffer-Quiet :
      (fd sent : ℕ) (s : Server Io) → Quiet s (adjust_client fd (clear_send_buffer sent) s)
  unfolding adjust_client clear_send_buffer
  clear_send_buffer-Quiet fd sent s = record {
    same_profiles =
        profiles_of-adjust fd (clear_send_buffer sent) (λ p. p) s.clients (λ c. refl)
        ∙ adjust_id fd (profiles s);
    same_channels = refl;
    same_password = refl;
  }

  pub handle_client_output-Inv :
      (fd sent : ℕ) (s : Server Io) → Inv s → Inv (handle_client_output fd sent s)
  unfolding handle_client_output
  handle_client_output-Inv fd sent s v =
      let q = clear_send_buffer-Quiet fd sent s in
      let wrote = adjust_client fd (clear_send_buffer sent) s in
      if_ind Inv (not (has_pending_data fd s)) (λ _. v)
        λ _.
          if_ind Inv (who s fd).pending_close
            (λ closing.
              if_ind Inv (not (has_pending_data fd wrote) || is_sendq_exceeded fd wrote)
                (λ _.
                  finalize_disconnect-Inv fd wrote
                    (ap (λ (ps : Map ℕ Profile). is_live ps fd) q.same_profiles
                      ∙ pending-dead fd [] s v closing)
                    (Quiet-Inv q v))
                (λ _. Quiet-Inv q v))
            λ _.
              if_ind Inv (is_sendq_exceeded fd wrote)
                (λ _. disconnect_client_now-Inv fd _ wrote (Quiet-Inv q v)) (λ _. Quiet-Inv q v)

  pub handle_client_output-Local :
      (fd sent : ℕ) (s : Server Io) → Local fd s (handle_client_output fd sent s)
  unfolding handle_client_output
  handle_client_output-Local fd sent s =
      let q = Local-Quiet fd (clear_send_buffer-Quiet fd sent s) in
      let wrote = adjust_client fd (clear_send_buffer sent) s in
      if_ind (Local fd s) (not (has_pending_data fd s)) (λ _. Local-refl fd s)
        λ _.
          if_ind (Local fd s) (who s fd).pending_close
            (λ closing.
              if_ind (Local fd s) (not (has_pending_data fd wrote) || is_sendq_exceeded fd wrote)
                (λ _. Local-trans fd q (Local-finalize fd wrote)) (λ _. q))
            λ _.
              if_ind (Local fd s) (is_sendq_exceeded fd wrote)
                (λ _. Local-trans fd q (disconnect_client_now-Local fd _ wrote)) (λ _. q)

  pub tick_extensions-Quiet : (s : Server Io) → Quiet s (tick_extensions s)
  unfolding tick_extensions
  tick_extensions-Quiet s = notify_tick-Quiet s
