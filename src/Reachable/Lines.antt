-- ===== src/Reachable/Lines.antt =====
-- src/Server.cpp: what a client sends keeps the server sound, whatever it is.
use ft_irc.Invariant.Registration.{who-set_profile, who-set_profile-none, Plain-Inv}
use ft_irc.Invariant.Edits.{Quiet-Inv}
use ft_irc.Server.Quiet.{profiles_of-adjust, who-Quiet, Quiet}
use ft_irc.Server.Store.{blank, profiles, who, adjust_client, set_who, set_profile}
use ft_irc.Server.{Server}
use ft_irc.Message.{Message}
use ft_irc.Client.{new_profile, append_to_recv_buffer, extract_messages, Profile}
use ft_irc.Libcpp.{StrLib, StrLaws, SocketLib}
use ft_irc.Prelude.{
  Bytes, nat_key, bytes_key, lookup, has_key, ℕ, ◌≡◌, refl, sym, ap, ◌∙◌, inl, inr, false, not,
  ◌||◌, Option, List, [], ◌∷◌, Bool-cases, if_ind, ||_false, Option_ind, is_nil,
}
use ft_irc.Lifecycle.{is_sendq_exceeded}
use ft_irc.EventLoop.{handle_message, handle_lines, receive, handle_client_input}
use ft_irc.Commands.Messaging.{seen_alive}
use ft_irc.Invariant.{Inv}
use ft_irc.Invariant.Lifecycle.{who-cases, disconnect_client_now-Inv}
use ft_irc.Invariant.Dispatch.{seen_alive-Plain, dispatch_command-Inv}
use ft_irc.Isolation.{SettledAt, Local}
use ft_irc.Isolation.Edits.{
  Local-trans, Local-refl, Local-Quiet, Local-Plain, disconnect_client_now-Local,
}
use ft_irc.Isolation.Dispatch.{dispatch_command-Local}

module _ {Io : Type 0} ⦃str : StrLib⦄ ⦃sock : SocketLib Io⦄ (laws : StrLaws str)
    (parse : Bytes → Option Message) (fd : ℕ) where
  handle_message-Inv :
      (raw : Bytes) (s : Server Io)
      → (who s fd).tearing_down ≡ false
      → Inv s
      → Inv (handle_message parse fd raw s)
  unfolding handle_message
  handle_message-Inv raw s up v =
      Option_ind Inv (parse raw) (λ _. v)
        λ msg _.
          if_ind Inv (is_nil msg.command) (λ _. v) (λ _. dispatch_command-Inv laws fd msg s v up)

  handle_message-Local :
      (raw : Bytes) (s : Server Io)
      → (who s fd).tearing_down ≡ false
      → Inv s
      → Local fd s (handle_message parse fd raw s)
  unfolding handle_message
  handle_message-Local raw s up v =
      Option_ind (Local fd s) (parse raw) (λ _. Local-refl fd s)
        λ msg _.
          if_ind (Local fd s) (is_nil msg.command) (λ _. Local-refl fd s)
            (λ _. dispatch_command-Local fd msg s v up)

  -- A settled client that is not being closed is not torn down.
  pub settled-up :
      (s : Server Io)
      → SettledAt fd (profiles s)
      → (who s fd).pending_close ≡ false
      → (who s fd).tearing_down ≡ false
  unfolding blank new_profile
  settled-up s h staying = elim (who-cases s fd) [
    | inl e ↦ elim (Bool-cases (who s fd).tearing_down) [
      | inl torn ↦ cc (h (who s fd) e torn)
      | inr up ↦ up
    ]
    | inr e ↦ ap (λ (p : Profile). p.tearing_down) e.1
  ]

  pub handle_lines-Inv :
      (lines : List Bytes) (s : Server Io)
      → (who s fd).tearing_down ≡ false
      → SettledAt fd (profiles s)
      → Inv s
      → Inv (handle_lines parse fd lines s)
  unfolding handle_lines
  handle_lines-Inv [] s up settled v =
      if_ind Inv (is_sendq_exceeded fd s) (λ _. disconnect_client_now-Inv fd _ s v) (λ _. v)
  handle_lines-Inv (raw ∷ lines) s up settled v =
      let after = handle_message parse fd raw s in
      let v' = handle_message-Inv raw s up v in
      let settled' = (handle_message-Local raw s up v).settles settled in
      if_ind Inv (not (has_key fd after.clients) || (who after fd).pending_close) (λ _. v')
        λ staying.
          handle_lines-Inv lines after (settled-up after settled' (||_false _ _ staying).1) settled'
            v'

  pub handle_lines-Local :
      (lines : List Bytes) (s : Server Io)
      → (who s fd).tearing_down ≡ false
      → SettledAt fd (profiles s)
      → Inv s
      → Local fd s (handle_lines parse fd lines s)
  unfolding handle_lines
  handle_lines-Local [] s up settled v =
      if_ind (Local fd s) (is_sendq_exceeded fd s) (λ _. disconnect_client_now-Local fd _ s)
        (λ _. Local-refl fd s)
  handle_lines-Local (raw ∷ lines) s up settled v =
      let after = handle_message parse fd raw s in
      let v' = handle_message-Inv raw s up v in
      let step = handle_message-Local raw s up v in
      let settled' = step.settles settled in
      if_ind (Local fd s) (not (has_key fd after.clients) || (who after fd).pending_close)
        (λ _. step)
        λ staying. Local-trans fd step (
          handle_lines-Local lines after (settled-up after settled' (||_false _ _ staying).1)
            settled' v')

  -- What is received is stored, and the client is seen to be alive.
  stored-Quiet :
      (input : Bytes) (s : Server Io)
      → Quiet
          (set_profile fd (seen_alive s.clock) s)
          (adjust_client fd (λ c. (extract_messages (receive s.clock input c)).1) s)
  unfolding adjust_client set_profile receive append_to_recv_buffer extract_messages
  stored-Quiet input s = record {
    same_profiles =
        profiles_of-adjust fd (λ c. (extract_messages (receive s.clock input c)).1)
          (seen_alive s.clock) s.clients (λ c. refl)
        ∙ sym (
            profiles_of-adjust fd (set_who (seen_alive s.clock)) (seen_alive s.clock) s.clients
              (λ c. refl));
    same_channels = refl;
    same_password = refl;
  }

module _ {Io : Type 0} ⦃str : StrLib⦄ ⦃sock : SocketLib Io⦄ (laws : StrLaws str)
    (parse : Bytes → Option Message) (fd : ℕ) (input : Bytes) (s : Server Io)
    (up : (who s fd).tearing_down ≡ false) (settled : SettledAt fd (profiles s)) (v : Inv s) where
  stored : Server Io
  stored = adjust_client fd (λ c. (extract_messages (receive s.clock input c)).1) s

  stored-Inv : Inv stored
  unfolding stored
  stored-Inv =
      Quiet-Inv (stored-Quiet laws parse fd input s)
        (Plain-Inv fd (seen_alive s.clock) s (seen_alive-Plain s.clock) v)

  stored-Local : Local fd s stored
  unfolding stored
  stored-Local =
      Local-trans fd (Local-Plain fd (seen_alive s.clock) s (seen_alive-Plain s.clock))
        (Local-Quiet fd (stored-Quiet laws parse fd input s))

  stored-up : (who stored fd).tearing_down ≡ false
  unfolding stored seen_alive blank new_profile
  stored-up =
      let f = seen_alive s.clock in
      let same = who-Quiet fd (stored-Quiet laws parse fd input s) in
      elim (who-cases s fd) [
        | inl e ↦ ap (λ (p : Profile). p.tearing_down) (same ∙ who-set_profile s fd f e) ∙ up
        | inr e ↦ ap (λ (p : Profile). p.tearing_down) (same ∙ who-set_profile-none s fd f e.0)
      ]

  pub handle_client_input-Inv : Inv (handle_client_input parse fd input s)
  unfolding handle_client_input stored
  handle_client_input-Inv =
      Option_ind Inv (lookup fd s.clients) (λ _. v)
        λ c _.
          handle_lines-Inv laws parse fd _ _ stored-up (stored-Local.settles settled) stored-Inv

  pub handle_client_input-Local : Local fd s (handle_client_input parse fd input s)
  unfolding handle_client_input stored
  handle_client_input-Local =
      Option_ind (Local fd s) (lookup fd s.clients) (λ _. Local-refl fd s)
        λ c _.
          Local-trans fd stored-Local (
            handle_lines-Local laws parse fd _ _ stored-up (stored-Local.settles settled)
              stored-Inv)
