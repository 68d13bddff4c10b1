-- ===== src/FileTransfer/Disconnected.antt =====
-- src/Server.cpp and src/bonus/FileTransferExt.cpp: no transfer is left of a client that the server
-- disconnects.
use ft_irc.Prelude.{
  Bytes, text, nat_key, bytes_key, lookup, has_key, ℕ, ◌≡◌, ap, ◌∙◌, ◌≢◌, inl, inr, true, false,
  not, some, List, [], ◌∷◌, ◌++◌, arith, Bool-cases, if_ind, All,
}
use ft_irc.Libcpp.{StrLib, SocketLib}
use ft_irc.Server.{Transfer, Extension, Server, bot, file_transfer, audit_log}
use ft_irc.Server.Store.{blank, profiles, who, adjust_client, set_profile, audit}
use ft_irc.Extensions.{on_client_disconnect, each_extension, notify_extensions}
use ft_irc.Lifecycle.{
  purge, mark_tearing_down, announce, has_pending_data, teardown_client_state, finalize_disconnect,
  disconnect_client, disconnect_client_now,
}
use ft_irc.FileTransfer.Departed.{abort_peers-departed}
use ft_irc.Invariant.{Inv}
use ft_irc.Invariant.Lifecycle.{who-cases}
use ft_irc.Invariant.Registration.{who-lookup}
use ft_irc.Authority.Departed.{has_key-profiles}
use ft_irc.Prelude.Maps.Laws.{lookup-none}
use ft_irc.Client.{new_profile, prefix, Profile}

-- No transfer of the extension has the client as its sender or its recipient.
abbrev pub IsDeparted : ℕ → Extension → Type 0
IsDeparted fd (bot next) = Unit
IsDeparted fd (file_transfer ts next_id) =
    (id : ℕ) (t : Transfer) → lookup id ts ≡ some t → (t.sender_fd ≢ fd) × (t.recipient_fd ≢ fd)
IsDeparted fd audit_log = Unit

module _ {Io : Type 0} ⦃str : StrLib⦄ ⦃sock : SocketLib Io⦄ (fd : ℕ) where
  hook-IsDeparted : (e : Extension) (s : Server Io) → IsDeparted fd (on_client_disconnect fd e s).0
  unfolding on_client_disconnect
  hook-IsDeparted (bot next) s = tt
  hook-IsDeparted (file_transfer ts next_id) s = abort_peers-departed fd ts s
  hook-IsDeparted audit_log s = tt

  each-IsDeparted :
      (es : List Extension) (s : Server Io)
      → All (IsDeparted fd) (each_extension (on_client_disconnect fd) es s).0
  unfolding each_extension
  each-IsDeparted [] s = tt
  each-IsDeparted (e ∷ es) s =
      (hook-IsDeparted e s, each-IsDeparted es (on_client_disconnect fd e s).1)

  module _ (reason : Bytes) (s : Server Io) (fresh : (who s fd).tearing_down ≡ false) where
    teardown-IsDeparted : All (IsDeparted fd) (teardown_client_state fd reason s).extensions
    unfolding teardown_client_state notify_extensions audit
    teardown-IsDeparted =
        let quit = text ":" ++ prefix (who s fd) ++ text " QUIT :" ++ reason in
        let marked = set_profile fd mark_tearing_down s in
        let told = (announce fd quit s.channels (fd ∷ [], marked)).1 in
        let purged : Server Io = record told { channels = purge fd s.channels } in
        if_ind (λ (t : Server Io). All (IsDeparted fd) t.extensions) (who s fd).tearing_down
          (λ torn. cc) (λ _. each-IsDeparted purged.extensions purged)

    never-pending : Inv s → (who s fd).pending_close ≢ true
    unfolding blank new_profile
    never-pending v h = elim (who-cases s fd) [
      | inl e ↦ ground (arith, (v.people fd (who s fd) e).closing h, fresh)
      | inr e ↦ ground (arith, e.1, h)
    ]

    disconnect-IsDeparted :
        Inv s
        → has_key fd s.clients ≡ true
        → All (IsDeparted fd) (disconnect_client fd reason s).extensions
          × All (IsDeparted fd) (disconnect_client_now fd reason s).extensions
    unfolding disconnect_client disconnect_client_now finalize_disconnect set_profile adjust_client
    disconnect-IsDeparted v there =
        let P = λ (t : Server Io). All (IsDeparted fd) t.extensions in
        let torn = teardown-IsDeparted in
        (
          if_ind P (not (has_key fd s.clients)) (λ gone. absurd (ground (arith, there, gone)))
              λ _.
                if_ind P (who s fd).tearing_down (λ h. cc)
                  λ _.
                    if_ind P (not (has_pending_data fd (teardown_client_state fd reason s)))
                      (λ _. torn) (λ _. torn),
          if_ind P (not (has_key fd s.clients)) (λ gone. absurd (ground (arith, there, gone)))
              λ _.
                if_ind P (who s fd).pending_close (λ h. absurd (never-pending v h))
                  λ _. if_ind P (who s fd).tearing_down (λ h. cc) (λ _. torn),
        )

  -- Where the server satisfies its invariant and has the client, which is not being torn down,
  -- no transfer that an extension holds after disconnectClient or disconnectClientNow of that
  -- client has it as its sender or its recipient.
  pub disconnect_client-IsDeparted :
      (reason : Bytes) (s : Server Io) (p : Profile)
      → Inv s
      → lookup fd (profiles s) ≡ some p
      → p.tearing_down ≡ false
      → All (IsDeparted fd) (disconnect_client fd reason s).extensions
        × All (IsDeparted fd) (disconnect_client_now fd reason s).extensions
  disconnect_client-IsDeparted reason s p v found up =
      let fresh = ap (λ (q : Profile). q.tearing_down) (who-lookup s fd found) ∙ up in
      elim (Bool-cases (has_key fd s.clients)) [
        | inl there ↦ disconnect-IsDeparted reason s fresh v there
        | inr gone ↦
            let unknown = has_key-profiles fd reason s s.clients ∙ gone in
            absurd (ground (arith, lookup-none fd (profiles s) unknown, found))
      ]
