-- ===== src/Authority/Departed.antt =====
-- src/Server.cpp: what a disconnection leaves in the channel table.
use ft_irc.Server.Store.{profiles_of, profiles, who, adjust_client, set_profile}
use ft_irc.Server.{Server}
use ft_irc.Client.{Profile, Client}
use ft_irc.Libcpp.{StrLib, SocketLib}
use ft_irc.Prelude.{
  Bytes, Map, nat_key, bytes_key, has_key, ℕ, ◌≡◌, refl, ap, ◌∙◌, false, not, [], ◌∷◌, arith,
  ==_self, if_ind,
}
use ft_irc.Prelude.Maps.Laws.{lookup-none}
use ft_irc.Lifecycle.{
  mark_pending_close, has_pending_data, teardown_client_state, finalize_disconnect,
  disconnect_client,
}
use ft_irc.Membership.{is_live}
use ft_irc.Membership.Lifecycle.{is_live-erase, is_live-adjust}
use ft_irc.Membership.Forgotten.{AllForget, TableOk-AllForget, purge-AllForget}
use ft_irc.Invariant.{Inv}
use ft_irc.Invariant.Edits.{profiles-set_profile}
use ft_irc.Invariant.Lifecycle.{
  is_live-who, profiles_of-erase, teardown_client_state-TornDown, TornDown-dead,
  disconnect_client-Inv,
}

module _ {Io : Type 0} ⦃str : StrLib⦄ ⦃sock : SocketLib Io⦄ (fd : ℕ) (reason : Bytes)
    (s : Server Io) where
  pub has_key-profiles : (m : Map ℕ (Client Io)) → has_key fd (profiles_of m) ≡ has_key fd m
  unfolding has_key profiles_of
  has_key-profiles [] = refl
  has_key-profiles ((j, c) ∷ m) = ground (arith, has_key-profiles m)

  finalize-dead : (t : Server Io) → is_live (profiles (finalize_disconnect fd t)) fd ≡ false
  unfolding finalize_disconnect
  finalize-dead t =
      rw (profiles_of-erase fd t.clients)
        (ground (arith, is_live-erase fd fd (profiles t), ==_self fd))

  -- After a disconnection the client is live no more.
  pub disconnect_client-dead : is_live (profiles (disconnect_client fd reason s)) fd ≡ false
  unfolding disconnect_client mark_pending_close is_live
  disconnect_client-dead =
      let P = λ (t : Server Io). is_live (profiles t) fd ≡ false in
      if_ind P (not (has_key fd s.clients))
        (λ gone.
          let unknown : has_key fd (profiles s) ≡ false =
            has_key-profiles s.clients ∙ ground (arith, gone) in
          ground (arith, lookup-none fd (profiles s) unknown))
        λ _.
          if_ind P (who s fd).tearing_down (λ torn. is_live-who s fd ∙ ground (arith, torn))
            λ fresh.
              let d = teardown_client_state-TornDown fd reason s fresh in
              let t = teardown_client_state fd reason s in
              if_ind P (not (has_pending_data fd t)) (λ _. finalize-dead t)
                λ _.
                  ap (λ (ps : Map ℕ Profile). is_live ps fd)
                    (profiles-set_profile fd (mark_pending_close s.clock) t)
                  ∙ is_live-adjust fd (mark_pending_close s.clock) fd (profiles t)
                      (λ p. (refl, refl))
                  ∙ TornDown-dead fd d

  -- Where the server satisfies its invariant, no channel keeps a client that was disconnected:
  -- it is no member, no operator and not invited anywhere, whether its connection was deleted
  -- or is still being flushed.
  pub disconnect_client-AllForget : Inv s → AllForget fd (disconnect_client fd reason s).channels
  disconnect_client-AllForget v =
      let after = disconnect_client fd reason s in
      TableOk-AllForget fd (is_live (profiles after)) disconnect_client-dead after.channels
        (disconnect_client-Inv fd reason s v).table

  -- A client that stands in no channel leaves the table as it is.
  pub disconnect_client-kept :
      AllForget fd s.channels → (disconnect_client fd reason s).channels ≡ s.channels
  unfolding disconnect_client finalize_disconnect set_profile adjust_client
  disconnect_client-kept h =
      let P = λ (t : Server Io). t.channels ≡ s.channels in
      if_ind P (not (has_key fd s.clients)) (λ _. refl)
        λ _.
          if_ind P (who s fd).tearing_down (λ _. refl)
            λ fresh.
              let d = teardown_client_state-TornDown fd reason s fresh in
              let same = d.torn_channels ∙ purge-AllForget fd s.channels h in
              if_ind P (not (has_pending_data fd (teardown_client_state fd reason s))) (λ _. same)
                (λ _. same)
