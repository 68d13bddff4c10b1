-- ===== src/FileTransfer/Departed.antt =====
-- src/bonus/FileTransferExt.cpp: what onClientDisconnect leaves.
use ft_irc.Server.{Transfer, Server}
use ft_irc.Libcpp.{StrLib, SocketLib}
use ft_irc.Prelude.{
  Bytes, text, Map, nat_key, bytes_key, lookup, ℕ, ◌≡◌, ◌≢◌, inl, inr, Bool, true, ◌||◌, some, [],
  ◌∷◌, arith, ◌==◌, ==_iff, Bool-cases, if_ind, Option_ind,
}
use ft_irc.Prelude.Maps.Laws.{lookup-erase}
use ft_irc.FileTransfer.{Relay, abort_transfer, abort_peers}

abbrev pub involves : ℕ → Transfer → Bool
involves fd t = t.sender_fd == fd || t.recipient_fd == fd

module _ {Io : Type 0} ⦃str : StrLib⦄ ⦃sock : SocketLib Io⦄ (fd : ℕ) where
  -- The transfers of the client that are still there are among those still to be visited.
  abbrev Remaining : Map ℕ Transfer → Relay Io → Type 0
  Remaining m r =
      (id : ℕ) (t : Transfer) → lookup id r.0 ≡ some t → involves fd t ≡ true → lookup id m ≡ some t

  abort-Remaining :
      (j : ℕ) (u : Transfer) (m : Map ℕ Transfer) (why : Bytes) (r : Relay Io)
      → Remaining ((j, u) ∷ m) r
      → Remaining m (abort_transfer j why r)
  unfolding abort_transfer lookup
  abort-Remaining j u m why (ts, s) h =
      Option_ind (Remaining m) (lookup j ts)
        (λ gone id t e i. ground (arith, gone, e, h id t e i, ==_iff j id))
        λ v there id t e i. ground (arith, lookup-erase id j ts, e, h id t, i, ==_iff j id)

  abort_peers-Remaining :
      (m : Map ℕ Transfer) (r : Relay Io) → Remaining m r → Remaining [] (abort_peers fd m r)
  unfolding abort_peers lookup
  abort_peers-Remaining [] r h = h
  abort_peers-Remaining ((j, u) ∷ m) r h = abort_peers-Remaining m _ (
      if_ind (Remaining m) (involves fd u)
        (λ _. abort-Remaining j u m (text "peer disconnected") r h)
        (λ other id t e i. ground (arith, other, e, h id t e i, i)))

  -- The hook leaves no transfer of the client.
  pub abort_peers-departed :
      (ts : Map ℕ Transfer) (s : Server Io) (id : ℕ) (t : Transfer)
      → lookup id (abort_peers fd ts (ts, s)).0 ≡ some t
      → (t.sender_fd ≢ fd) × (t.recipient_fd ≢ fd)
  unfolding lookup
  abort_peers-departed ts s id t e = elim (Bool-cases (involves fd t)) [
    | inl i ↦ cc (abort_peers-Remaining ts (ts, s) (λ j u found k. found) id t e i)
    | inr n ↦ (ground (arith, n), ground (arith, n))
  ]
