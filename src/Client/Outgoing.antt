-- ===== src/Client/Outgoing.antt =====
-- src/Client.cpp: what `Client::queueMessage` hands to the socket.
use ft_irc.Prelude.{
  Bytes, ◌-◌, ◌≤◌, ◌≡◌, refl, sym, ◌∙◌, arith, ltb, if◌then◌else◌, if_ind, length, take,
  length-take, take-all,
}
use ft_irc.Limits.{max_msglen}
use ft_irc.Libcpp.{SocketLib}
use ft_irc.Client.{queue_message, Client}

module _ {Io : Type 0} ⦃sock : SocketLib Io⦄ where
  -- What is queued for a message is a line of at most 510 bytes, which is the message itself if
  -- it is no longer than that and its first 510 bytes otherwise; nothing else of the client
  -- changes.
  pub queue_message-bounded :
      (msg : Bytes) (c : Client Io)
      → (line : Bytes) × (queue_message msg c ≡ record c { io = sock.queue c.io line })
        × (length line ≤ max_msglen - 2)
        × (line ≡ take (max_msglen - 2) msg)
        × (length msg ≤ max_msglen - 2 → line ≡ msg)
  unfolding queue_message
  queue_message-bounded msg c =
      let line = if ltb (max_msglen - 2) (length msg) then take (max_msglen - 2) msg else msg in
      let cut : line ≡ take (max_msglen - 2) msg =
        if_ind (λ (l : Bytes). l ≡ take (max_msglen - 2) msg) (ltb (max_msglen - 2) (length msg))
          (λ _. refl) (λ short. sym (take-all (max_msglen - 2) msg (ground (arith, short)))) in
      (
        line,
        refl,
        rw cut (omega (arith, length-take (max_msglen - 2) msg)),
        cut,
        λ short. cut ∙ take-all (max_msglen - 2) msg short,
      )
