-- ===== src/Server/Delivery.antt =====
-- src/Channel.cpp: to whom `Channel::broadcastMessage` sends.
use ft_irc.Prelude.{
  Bytes, nat_key, bytes_key, lookup, contains, ℕ, ◌≡◌, Bool, true, false, not, ◌&&◌, Option, none,
  some, List, [], ◌∷◌, arith, ◌==◌, ==_iff,
}
use ft_irc.Prelude.Maps.Laws.{lookup-adjust}
use ft_irc.Libcpp.{SocketLib}
use ft_irc.Client.{queue_message, Client}
use ft_irc.Server.{Server}
use ft_irc.Server.Store.{adjust_client, queue_to, broadcast}

-- No member stands twice, as in the keys of a std::map.
abbrev pub Once : List ℕ → Type 0
Once [] = Unit
Once (fd ∷ l) = (contains fd l ≡ false) × Once l

abbrev pub is_excluded : ℕ → Option ℕ → Bool
is_excluded fd none = false
is_excluded fd (some e) = fd == e

abbrev pub addressed : ℕ → List ℕ → Option ℕ → Bool
addressed g members excluded = contains g members && not (is_excluded g excluded)

module _ {Io : Type 0} ⦃sock : SocketLib Io⦄ where
  -- A client with the message behind what is queued for it, or as it was.
  abbrev pub given : Bytes → Bool → Client Io → Client Io
  given msg true c = queue_message msg c
  given msg false c = c

module _ {Io : Type 0} ⦃sock : SocketLib Io⦄ (g : ℕ) (msg : Bytes) where
  lookup-queue_to :
      (fd : ℕ) (s : Server Io)
      → lookup g (queue_to fd msg s).clients
        ≡ elim (lookup g s.clients) [ none ↦ none | some c ↦ some (given msg (fd == g) c) ]
  unfolding queue_to adjust_client
  lookup-queue_to fd s = ground (arith, lookup-adjust g fd (queue_message msg) s.clients)

  pub broadcast-delivers :
      (members : List ℕ) (excluded : Option ℕ) (s : Server Io)
      → Once members
      → lookup g (broadcast members msg excluded s).clients ≡ elim (lookup g s.clients) [
        | none ↦ none
        | some c ↦ some (given msg (addressed g members excluded) c)
      ]
  unfolding broadcast contains
  broadcast-delivers [] excluded s h = ground arith
  broadcast-delivers (fd ∷ members) none s h = ground (
    arith,
    broadcast-delivers members none (queue_to fd msg s) h.1,
    lookup-queue_to fd s,
    h.0,
    ==_iff fd g,
  )
  broadcast-delivers (fd ∷ members) (some e) s h = ground (
    arith,
    broadcast-delivers members (some e) s h.1,
    broadcast-delivers members (some e) (queue_to fd msg s) h.1,
    lookup-queue_to fd s,
    h.0,
    ==_iff fd g,
  )
