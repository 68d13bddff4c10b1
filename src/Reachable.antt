-- ===== src/Reachable.antt =====
-- The states that `Server::run` of src/Server.cpp can reach, and what all of them satisfy.
pub mod Lines
pub mod Timers
pub mod Masks
pub mod Events
pub mod Iteration
pub mod Consequences
use ft_irc.Prelude.{
  Bytes, Map, nat_key, bytes_key, lookup, ℕ, ◌≡◌, Bool, true, false, ◌||◌, Option, none, some, List,
  [], ◌∷◌, ◌==◌,
}
use ft_irc.Libcpp.{StrLib, SocketLib}
use ft_irc.Message.{Message}
use ft_irc.Client.{Profile}
use ft_irc.Server.{new_server, add_extension, Extension, Mask, Server}
use ft_irc.Server.Store.{profiles}
use ft_irc.EventLoop.Iteration.{set_clock, handle_event, run_iteration, Event, accepted, ready}
use ft_irc.Invariant.{Inv}
use ft_irc.Isolation.{SettledAt}

module _ {Io : Type 0} ⦃str : StrLib⦄ where
  -- The invariant, and no client is torn down without being closed.
  pub record Sound (s : Server Io) : Type 0 where
    pub inv : Inv s
    pub settled : (fd : ℕ) → SettledAt fd (profiles s)

  -- No input is awaited from a client that is only flushed.
  abbrev pub MaskOk : Server Io → Type 0
  MaskOk s =
      (fd : ℕ) (p : Profile) (m : Mask)
      → lookup fd (profiles s) ≡ some p
      → lookup fd s.epoll_mask ≡ some m
      → p.pending_close ≡ true
      → m.input ≡ false

abbrev pub reads : Event → Bool
reads (accepted fd hostname) = false
reads (ready fd none send broken) = false
reads (ready fd (some input) send broken) = true

abbrev pub is_ready : ℕ → Event → Bool
is_ready g (accepted fd hostname) = false
is_ready g (ready fd recv send broken) = fd == g

abbrev pub later : ℕ → List (ℕ × Event) → Bool
later g [] = false
later g ((now, e) ∷ es) = is_ready g e || later g es

module _ {Io : Type 0} ⦃str : StrLib⦄ ⦃sock : SocketLib Io⦄ (parse : Bytes → Option Message) where
  -- What the kernel promises: accept(2) gives a descriptor that is not open, and epoll_wait(2)
  -- reports a descriptor once, and as readable only under a mask that asks for input.
  abbrev pub Admits : Map ℕ Mask → List (ℕ × Event) → Server Io → Type 0
  Admits masks [] s = Unit
  Admits masks ((now, accepted fd hostname) ∷ es) s =
      (lookup fd (profiles s) ≡ none)
      × Admits masks es (handle_event parse (accepted fd hostname) (set_clock now s))
  Admits masks ((now, ready fd recv send broken) ∷ es) s =
      (later fd es ≡ false)
      × (reads (ready fd recv send broken) ≡ true
          → (m : Mask) × (lookup fd masks ≡ some m) × (m.input ≡ true))
      × Admits masks es (handle_event parse (ready fd recv send broken) (set_clock now s))

  -- The states that the server reaches: as it is made, with one more extension, and after one more
  -- iteration of `run`.
  pub data Reach : Server Io → Type 0 where
    started : (password : Bytes) (timeout now : ℕ) → Reach (new_server password timeout now)
    extended : (e : Extension) (s : Server Io) → Reach s → Reach (add_extension e s)
    iterated :
        (es : List (ℕ × Event)) (now : ℕ) (s : Server Io)
        → Admits s.epoll_mask es s
        → Reach s
        → Reach (run_iteration parse es now s)
