-- ===== src/Isolation.antt =====
-- The handlers of one client leave every other client's own state alone, and a client is torn down
-- only together with being closed.
pub mod Edits
pub mod Register
pub mod Dispatch
use ft_irc.Prelude.{Map, nat_key, lookup, ℕ, ◌≡◌, ◌≢◌, true, some}
use ft_irc.Client.{Profile}
use ft_irc.Server.{Server}
use ft_irc.Server.Store.{profiles}

-- A client that is torn down is only kept to be flushed.
abbrev pub SettledAt : ℕ → Map ℕ Profile → Type 0
SettledAt fd ps =
    (p : Profile) → lookup fd ps ≡ some p → p.tearing_down ≡ true → p.pending_close ≡ true

pub record Local {Io : Type 0} (fd : ℕ) (s t : Server Io) : Type 0 where
  pub elsewhere : (g : ℕ) → fd ≢ g → lookup g (profiles t) ≡ lookup g (profiles s)
  pub settles : SettledAt fd (profiles s) → SettledAt fd (profiles t)
