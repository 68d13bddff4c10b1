-- ===== src/Grammar/Walk.antt =====
-- The continuation and the walk of src/grammar/interpreted/TreeMatcher.cpp. A continuation is the
-- list of its frames, and the three lists of a Walk that backtracking restores are the record Found.
use ft_irc.Prelude.{
  Bytes, text, ℕ, ◌+◌, Bool, true, false, List, [], ◌∷◌, ◌++◌, length, get_or, take, update_at,
}

pub data Frame : Type 0 where
  run_node : ℕ → Frame
  sequence_at : ℕ → ℕ → Frame
  repeat_at : ℕ → ℕ → ℕ → Frame
  close_capture : ℕ → ℕ → Frame

abbrev pub Continuation : Type 0
Continuation = List Frame

pub record Found : Type 0 where
  pub values : List (List Bytes)
  pub sequence : List Bytes
  pub owners : List ℕ

pub record Walk : Type 0 where
  pub found : Found
  pub steps : ℕ
  pub exhausted : Bool

abbrev pub exhaust : Walk → Walk
exhaust w = record w { exhausted = true }

abbrev pub add_steps : ℕ → Walk → Walk
add_steps n w = record w { steps = w.steps + n }

-- Go on with the walk after a failure, unless a limit was met.
abbrev pub or_else : Bool × Walk → (Walk → Bool × Walk) → Bool × Walk
or_else (true, w) next = (true, w)
or_else (false, w) next = elim w.exhausted [ true ↦ (false, w) | false ↦ next w ]

abbrev pub unless_exhausted : Walk → (Walk → Bool × Walk) → Bool × Walk
unless_exhausted w next = elim w.exhausted [ true ↦ (false, w) | false ↦ next w ]

unfoldable pub push_capture : ℕ → Bytes → Found → Found
push_capture slot text f = record {
  values = update_at slot (λ l. l ++ text ∷ []) f.values;
  sequence = f.sequence ++ text ∷ [];
  owners = f.owners ++ slot ∷ [];
}

-- The three calls of resize that undo it, with the sizes from before.
unfoldable pub pop_capture : ℕ → Found → Found → Found
pop_capture slot before f = record {
  values = update_at slot (take (length (get_or before.values slot []))) f.values;
  sequence = take (length before.sequence) f.sequence;
  owners = take (length before.sequence) f.owners;
}

abbrev pub with_found : Found → Walk → Walk
with_found f w = record w { found = f }

abbrev pub restored : ℕ → Found → Bool × Walk → Bool × Walk
restored slot before (true, w) = (true, w)
restored slot before (false, w) = (false, with_found (pop_capture slot before w.found) w)
