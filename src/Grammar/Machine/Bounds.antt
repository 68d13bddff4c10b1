-- ===== src/Grammar/Machine/Bounds.antt =====
-- src/grammar/compiled/ProgramMatcher.cpp: the rounds of match as a relation, and what holds of the
-- threads before each and of the slots of a match.
use ft_irc.Prelude.{
  Bytes, ℕ, zero, suc, ◌+◌, ◌*◌, ◌≡◌, refl, ap, subst, inl, inr, some, List, [], ◌∷◌, arith,
  Option-cases, length, length-append, All,
}
use ft_irc.Grammar.Rules.{Grammar}
use ft_irc.Grammar.Result.{done}
use ft_irc.Grammar.Program.{Op, Program}
use ft_irc.Grammar.Emit.{instruction, compile_rule}
use ft_irc.Grammar.Emit.Targets.{compile_rule-Closed, Closed}
use ft_irc.Grammar.Machine.{
  Slots, no_threads, add_thread, thread_fuel, run_threads, rounds, unset, run_program, Thread,
  Threads, Round, going, found, stuck,
}
use ft_irc.Grammar.Machine.Inside.{
  Reached, AllPlaced, add_thread-Keeps, RoundPlaced, run_threads-Placed,
}

-- The threads before a round, at a position and with the rest of the line.
pub data Current (p : Program) (line : Bytes) : ℕ → Bytes → List Thread → Type 0 where
  started :
      (l : Threads)
      → add_thread p (thread_fuel p) 0 (unset (length p.slot_capture)) 0 no_threads ≡ some l
      → Current p line 0 line l.threads
  moved :
      (pos c : ℕ) (rest : Bytes) (ts : List Thread) (next : Threads)
      → Current p line pos (c ∷ rest) ts
      → run_threads p pos (c ∷ rest) ts no_threads ≡ going next
      → Current p line (suc pos) rest next.threads

-- A pair of slots for each capture, and no position beyond `n`.
abbrev pub Bounded : Program → ℕ → Slots → Type 0
Bounded p n slots = (length slots ≡ length p.slot_capture * 2) × All (Reached n) slots

module _ (p : Program) (closed : Closed p) where
  unset-Reached : (n : ℕ) → All (Reached 0) (unset n) × (length (unset n) ≡ n * 2)
  unset-Reached zero = (tt, refl)
  unset-Reached (suc n) = let (r, e) = unset-Reached n in ((tt, (tt, r)), omega (arith, e))

  start-Placed :
      (l : Threads)
      → add_thread p (thread_fuel p) 0 (unset (length p.slot_capture)) 0 no_threads ≡ some l
      → AllPlaced p 0 l.threads
  start-Placed l e =
      let (reached, paired) = unset-Reached (length p.slot_capture) in
      add_thread-Keeps p closed (thread_fuel p) 0 (unset (length p.slot_capture)) 0 no_threads l
        (record {
          inside = omega (
            arith,
            length-append closed.body (instruction Op.match 0 0 ∷ []),
            ap length closed.ended,
          );
          paired = paired;
          reached = reached;
        })
        tt e

  round-Placed :
      (line : Bytes) (pos : ℕ) (rest : Bytes) (ts : List Thread)
      → Current p line pos rest ts
      → AllPlaced p pos ts × (pos + length rest ≡ length line)
  round-Placed line pos rest ts (started l e) = (start-Placed l e, omega arith)
  round-Placed line pos rest ts (moved at_pos c later before next r e) =
      let (placed, len) = round-Placed line at_pos (c ∷ later) before r in
      (
        subst (RoundPlaced p closed at_pos (c ∷ later)) e
            (run_threads-Placed p closed at_pos (c ∷ later) before no_threads placed tt),
        omega (arith, len),
      )

  rounds-Bounded :
      (pos : ℕ) (rest : Bytes) (ts : List Thread) (slots : Slots)
      → AllPlaced p pos ts
      → rounds p pos rest ts ≡ some (some slots)
      → Bounded p (pos + length rest) slots
  unfolding rounds
  rounds-Bounded pos [] ts slots h e =
      after (run_threads p pos [] ts no_threads)
        (run_threads-Placed p closed pos [] ts no_threads h tt) refl
    where
      after :
          (r : Round)
          → RoundPlaced p closed pos [] r
          → run_threads p pos [] ts no_threads ≡ r
          → Bounded p (pos + 0) slots
      after (going next) k q = absurd (ground arith)
      after (found s) k q =
          let same : s ≡ slots = ground arith in
          let there : pos ≡ pos + 0 = omega arith in
          subst (λ (x : Slots). Bounded p (pos + 0) x) same
            (subst (λ n. Bounded p n s) there (k.1, k.2))
      after stuck k q = absurd (ground arith)
  rounds-Bounded pos (c ∷ rest) ts slots h e =
      after (λ l. rounds-Bounded (suc pos) rest l.threads slots)
        (run_threads p pos (c ∷ rest) ts no_threads)
        (run_threads-Placed p closed pos (c ∷ rest) ts no_threads h tt) refl
    where
      after :
          ((l : Threads)
            → AllPlaced p (suc pos) l.threads
            → rounds p (suc pos) rest l.threads ≡ some (some slots)
            → Bounded p (suc pos + length rest) slots)
          → (r : Round) → RoundPlaced p closed pos (c ∷ rest) r
          → run_threads p pos (c ∷ rest) ts no_threads ≡ r
          → Bounded p (pos + suc (length rest)) slots
      after deeper (going next) k q =
          let same : suc pos + length rest ≡ pos + suc (length rest) = omega arith in
          subst (λ n. Bounded p n slots) same (deeper next k (ground arith))
      after deeper (found s) k q = absurd (ground arith)
      after deeper stuck k q = absurd (ground arith)

-- Before each round of the compiled matcher on a program that a rule compiles to, every thread is
-- at an instruction of the program and has two slots for each capture, which name no position
-- that was not reached yet, and the position and the rest of the line make up the line.
pub Current-Placed :
    (g : Grammar) (rule : ℕ) (p : Program) (line : Bytes) (pos : ℕ) (rest : Bytes)
    (ts : List Thread)
    → compile_rule g rule ≡ done p
    → Current p line pos rest ts
    → AllPlaced p pos ts × (pos + length rest ≡ length line)
Current-Placed g rule p line pos rest ts e =
    round-Placed p (compile_rule-Closed g rule p e) line pos rest ts

-- If the compiled matcher finds a match with the program that a rule compiles to, it has two
-- slots for each capture, and none of them names a position beyond the end of the line, so that
-- every capture is cut out of the line.
pub run_program-Bounded :
    (g : Grammar) (rule : ℕ) (p : Program) (line : Bytes) (slots : Slots)
    → compile_rule g rule ≡ done p
    → run_program g p line ≡ some (some slots)
    → Bounded p (length line) slots
unfolding run_program
run_program-Bounded g rule p line slots e r =
    let closed = compile_rule-Closed g rule p e in
    elim (Option-cases
      (add_thread p (thread_fuel p) 0 (unset (length p.slot_capture)) 0 no_threads)) [
        | inl q ↦ absurd (ground arith)
        | inr (start, q) ↦
            let same : 0 + length line ≡ length line = omega arith in
            subst (λ n. Bounded p n slots) same
              (rounds-Bounded p closed 0 line start.threads slots (start-Placed p closed start q)
                (ground arith))
      ]
