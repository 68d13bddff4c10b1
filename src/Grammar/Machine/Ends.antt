-- ===== src/Grammar/Machine/Ends.antt =====
-- src/grammar/compiled/ProgramMatcher.cpp: a match ends on every program and every line. A call of
-- addThread that goes on has marked an instruction of the program that was not marked before.
use ft_irc.Prelude.{
  Bytes, ℕ, zero, suc, ◌+◌, ◌≤◌, ◌<◌, ◌≡◌, refl, ap, subst, ◌≢◌, inl, inr, true, false, Option,
  none, some, List, [], ◌∷◌, arith, ◌==◌, if◌then◌else◌, ==_iff, Bool-cases, Option-cases, Bool_ind,
  length, get_or, update_at,
}
use ft_irc.Grammar.Rules.{rule_root, rule_count, Grammar}
use ft_irc.Grammar.Validator.{listed}
use ft_irc.Grammar.Program.{at, Op, Instruction, Program}
use ft_irc.Grammar.Machine.{
  Slots, no_threads, see, Adder, follow, add_thread, thread_fuel, run_thread, run_threads, rounds,
  unset, program_for, compile_from, compile_all, run_program, pike_match, Thread, Threads, Round,
  PikeMatch, going, found, stuck,
}

-- The instructions below `n` that are not in the list.
unseen : ℕ → List ℕ → ℕ
unseen zero seen = 0
unseen (suc n) seen = if listed n seen then unseen n seen else suc (unseen n seen)

unseen-le : (n : ℕ) (seen : List ℕ) → unseen n seen ≤ n
unfolding unseen
unseen-le zero seen = omega arith
unseen-le (suc n) seen = ground (arith, unseen-le n seen)

unseen-see : (n pc : ℕ) (seen : List ℕ) → unseen n (pc ∷ seen) ≤ unseen n seen
unfolding unseen
unseen-see zero pc seen = omega arith
unseen-see (suc n) pc seen = ground (arith, unseen-see n pc seen)

unseen-less :
    (n pc : ℕ) (seen : List ℕ)
    → pc < n
    → listed pc seen ≡ false
    → unseen n (pc ∷ seen) < unseen n seen
unfolding unseen
unseen-less zero pc seen h e = absurd (omega arith)
unseen-less (suc n) pc seen h e = elim (Bool-cases (pc == n)) [
  | inl same ↦
      let at_n : pc ≡ n = (==_iff pc n).0 same in
      ground (arith, unseen-see n pc seen, ap (λ k. listed k seen) at_n)
  | inr other ↦ ground (arith, unseen-less n pc seen (ground arith) e)
]

-- An instruction that is not the end of a program is one of the program.
at-inside : (p : Program) (pc : ℕ) → ((at p pc).op ≢ Op.match) → pc < length p.code
at-inside p pc h = inside p.code pc h
  where
    inside :
        (code : List Instruction) (pc : ℕ)
        → ((get_or code pc (record { op = Op.match; x = 0; y = 0 })).op ≢ Op.match)
        → pc < length code
    inside [] pc h = absurd (h refl)
    inside (i ∷ code) zero h = omega arith
    inside (i ∷ code) (suc pc) h = omega (arith, inside code pc h)

module _ (p : Program) where
  -- The call ends, and leaves no more instructions unmarked than before.
  abbrev Adds : Threads → Option Threads → Type 0
  Adds l none = ⊥
  Adds l (some m) = unseen (length p.code) m.seen ≤ unseen (length p.code) l.seen

  Adds-after :
      (l m : Threads) (o : Option Threads)
      → unseen (length p.code) m.seen ≤ unseen (length p.code) l.seen
      → Adds m o
      → Adds l o
  Adds-after l m none le a = a
  Adds-after l m (some q) le a = omega arith

  Adds-then :
      (l : Threads) (o : Option Threads) (next : Threads → Option Threads)
      → Adds l o
      → ((m : Threads) → Adds l (some m) → Adds m (next m))
      → Adds l (elim o [ none ↦ none | some m ↦ next m ])
  Adds-then l none next a k = a
  Adds-then l (some m) next a k = Adds-after l m (next m) a (k m a)

  abbrev EndsWithin : ℕ → Adder → Type 0
  EndsWithin fuel deeper =
      (pc : ℕ) (slots : Slots) (pos : ℕ) (l : Threads)
      → unseen (length p.code) l.seen < fuel
      → Adds l (deeper pc slots pos l)

  follow-Adds :
      (op : Op) (fuel : ℕ) (deeper : Adder) (pc : ℕ) (slots : Slots) (pos : ℕ) (l : Threads)
      → EndsWithin fuel deeper
      → ((op ≢ Op.match) → unseen (length p.code) l.seen < fuel)
      → Adds l (follow op deeper (at p pc) pc slots pos l)
  unfolding follow
  follow-Adds Op.jump fuel deeper pc slots pos l d h = d (at p pc).x slots pos l (h (λ e. cc))
  follow-Adds Op.save fuel deeper pc slots pos l d h =
      d (suc pc) (update_at (at p pc).x (λ _. some pos) slots) pos l (h (λ e. cc))
  follow-Adds Op.split fuel deeper pc slots pos l d h =
      let fewer = h (λ e. cc) in
      Adds-then l (deeper (at p pc).x slots pos l) (deeper (at p pc).y slots pos)
        (d (at p pc).x slots pos l fewer) λ m a. d (at p pc).y slots pos m (omega arith)
  follow-Adds Op.class fuel deeper pc slots pos l d h = omega arith
  follow-Adds Op.match fuel deeper pc slots pos l d h = omega arith

  add_thread-Adds : (fuel : ℕ) → EndsWithin fuel (add_thread p fuel)
  unfolding add_thread
  add_thread-Adds zero pc slots pos l h = absurd (omega arith)
  add_thread-Adds (suc fuel) pc slots pos l h =
      Bool_ind (Adds l) (listed pc l.seen) (λ _. omega arith)
        λ new.
          let size = length p.code in
          Adds-after l (see pc l) _ (unseen-see size pc l.seen) (
            follow-Adds (at p pc).op fuel (add_thread p fuel) pc slots pos (see pc l)
              (add_thread-Adds fuel)
              (λ going. omega (arith, unseen-less size pc l.seen (at-inside p pc going) new)))

  add_thread-some :
      (pc : ℕ) (slots : Slots) (pos : ℕ) (l : Threads)
      → add_thread p (thread_fuel p) pc slots pos l ≢ none
  add_thread-some pc slots pos l e = subst (Adds l) e (
      add_thread-Adds (thread_fuel p) pc slots pos l
        (omega (arith, unseen-le (length p.code) l.seen)))

  run_thread-going :
      (op : Op) (ins : Instruction) (t : Thread) (pos : ℕ) (rest : Bytes) (onward : Threads → Round)
      (next : Threads)
      → ((l : Threads) → onward l ≢ stuck)
      → run_thread p op ins t pos rest onward next ≢ stuck
  unfolding run_thread
  run_thread-going Op.match ins t pos rest onward next h e = ground (arith, h next)
  run_thread-going Op.class ins t pos [] onward next h e = h next e
  run_thread-going Op.class ins t pos (c ∷ later) onward next h e =
      elim (Option-cases (add_thread p (thread_fuel p) (suc t.pc) t.slots (suc pos) next)) [
        | inl q ↦ add_thread-some (suc t.pc) t.slots (suc pos) next q
        | inr (more, q) ↦ ground (arith, h next, h more, q)
      ]
  run_thread-going Op.jump ins t pos rest onward next h e = h next e
  run_thread-going Op.split ins t pos rest onward next h e = h next e
  run_thread-going Op.save ins t pos rest onward next h e = h next e

  run_threads-going :
      (pos : ℕ) (rest : Bytes) (ts : List Thread) (next : Threads)
      → run_threads p pos rest ts next ≢ stuck
  unfolding run_threads
  run_threads-going pos rest [] next e = cc
  run_threads-going pos rest (t ∷ ts) next e =
      run_thread-going (at p t.pc).op (at p t.pc) t pos rest (run_threads p pos rest ts) next
        (run_threads-going pos rest ts) e

  rounds-some : (pos : ℕ) (rest : Bytes) (ts : List Thread) → rounds p pos rest ts ≢ none
  unfolding rounds
  rounds-some pos [] ts e = ground (arith, run_threads-going pos [] ts no_threads)
  rounds-some pos (c ∷ rest) ts e =
      after (λ more. rounds-some (suc pos) rest more) (run_threads p pos (c ∷ rest) ts no_threads)
        refl
    where
      after :
          ((more : List Thread) → rounds p (suc pos) rest more ≢ none)
          → (r : Round) → run_threads p pos (c ∷ rest) ts no_threads ≡ r
          → ⊥
      after later stuck q = run_threads-going pos (c ∷ rest) ts no_threads q
      after later (found slots) q = ground arith
      after later (going next) q = ground (arith, later next.threads)

  pub run_program-some : (g : Grammar) (line : Bytes) → run_program g p line ≢ none
  unfolding run_program
  run_program-some g line e =
      let slots = unset (length p.slot_capture) in
      elim (Option-cases (add_thread p (thread_fuel p) 0 slots 0 no_threads)) [
        | inl q ↦ add_thread-some 0 slots 0 no_threads q
        | inr (start, q) ↦ ground (arith, rounds-some 0 line start.threads, q)
      ]

-- Once a rule is compiled, or refused, match of the compiled matcher ends on every line and
-- returns: following jumps, splits and saves ends although they may lead in a circle, since an
-- instruction is followed once in a round.
pub pike_match-ends :
    (g : Grammar) (rule : ℕ) (line : Bytes) (compiled : Option Program)
    → program_for g rule ≡ some compiled
    → (r : PikeMatch) × (pike_match g rule line ≡ some r)
unfolding pike_match
pike_match-ends g rule line compiled e = elim (Option-cases (pike_match g rule line)) [
  | inr (r, q) ↦ (r, q)
  | inl q ↦ elim (Option-cases compiled) [
    | inl n ↦ absurd (ground arith)
    | inr (p, n) ↦ elim (Option-cases (run_program g p line)) [
      | inl m ↦ absurd (run_program-some p g line m)
      | inr (none, m) ↦ absurd (ground arith)
      | inr (some slots, m) ↦ absurd (ground arith)
    ]
  ]
]

compile_from-compiled :
    (g : Grammar) (first count rule root : ℕ)
    → compile_from g first count ≡ some true
    → first ≤ rule
    → rule < first + count
    → rule_root g rule ≡ some root
    → (p : Program) × (program_for g rule ≡ some (some p))
unfolding compile_from
compile_from-compiled g first zero rule root e l m r = absurd (omega arith)
compile_from-compiled g first (suc count) rule root e l m r = elim (Bool-cases (first == rule)) [
  | inl same ↦
      let here : first ≡ rule = (==_iff first rule).0 same in
      let found_root : rule_root g first ≡ some root = cc in
      elim (Option-cases (program_for g rule)) [
        | inl q ↦ absurd (let n : program_for g first ≡ none = cc in ground arith)
        | inr (none, q) ↦ absurd (let n : program_for g first ≡ some none = cc in ground arith)
        | inr (some p, q) ↦ (p, q)
      ]
  | inr other ↦
      compile_from-compiled g (suc first) count rule root (ground arith) (ground (arith, other))
        (omega arith) r
]

-- If compileAll returns true, every rule of the grammar that has a root has a program, and match
-- of the compiled matcher ends with a result on it for every line.
pub compile_all-compiled :
    (g : Grammar) (rule root : ℕ)
    → compile_all g ≡ some true
    → rule < rule_count g
    → rule_root g rule ≡ some root
    → (p : Program) × (program_for g rule ≡ some (some p))
      × ((line : Bytes) → (r : PikeMatch) × (pike_match g rule line ≡ some r))
unfolding compile_all
compile_all-compiled g rule root e l r =
    let (p, q) =
      compile_from-compiled g 0 (rule_count g) rule root e (omega arith) (omega arith) r in
    (p, q, λ line. pike_match-ends g rule line (some p) q)
