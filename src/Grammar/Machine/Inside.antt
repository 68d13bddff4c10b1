-- ===== src/Grammar/Machine/Inside.antt =====
-- src/grammar/compiled/ProgramMatcher.cpp: following a thread, and a round, keep the threads at
-- instructions of the program, with slots that name positions that were reached.
use ft_irc.Grammar.Validator.{listed}
use ft_irc.Prelude.{
  Bytes, ℕ, zero, suc, ◌*◌, ◌≤◌, ◌<◌, ◌≡◌, refl, sym, ap, subst, ◌⊎◌, inl, inr, Option, none, some,
  some-injective, List, [], ◌∷◌, ◌++◌, arith, Bool-cases, Option-cases, Option_ind, Bool_ind,
  length, get_or, update_at, length-append, All, All-append, All-mono,
}
use ft_irc.Grammar.Program.{at, in_class, Op, Instruction, Program}
use ft_irc.Grammar.Emit.{instruction}
use ft_irc.Grammar.Emit.Grown.{TargetsAt, Targets}
use ft_irc.Grammar.Emit.Targets.{Closed}
use ft_irc.Grammar.Machine.{
  Slots, see, push_thread, Adder, follow, add_thread, thread_fuel, run_thread, run_threads, Thread,
  Threads, Round, going, found, stuck,
}

abbrev pub Reached : ℕ → Option ℕ → Type 0
Reached pos none = Unit
Reached pos (some i) = i ≤ pos

Reached-suc : (pos : ℕ) (s : Option ℕ) → Reached pos s → Reached (suc pos) s
Reached-suc pos none h = tt
Reached-suc pos (some i) h = omega arith

-- A thread at an instruction of the program, with its slots.
pub record Placed (p : Program) (pos : ℕ) (pc : ℕ) (slots : Slots) : Type 0 where
  pub inside : pc < length p.code
  pub paired : length slots ≡ length p.slot_capture * 2
  pub reached : All (Reached pos) slots

abbrev pub AllPlaced : Program → ℕ → List Thread → Type 0
AllPlaced p pos ts = All (λ (t : Thread). Placed p pos t.pc t.slots) ts

-- Where a thread goes from an instruction.
abbrev OnwardAt : ℕ → Op → ℕ → Instruction → Type 0
OnwardAt size Op.split pc i = (i.x < size) × (i.y < size)
OnwardAt size Op.jump pc i = i.x < size
OnwardAt size Op.class pc i = suc pc < size
OnwardAt size Op.save pc i = suc pc < size
OnwardAt size Op.match pc i = Unit

OnwardAt-target :
    (n pc : ℕ) (op : Op) (i : Instruction) → pc < n → TargetsAt n op i → OnwardAt (suc n) op pc i
OnwardAt-target n pc Op.split i l h = (omega arith, omega arith)
OnwardAt-target n pc Op.jump i l h = omega arith
OnwardAt-target n pc Op.class i l h = omega arith
OnwardAt-target n pc Op.save i l h = omega arith
OnwardAt-target n pc Op.match i l h = tt

get_or-closed :
    (n : ℕ) (body : List Instruction) (end d : Instruction) (pc : ℕ)
    → All (Targets n) body
    → pc < suc (length body)
    → ((pc < length body) × Targets n (get_or (body ++ end ∷ []) pc d))
      ⊎ (get_or (body ++ end ∷ []) pc d ≡ end)
get_or-closed n [] end d zero h l = inr refl
get_or-closed n [] end d (suc pc) h l = absurd (omega arith)
get_or-closed n (i ∷ body) end d zero h l = inl (omega arith, h.0)
get_or-closed n (i ∷ body) end d (suc pc) h l =
    elim (get_or-closed n body end d pc h.1 (omega arith)) [
      | inl (m, t) ↦ inl (omega arith, t)
      | inr e ↦ inr e
    ]

onward-closed :
    (body : List Instruction) (d : Instruction) (pc : ℕ)
    → All (Targets (length body)) body
    → pc < suc (length body)
    → (i : Instruction) → get_or (body ++ instruction Op.match 0 0 ∷ []) pc d ≡ i
    → OnwardAt (suc (length body)) i.op pc i
onward-closed body d pc h l i e =
    elim (get_or-closed (length body) body (instruction Op.match 0 0) d pc h l) [
      | inl (m, t) ↦ OnwardAt-target (length body) pc i.op i m (subst (Targets (length body)) e t)
      | inr q ↦
          let same : instruction Op.match 0 0 ≡ i = cc in
          subst (λ (j : Instruction). OnwardAt (suc (length body)) j.op pc j) same tt
    ]

-- The behaviour that is asked of addThread.
abbrev pub Keeps : Program → Adder → Type 0
Keeps p add =
    (pc : ℕ) (slots : Slots) (pos : ℕ) (l m : Threads)
    → Placed p pos pc slots
    → AllPlaced p pos l.threads
    → add pc slots pos l ≡ some m
    → AllPlaced p pos m.threads

saved :
    (pos k : ℕ) (slots : Slots)
    → All (Reached pos) slots
    → All (Reached pos) (update_at k (λ _. some pos) slots)
      × (length (update_at k (λ _. some pos) slots) ≡ length slots)
saved pos k [] h = (tt, refl)
saved pos zero (s ∷ slots) h = ((omega arith, h.1), refl)
saved pos (suc k) (s ∷ slots) h =
    let (reached, same) = saved pos k slots h.1 in ((h.0, reached), omega (arith, same))

module _ (p : Program) (closed : Closed p) where
  onward-at : (pc : ℕ) → pc < length p.code → OnwardAt (length p.code) (at p pc).op pc (at p pc)
  onward-at pc l =
      let whole : length p.code ≡ suc (length closed.body) = omega (
        arith,
        length-append closed.body (instruction Op.match 0 0 ∷ []),
        ap length closed.ended,
      ) in
      let d : Instruction = record { op = Op.match; x = 0; y = 0 } in
      subst (λ n. OnwardAt n (at p pc).op pc (at p pc)) (sym whole)
        (onward-closed closed.body d pc closed.inside (omega (arith, whole)) (at p pc)
          (ap (λ code. get_or code pc d) (sym closed.ended)))

  push_thread-Placed :
      (pc : ℕ) (slots : Slots) (pos : ℕ) (l : Threads)
      → Placed p pos pc slots
      → AllPlaced p pos l.threads
      → AllPlaced p pos (push_thread pc slots l).threads
  push_thread-Placed pc slots pos l h a =
      All-append (λ (t : Thread). Placed p pos t.pc t.slots) l.threads
        (record { pc = pc; slots = slots } ∷ []) a (h, tt)

  follow-Keeps :
      (op : Op) (add : Adder) (i : Instruction) (pc : ℕ) (slots : Slots) (pos : ℕ) (l m : Threads)
      → Keeps p add
      → OnwardAt (length p.code) op pc i
      → Placed p pos pc slots
      → AllPlaced p pos l.threads
      → follow op add i pc slots pos l ≡ some m
      → AllPlaced p pos m.threads
  unfolding follow
  follow-Keeps Op.jump add i pc slots pos l m keeps on h a e =
      keeps i.x slots pos l m (record { inside = on; paired = h.paired; reached = h.reached }) a e
  follow-Keeps Op.split add i pc slots pos l m keeps on h a e =
      elim (Option-cases (add i.x slots pos l)) [
        | inl q ↦ absurd (ground arith)
        | inr (o, q) ↦
            keeps i.y slots pos o m
              (record { inside = on.1; paired = h.paired; reached = h.reached })
              (keeps i.x slots pos l o
                (record { inside = on.0; paired = h.paired; reached = h.reached }) a q)
              (rw (q, follow) at e)
      ]
  follow-Keeps Op.save add i pc slots pos l m keeps on h a e =
      let (reached, same) = saved pos i.x slots h.reached in
      keeps (suc pc) (update_at i.x (λ _. some pos) slots) pos l m
        (record { inside = on; paired = omega (arith, same, h.paired); reached = reached }) a e
  follow-Keeps Op.class add i pc slots pos l m keeps on h a e =
      subst (λ (o : Threads). AllPlaced p pos o.threads) (some-injective _ m e)
        (push_thread-Placed pc slots pos l h a)
  follow-Keeps Op.match add i pc slots pos l m keeps on h a e =
      subst (λ (o : Threads). AllPlaced p pos o.threads) (some-injective _ m e)
        (push_thread-Placed pc slots pos l h a)

  pub add_thread-Keeps : (fuel : ℕ) → Keeps p (add_thread p fuel)
  unfolding add_thread
  add_thread-Keeps zero pc slots pos l m h a e = absurd (ground arith)
  add_thread-Keeps (suc fuel) pc slots pos l m h a e = elim (Bool-cases (listed pc l.seen)) [
    | inl q ↦
        subst (λ (o : Threads). AllPlaced p pos o.threads)
          (some-injective l m (rw (q, add_thread) at e)) a
    | inr q ↦
        follow-Keeps (at p pc).op (add_thread p fuel) (at p pc) pc slots pos (see pc l) m
          (add_thread-Keeps fuel) (onward-at pc h.inside) h a (rw (q, add_thread) at e)
  ]

  -- What a round gives, the threads of the next round or the slots of a match, is in order.
  abbrev pub RoundPlaced : ℕ → Bytes → Round → Type 0
  RoundPlaced pos rest (going m) = AllPlaced p (suc pos) m.threads
  RoundPlaced pos rest (found slots) =
      (rest ≡ []) × (length slots ≡ length p.slot_capture * 2) × All (Reached pos) slots
  RoundPlaced pos rest stuck = Unit

  run_thread-Placed :
      (op : Op) (ins : Instruction) (t : Thread) (pos : ℕ) (rest : Bytes) (onward : Threads → Round)
      (next : Threads)
      → OnwardAt (length p.code) op t.pc ins
      → Placed p pos t.pc t.slots
      → AllPlaced p (suc pos) next.threads
      → ((l : Threads) → AllPlaced p (suc pos) l.threads → RoundPlaced pos rest (onward l))
      → RoundPlaced pos rest (run_thread p op ins t pos rest onward next)
  unfolding run_thread
  run_thread-Placed Op.match ins t pos [] onward next on h a k = (refl, h.paired, h.reached)
  run_thread-Placed Op.match ins t pos (c ∷ rest) onward next on h a k = k next a
  run_thread-Placed Op.class ins t pos [] onward next on h a k = k next a
  run_thread-Placed Op.class ins t pos (c ∷ rest) onward next on h a k =
      Bool_ind (RoundPlaced pos (c ∷ rest)) (in_class p ins.x c)
        (λ _.
          Option_ind (RoundPlaced pos (c ∷ rest))
            (add_thread p (thread_fuel p) (suc t.pc) t.slots (suc pos) next) (λ _. tt)
            λ more e. k more (
              add_thread-Keeps (thread_fuel p) (suc t.pc) t.slots (suc pos) next more
                (record {
                  inside = on;
                  paired = h.paired;
                  reached =
                      All-mono (Reached pos) (Reached (suc pos)) t.slots (Reached-suc pos)
                        h.reached;
                })
                a e))
        λ _. k next a
  run_thread-Placed Op.jump ins t pos rest onward next on h a k = k next a
  run_thread-Placed Op.split ins t pos rest onward next on h a k = k next a
  run_thread-Placed Op.save ins t pos rest onward next on h a k = k next a

  pub run_threads-Placed :
      (pos : ℕ) (rest : Bytes) (ts : List Thread) (next : Threads)
      → AllPlaced p pos ts
      → AllPlaced p (suc pos) next.threads
      → RoundPlaced pos rest (run_threads p pos rest ts next)
  unfolding run_threads
  run_threads-Placed pos rest [] next h a = a
  run_threads-Placed pos rest (t ∷ ts) next h a =
      run_thread-Placed (at p t.pc).op (at p t.pc) t pos rest (run_threads p pos rest ts) next
        (onward-at t.pc h.0.inside) h.0 a (λ l. run_threads-Placed pos rest ts l h.1)
