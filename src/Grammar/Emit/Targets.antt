-- ===== src/Grammar/Emit/Targets.antt =====
-- src/grammar/compiled/ProgramCompiler.cpp: the targets of a program's instructions are instructions
-- of the program, those that are patched later included, and its last instruction ends a match.
use ft_irc.Prelude.{
  ℕ, zero, suc, ◌+◌, ◌-◌, ◌*◌, ◌≤◌, ◌≡◌, inl, inr, List, [], ◌∷◌, ◌++◌, arith, ltb, Option-cases,
  if_ind, Option_ind, Bool_ind, length, All,
}
use ft_irc.Grammar.Rules.{Grammar, Kind, Node, node, child, rule_root, literal_text}
use ft_irc.Grammar.Validator.{listed, walk_fuel}
use ft_irc.Grammar.Result.{◌>>=◌, Result, failed, overflow, out_of_fuel, done}
use ft_irc.Grammar.Program.{no_bits, empty_program, Op, Instruction, Program}
use ft_irc.Grammar.Emit.{
  unroll_limit, instruction, emit, patch_y, here, range_bits, has_capture, Emitter, emit_body,
  emit_sequence, emit_split, emit_branches, emit_optional, emit_loop, emit_repetition, emit_capture,
  emit_reference, emit_kind, octet_class, emit_node, compile_rule,
}
use ft_irc.Grammar.Emit.Grown.{
  Targets, Grown, emit-Grown, patch-Grown, patch_all-Grown, emit_class-Grown, emit_literal-Grown,
  emit_split-Grown,
}

-- What the emitter gives from a program in order, if it gives a program.
abbrev Gives : ℕ → Result Program → Type 0
Gives size (done p) = Grown size p
Gives size other = Unit

Gives-bind :
    (size : ℕ) (r : Result Program) (next : Program → Result Program)
    → Gives size r
    → ((q : Program) → Grown size q → Gives size (next q))
    → Gives size (r >>= next)
Gives-bind size (done q) next g k = k q g
Gives-bind size (failed why) next g k = tt
Gives-bind size overflow next g k = tt
Gives-bind size out_of_fuel next g k = tt

abbrev Emits : Emitter → Type 0
Emits deeper = (size i : ℕ) (p : Program) → Grown size p → Gives size (deeper i p)

-- From the program's own length on, and back.
Grown-here : (size : ℕ) (p : Program) → Grown size p → Grown (here p) p
Grown-here size p g = record { targets = g.targets; longer = omega arith }

Grown-from : (size : ℕ) (p q : Program) → Grown size p → Grown (here p) q → Grown size q
Grown-from size p q g h = record { targets = h.targets; longer = omega (arith, g.longer, h.longer) }

module _ (deeper : Emitter) (emits : Emits deeper) where
  -- Emit, and know that the program has not become shorter.
  emits_from :
      (size i : ℕ) (p : Program) (next : Program → Result Program)
      → Grown size p
      → ((q : Program) → Grown size q → here p ≤ here q → Gives size (next q))
      → Gives size (deeper i p >>= next)
  emits_from size i p next g k = after (deeper i p) (emits (here p) i p (Grown-here size p g))
    where
      after : (r : Result Program) → Gives (here p) r → Gives size (r >>= next)
      after (done q) h = k q (Grown-from size p q g h) h.longer
      after (failed why) h = tt
      after overflow h = tt
      after out_of_fuel h = tt

  emit_body-Grown :
      (size i times : ℕ) (p : Program) → Grown size p → Gives size (emit_body deeper i times p)
  unfolding emit_body
  emit_body-Grown size i zero p g = g
  emit_body-Grown size i (suc times) p g =
      Gives-bind size (deeper i p) (emit_body deeper i times) (emits size i p g)
        (emit_body-Grown size i times)

  emit_sequence-Grown :
      (g : Grammar) (size first count : ℕ) (p : Program)
      → Grown size p
      → Gives size (emit_sequence deeper g first count p)
  unfolding emit_sequence
  emit_sequence-Grown g size first zero p h = h
  emit_sequence-Grown g size first (suc count) p h =
      Gives-bind size (deeper (child g first) p) (emit_sequence deeper g (suc first) count)
        (emits size (child g first) p h) (emit_sequence-Grown g size (suc first) count)

  emit_branches-Grown :
      (g : Grammar) (size first count : ℕ) (jumps : List ℕ) (p : Program)
      → Grown size p
      → Gives size (emit_branches deeper g first count jumps p)
  unfolding emit_branches
  emit_branches-Grown g size first zero jumps p h = (patch_all-Grown size jumps p h).0
  emit_branches-Grown g size first (suc zero) jumps p h =
      Gives-bind size (deeper (child g first) p) _ (emits size (child g first) p h)
        λ q k. (patch_all-Grown size jumps q k).0
  emit_branches-Grown g size first (suc (suc count)) jumps p h =
      Gives-bind size (deeper (child g first) (emit_split p)) _
        (emits size (child g first) (emit_split p) (emit_split-Grown size p h))
        λ q k.
          let jumped = emit Op.jump 0 0 q in
          emit_branches-Grown g size (suc first) (suc count) (jumps ++ here q ∷ [])
            (patch_y (here p) (here jumped) jumped)
            (patch-Grown size (here p) (here jumped) jumped (omega arith)
              (emit-Grown size Op.jump 0 0 q (omega arith) k).0).1

  emit_optional-Grown :
      (size i optional : ℕ) (exits : List ℕ) (p : Program)
      → Grown size p
      → Gives size (emit_optional deeper i optional exits p)
  unfolding emit_optional
  emit_optional-Grown size i zero exits p h = (patch_all-Grown size exits p h).1
  emit_optional-Grown size i (suc optional) exits p h =
      Gives-bind size (deeper i (emit_split p)) _
        (emits size i (emit_split p) (emit_split-Grown size p h))
        (emit_optional-Grown size i optional (exits ++ here p ∷ []))

  emit_loop-Grown : (size i : ℕ) (p : Program) → Grown size p → Gives size (emit_loop deeper i p)
  unfolding emit_loop
  emit_loop-Grown size i p h =
      emits_from size i (emit_split p) _ (emit_split-Grown size p h) λ q k longer.
        let jumped = emit Op.jump (here p) 0 q in
        let split_on =
          (emit-Grown size Op.split (suc (here p)) 0 p (omega arith, omega arith) h).1 in
        (patch-Grown size (here p) (here jumped) jumped (omega arith)
          (emit-Grown size Op.jump (here p) 0 q (omega (arith, split_on, longer)) k).0).1

  emit_repetition-Grown :
      (g : Grammar) (n : Node) (size : ℕ) (p : Program)
      → Grown size p
      → Gives size (emit_repetition deeper g n p)
  unfolding emit_repetition
  emit_repetition-Grown g n size p h =
      let inner = child g n.first in
      Gives-bind size (emit_body deeper inner n.lo p) _ (emit_body-Grown size inner n.lo p h) λ q k.
        Option_ind (Gives size) n.hi
          (λ _.
            Option_ind (Gives size) (has_capture g (walk_fuel g) inner) (λ _. tt)
              λ b _. Bool_ind (Gives size) b (λ _. tt) (λ _. emit_loop-Grown size inner q k))
          λ hi _.
            if_ind (Gives size) (ltb hi n.lo) (λ _. tt)
              λ _.
                if_ind (Gives size) (ltb unroll_limit (hi - n.lo)) (λ _. tt)
                  λ _. emit_optional-Grown size inner (hi - n.lo) [] q k

  emit_capture-Grown :
      (size root capture : ℕ) (p : Program)
      → Grown size p
      → Gives size (emit_capture deeper root capture p)
  unfolding emit_capture
  emit_capture-Grown size root capture p h =
      let slot = length p.slot_capture in
      let opened : Program = record p { slot_capture = p.slot_capture ++ capture ∷ [] } in
      let saved =
        (emit-Grown size Op.save (slot * 2) 0 opened tt
          (record { targets = h.targets; longer = h.longer })).0 in
      Gives-bind size (deeper root (emit Op.save (slot * 2) 0 opened)) _
        (emits size root (emit Op.save (slot * 2) 0 opened) saved)
        λ q k. (emit-Grown size Op.save (slot * 2 + 1) 0 q tt k).0

emit_reference-Grown :
    (inlined : Emitter) (g : Grammar) (compiling : List ℕ) (n : Node) (size : ℕ) (p : Program)
    → Emits inlined
    → Grown size p
    → Gives size (emit_reference inlined g compiling n p)
unfolding emit_reference
emit_reference-Grown inlined g compiling n size p emits h =
    Option_ind (Gives size) (rule_root g n.lo) (λ _. tt)
      λ root _.
        if_ind (Gives size) (listed n.lo compiling) (λ _. tt)
          λ _.
            Option_ind (Gives size) n.capture (λ _. emits size root p h)
              λ capture _. emit_capture-Grown inlined emits size root capture p h

emit_kind-Grown :
    (k : Kind) (deeper inlined : Emitter) (g : Grammar) (compiling : List ℕ) (n : Node) (size : ℕ)
    (p : Program)
    → Emits deeper
    → Emits inlined
    → Grown size p
    → Gives size (emit_kind k deeper inlined g compiling n p)
unfolding emit_kind
emit_kind-Grown Kind.octet_range deeper inlined g compiling n size p d e h =
    emit_class-Grown size (range_bits n no_bits) p h
emit_kind-Grown Kind.literal deeper inlined g compiling n size p d e h =
    emit_literal-Grown size (literal_text g n.literal) p h
emit_kind-Grown Kind.reference deeper inlined g compiling n size p d e h =
    emit_reference-Grown inlined g compiling n size p e h
emit_kind-Grown Kind.sequence deeper inlined g compiling n size p d e h =
    emit_sequence-Grown deeper d g size n.first n.count p h
emit_kind-Grown Kind.alternation deeper inlined g compiling n size p d e h =
    emit_branches-Grown deeper d g size n.first n.count [] p h
emit_kind-Grown Kind.repetition deeper inlined g compiling n size p d e h =
    emit_repetition-Grown deeper d g n size p h

emit_node-Emits : (g : Grammar) (fuel : ℕ) (compiling : List ℕ) → Emits (emit_node g fuel compiling)
unfolding emit_node
emit_node-Emits g zero compiling size i p h = tt
emit_node-Emits g (suc fuel) compiling size i p h =
    Option_ind (Gives size) (octet_class g i)
      (λ _.
        emit_kind-Grown (node g i).kind (emit_node g fuel compiling)
          (emit_node g fuel ((node g i).lo ∷ compiling)) g compiling (node g i) size p
          (emit_node-Emits g fuel compiling) (emit_node-Emits g fuel ((node g i).lo ∷ compiling)) h)
      λ bits _. emit_class-Grown size bits p h

-- The code ends with the instruction that ends a match, and its targets are before its end.
pub record Closed (p : Program) : Type 0 where
  pub body : List Instruction
  pub ended : p.code ≡ body ++ instruction Op.match 0 0 ∷ []
  pub inside : All (Targets (length body)) body

-- In the program that the compiled matcher makes of a rule the last instruction ends a match, and
-- every target of a jump or a split before it, those that are patched later included, is an
-- instruction of the program.
pub compile_rule-Closed :
    (g : Grammar) (rule : ℕ) (p : Program) → compile_rule g rule ≡ done p → Closed p
unfolding compile_rule emit
compile_rule-Closed g rule p e = elim (Option-cases (rule_root g rule)) [
  | inl q ↦ absurd (ground arith)
  | inr (root, q) ↦
      after (emit_node g (walk_fuel g) [] root empty_program)
        (emit_node-Emits g (walk_fuel g) [] 0 root empty_program
          (record { targets = tt; longer = omega arith }))
        (rw (q, compile_rule) at e)
]
  where
    after :
        (r : Result Program)
        → Gives 0 r
        → (r >>= λ (q : Program). done (emit Op.match 0 0 q)) ≡ done p
        → Closed p
    after (done q) h same =
        let code : p.code ≡ q.code ++ instruction Op.match 0 0 ∷ [] = ground arith in
        record { body = q.code; ended = code; inside = h.targets }
    after (failed why) h same = absurd (ground arith)
    after overflow h same = absurd (ground arith)
    after out_of_fuel h same = absurd (ground arith)
