-- ===== src/Grammar/Emit/Grown.antt =====
-- src/grammar/compiled/ProgramCompiler.cpp: emitting and patching instructions keeps the targets of a
-- program inside it.
use ft_irc.Prelude.{
  Bytes, ℕ, zero, suc, ◌≤◌, ◌≡◌, refl, sym, subst, List, [], ◌∷◌, ◌++◌, arith, Option_ind, length,
  update_at, length-append, All, All-append, All-mono,
}
use ft_irc.Grammar.Program.{Bits, no_bits, Op, Instruction, Program}
use ft_irc.Grammar.Emit.{
  instruction, emit, patch_x, patch_y, here, class_index, emit_class, set_folded, patch_all_x,
  patch_all_y, emit_split, emit_literal,
}

-- While a program is being emitted a target may be the next instruction.
abbrev pub TargetsAt : ℕ → Op → Instruction → Type 0
TargetsAt size Op.split i = (i.x ≤ size) × (i.y ≤ size)
TargetsAt size Op.jump i = i.x ≤ size
TargetsAt size Op.class i = Unit
TargetsAt size Op.save i = Unit
TargetsAt size Op.match i = Unit

abbrev pub Targets : ℕ → Instruction → Type 0
Targets size i = TargetsAt size i.op i

pub TargetsAt-more :
    (m n : ℕ) (op : Op) (i : Instruction) → m ≤ n → TargetsAt m op i → TargetsAt n op i
TargetsAt-more m n Op.split i l h = (omega arith, omega arith)
TargetsAt-more m n Op.jump i l h = omega arith
TargetsAt-more m n Op.class i l h = tt
TargetsAt-more m n Op.save i l h = tt
TargetsAt-more m n Op.match i l h = tt

TargetsAt-patched :
    (n x y : ℕ) (op : Op) (i : Instruction)
    → x ≤ n
    → y ≤ n
    → TargetsAt n op i
    → TargetsAt n op (record i { x = x }) × TargetsAt n op (record i { y = y })
TargetsAt-patched n x y Op.split i p q h = ((p, h.1), (h.0, q))
TargetsAt-patched n x y Op.jump i p q h = (p, h)
TargetsAt-patched n x y Op.class i p q h = (tt, tt)
TargetsAt-patched n x y Op.save i p q h = (tt, tt)
TargetsAt-patched n x y Op.match i p q h = (tt, tt)

All-updated :
    {A : Type 0} (P : A → Type 0) (f : A → A) (i : ℕ) (xs : List A)
    → ((x : A) → P x → P (f x))
    → All P xs
    → All P (update_at i f xs)
All-updated P f i [] k h = tt
All-updated P f zero (x ∷ xs) k h = (k x h.0, h.1)
All-updated P f (suc i) (x ∷ xs) k h = (h.0, All-updated P f i xs k h.1)

length-updated :
    {A : Type 0} (f : A → A) (i : ℕ) (xs : List A) → length (update_at i f xs) ≡ length xs
length-updated f i [] = refl
length-updated f zero (x ∷ xs) = refl
length-updated f (suc i) (x ∷ xs) = omega (arith, length-updated f i xs)

-- The code has grown, and its targets are in order.
pub record Grown (size : ℕ) (p : Program) : Type 0 where
  pub targets : All (Targets (here p)) p.code
  pub longer : size ≤ here p

pub emit-Grown :
    (size : ℕ) (op : Op) (x y : ℕ) (p : Program)
    → TargetsAt (suc (here p)) op (instruction op x y)
    → Grown size p
    → Grown size (emit op x y p) × (here (emit op x y p) ≡ suc (here p))
unfolding emit
emit-Grown size op x y p t g =
    let len = length-append p.code (instruction op x y ∷ []) in
    let now : here (emit op x y p) ≡ suc (here p) = omega (arith, len) in
    (
      record {
        targets =
            All-append (Targets (here (emit op x y p))) p.code (instruction op x y ∷ [])
              (All-mono (Targets (here p)) (Targets (here (emit op x y p))) p.code
                (λ i. TargetsAt-more (here p) (here (emit op x y p)) i.op i (omega (arith, now)))
                g.targets)
              (subst (λ n. TargetsAt n op (instruction op x y)) (sym now) t, tt);
        longer = omega (arith, now, g.longer);
      },
      now,
    )

pub patch-Grown :
    (size pc target : ℕ) (p : Program)
    → target ≤ here p
    → Grown size p
    → Grown size (patch_x pc target p) × Grown size (patch_y pc target p)
unfolding patch_x patch_y
patch-Grown size pc target p h g =
    let set_x = λ (i : Instruction). record i { x = target } in
    let set_y = λ (i : Instruction). record i { y = target } in
    let both = λ (i : Instruction) (t : Targets (here p) i).
      TargetsAt-patched (here p) target target i.op i h h t in
    (
      record {
        targets =
            subst (λ n. All (Targets n) (update_at pc set_x p.code))
              (sym (length-updated set_x pc p.code))
              (All-updated (Targets (here p)) set_x pc p.code (λ i t. (both i t).0) g.targets);
        longer = omega (arith, length-updated set_x pc p.code, g.longer);
      },
      record {
        targets =
            subst (λ n. All (Targets n) (update_at pc set_y p.code))
              (sym (length-updated set_y pc p.code))
              (All-updated (Targets (here p)) set_y pc p.code (λ i t. (both i t).1) g.targets);
        longer = omega (arith, length-updated set_y pc p.code, g.longer);
      },
    )

pub patch_all-Grown :
    (size : ℕ) (pcs : List ℕ) (p : Program)
    → Grown size p
    → Grown size (patch_all_x pcs p) × Grown size (patch_all_y pcs p)
unfolding patch_all_x patch_all_y
patch_all-Grown size [] p g = (g, g)
patch_all-Grown size (pc ∷ pcs) p g =
    let (x, y) = patch-Grown size pc (here p) p (omega arith) g in
    (
      (patch_all-Grown size pcs (patch_x pc (here p) p) x).0,
      (patch_all-Grown size pcs (patch_y pc (here p) p) y).1,
    )

pub emit_class-Grown :
    (size : ℕ) (bits : Bits) (p : Program) → Grown size p → Grown size (emit_class bits p)
unfolding emit_class
emit_class-Grown size bits p g =
    Option_ind (Grown size) (class_index bits p.classes)
      (λ _.
        (emit-Grown size Op.class (length p.classes) 0
          (record p { classes = p.classes ++ bits ∷ [] }) tt
          (record { targets = g.targets; longer = g.longer })).0)
      λ i _. (emit-Grown size Op.class i 0 p tt g).0

pub emit_literal-Grown :
    (size : ℕ) (s : Bytes) (p : Program) → Grown size p → Grown size (emit_literal s p)
unfolding emit_literal
emit_literal-Grown size [] p g = g
emit_literal-Grown size (c ∷ s) p g =
    emit_literal-Grown size s (emit_class (set_folded c no_bits) p) (emit_class-Grown size _ p g)

pub emit_split-Grown : (size : ℕ) (p : Program) → Grown size p → Grown size (emit_split p)
emit_split-Grown size p g =
    (emit-Grown size Op.split (suc (here p)) 0 p (omega arith, omega arith) g).0
