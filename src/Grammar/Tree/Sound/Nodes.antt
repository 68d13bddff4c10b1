-- ===== src/Grammar/Tree/Sound/Nodes.antt =====
-- matchNode of src/grammar/interpreted/TreeMatcher.cpp.
use ft_irc.Prelude.{
  Bytes, ℕ, zero, suc, ◌+◌, ◌-◌, ◌≡◌, refl, subst, inl, inr, false, ◌&&◌, List, [], ◌∷◌, ◌++◌,
  append_assoc, arith, ltb, leb, if◌then◌else◌, leb→le, Option-cases, if_ind, &&_true, Option_ind,
  length, get_elem?, drop,
}
use ft_irc.Grammar.Rules.{Grammar, Kind, node, rule_root, literal_text}
use ft_irc.Grammar.Derivation.{Capture, Derives, substr, folded_prefix, Each}
use ft_irc.Grammar.Tree.Octets.{in_range}
use ft_irc.Grammar.Walk.{
  Continuation, exhaust, add_steps, Walk, run_node, sequence_at, repeat_at, close_capture,
}
use ft_irc.Grammar.Tree.{
  max_steps, Deeper, Onward, match_continuation, match_branches, match_literal, match_range,
  match_reference, match_kind, match_node,
}
use ft_irc.Grammar.Tree.Follow.{
  Follows, AtMostMore→AtMost, Outcome, Outcome-mono, Outcome-unless_exhausted,
}
use ft_irc.Grammar.Tree.Sound.Continue.{match_continuation-Outcome, match_branches-Outcome}
use ft_irc.Grammar.Tree.Sound.Restored.{Paired}
use ft_irc.Grammar.Tree.Sound.Steps.{IsSoundOnward, IsSoundDeeper, match_sequence-Outcome}
use ft_irc.Grammar.Tree.Sound.Repeated.{match_repetition-Outcome}

module _ (g : Grammar) (line : Bytes) where
  match_literal-Outcome :
      (onward : Onward) (n i : ℕ) (next : Continuation) (w : Walk)
      → IsSoundOnward g line next onward
      → (node g n).kind ≡ Kind.literal
      → Paired w.found
      → Outcome
          (Follows g line (run_node n ∷ next) i)
          w.found
          (match_literal g line onward (node g n) i w)
  unfolding match_literal
  match_literal-Outcome onward n i next w o q p =
      let P = Follows g line (run_node n ∷ next) i in
      let bytes = literal_text g (node g n).literal in
      if_ind (Outcome P w.found)
        (leb (i + length bytes) (length line) && folded_prefix bytes (drop i line))
        (λ both.
          let (fits, same) =
            &&_true (leb (i + length bytes) (length line)) (folded_prefix bytes (drop i line))
              both in
          Outcome-mono (Follows g line next (i + length bytes)) P w.found _
            (λ cs f. record {
              stop = i + length bytes;
              inner = [];
              outer = cs;
              part = Derives.literal q refl (leb→le (i + length bytes) (length line) fits) same;
              after = f;
              split = refl;
            })
            (o (i + length bytes) w p))
        λ _. refl

  match_range-Outcome :
      (onward : Onward) (n i : ℕ) (next : Continuation) (w : Walk)
      → IsSoundOnward g line next onward
      → (node g n).kind ≡ Kind.octet_range
      → Paired w.found
      → Outcome
          (Follows g line (run_node n ∷ next) i)
          w.found
          (match_range g line onward (node g n) i w)
  unfolding match_range in_range
  match_range-Outcome onward n i next w o q p =
      let P = Follows g line (run_node n ∷ next) i in
      Option_ind (Outcome P w.found) (get_elem? line i) (λ _. refl)
        λ c here.
          if_ind (Outcome P w.found) (in_range (node g n) c)
            (λ inside. elim (Option-cases (node g n).hi) [
              | inl none_hi ↦ absurd (ground arith)
              | inr (hi, some_hi) ↦
                  Outcome-mono (Follows g line next (suc i)) P w.found _
                    (λ cs f. record {
                      stop = suc i;
                      inner = [];
                      outer = cs;
                      part = Derives.octet q some_hi here (ground arith) (ground arith);
                      after = f;
                      split = refl;
                    })
                    (o (suc i) w p)
            ])
            λ _. refl

  match_reference-Outcome :
      (deeper : Deeper) (n i : ℕ) (next : Continuation) (w : Walk)
      → IsSoundDeeper g line deeper
      → (node g n).kind ≡ Kind.reference
      → Paired w.found
      → Outcome
          (Follows g line (run_node n ∷ next) i)
          w.found
          (match_reference g line deeper (node g n) i next w)
  unfolding match_reference
  match_reference-Outcome deeper n i next w d q p =
      let P = Follows g line (run_node n ∷ next) i in
      Option_ind (Outcome P w.found) (rule_root g (node g n).lo) (λ _. refl)
        λ root some_root.
          Option_ind (Outcome P w.found) (node g n).capture
            (λ no_slot.
              Outcome-mono (Follows g line (run_node root ∷ next) i) P w.found _
                (λ cs t. record {
                  stop = t.stop;
                  inner = t.inner;
                  outer = t.outer;
                  part = Derives.reference q no_slot some_root t.part;
                  after = t.after;
                  split = t.split;
                })
                (d root i next w p))
            λ slot some_slot.
              Outcome-mono (Follows g line (run_node root ∷ close_capture slot i ∷ next) i) P
                w.found _
                (λ cs t.
                  let (ds, later, e) = t.after in
                  record {
                    stop = t.stop;
                    inner = t.inner ++ (slot, substr i (t.stop - i) line) ∷ [];
                    outer = ds;
                    part = Derives.captured q some_slot some_root t.part refl;
                    after = later;
                    split = simp (t.split, e, append_assoc);
                  })
                (d root i (close_capture slot i ∷ next) w p)

  Each-all :
      (n i j : ℕ) (cs : List Capture)
      → Each g line ((node g n).first + 0) ((node g n).count - 0) i j cs
      → Each g line (node g n).first (node g n).count i j cs
  Each-all n i j cs e =
      subst (λ f. Each g line f (node g n).count i j cs) (omega arith)
        (subst (λ c. Each g line ((node g n).first + 0) c i j cs) (omega arith) e)

  match_kind-Outcome :
      (deeper : Deeper) (n i : ℕ) (next : Continuation) (w : Walk) (k : Kind)
      → IsSoundDeeper g line deeper
      → (node g n).kind ≡ k
      → Paired w.found
      → Outcome
          (Follows g line (run_node n ∷ next) i)
          w.found
          (match_kind g line k deeper n i next w)
  unfolding match_kind
  match_kind-Outcome deeper n i next w Kind.literal d q p =
      match_literal-Outcome (match_continuation g line deeper next) n i next w
        (match_continuation-Outcome g line deeper next d) q p
  match_kind-Outcome deeper n i next w Kind.octet_range d q p =
      match_range-Outcome (match_continuation g line deeper next) n i next w
        (match_continuation-Outcome g line deeper next d) q p
  match_kind-Outcome deeper n i next w Kind.reference d q p =
      match_reference-Outcome deeper n i next w d q p
  match_kind-Outcome deeper n i next w Kind.sequence d q p =
      Outcome-mono (Follows g line (sequence_at n 0 ∷ next) i)
        (Follows g line (run_node n ∷ next) i) w.found _
        (λ cs t. record {
          stop = t.stop;
          inner = t.inner;
          outer = t.outer;
          part = Derives.sequence q (Each-all n i t.stop t.inner t.part);
          after = t.after;
          split = t.split;
        })
        (match_sequence-Outcome g line deeper (match_continuation g line deeper next) n 0 i next w d
          (match_continuation-Outcome g line deeper next d) p)
  match_kind-Outcome deeper n i next w Kind.alternation d q p =
      subst
        (λ m.
          Outcome (Follows g line (run_node n ∷ next) i) w.found
            (match_branches g line deeper m (node g n).count i next w))
        (omega arith)
        (match_branches-Outcome g line deeper n 0 (node g n).count i next w d q (omega arith) p)
  match_kind-Outcome deeper n i next w Kind.repetition d q p =
      Outcome-mono (Follows g line (repeat_at n 0 i ∷ next) i)
        (Follows g line (run_node n ∷ next) i) w.found _
        (λ cs t. record {
          stop = t.stop;
          inner = t.inner;
          outer = t.outer;
          part =
              Derives.repetition q (omega (arith, t.part.enough))
                (AtMostMore→AtMost t.part.more (node g n).hi t.part.few) t.part.times;
          after = t.after;
          split = t.split;
        })
        (match_repetition-Outcome g line deeper (match_continuation g line deeper next) n 0 i i next
          w d (match_continuation-Outcome g line deeper next d) p)

  pub match_node-Outcome : (left : ℕ) → IsSoundDeeper g line (match_node g line left)
  unfolding match_node
  match_node-Outcome zero n i next w p =
      Outcome-unless_exhausted (Follows g line (run_node n ∷ next) i) w.found w
        (λ w. (false, exhaust (add_steps 1 w))) refl refl
  match_node-Outcome (suc left) n i next w p =
      let P = Follows g line (run_node n ∷ next) i in
      Outcome-unless_exhausted P w.found w
        (λ w.
          if ltb max_steps (w.steps + 1)
          then (false, exhaust (add_steps 1 w))
          else match_kind g line (node g n).kind (match_node g line left) n i next (add_steps 1 w))
        refl
        (if_ind (Outcome P w.found) (ltb max_steps (w.steps + 1)) (λ _. refl)
          λ _.
            match_kind-Outcome (match_node g line left) n i next (add_steps 1 w) (node g n).kind
              (match_node-Outcome left) refl p)
