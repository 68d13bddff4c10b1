-- ===== src/Grammar/Tree/Sound/Continue.antt =====
-- matchContinuation and the branches of matchNode in src/grammar/interpreted/TreeMatcher.cpp.
use ft_irc.Prelude.{
  Bytes, ℕ, zero, suc, ◌+◌, ◌-◌, ◌≡◌, refl, sym, ap, subst, ◌∙◌, Bool, true, false, [], ◌∷◌, arith,
  ◌==◌, ==_iff, length,
}
use ft_irc.Grammar.Rules.{Grammar, Kind, node, child}
use ft_irc.Grammar.Derivation.{Derives, substr}
use ft_irc.Grammar.Walk.{
  Continuation, push_capture, pop_capture, with_found, restored, Walk, run_node, sequence_at,
  repeat_at, close_capture,
}
use ft_irc.Grammar.Tree.{
  Deeper, match_sequence, match_repetition, match_continuation, match_branches,
}
use ft_irc.Grammar.Tree.Follow.{
  Follows, Outcome, Outcome-mono, Outcome-or_else, Outcome-unless_exhausted,
}
use ft_irc.Grammar.Tree.Sound.Restored.{Paired, push_capture-Paired, pop-push}
use ft_irc.Grammar.Tree.Sound.Steps.{IsSoundOnward, IsSoundDeeper, match_sequence-Outcome}
use ft_irc.Grammar.Tree.Sound.Repeated.{match_repetition-Outcome}

module _ (g : Grammar) (line : Bytes) where
  restored-Outcome :
      (slot start i : ℕ) (next : Continuation) (w : Walk) (r : Bool × Walk)
      → Paired w.found
      → Outcome
          (Follows g line next i)
          (push_capture slot (substr start (i - start) line) w.found)
          r
      → Outcome
          (Follows g line (close_capture slot start ∷ next) i)
          w.found
          (restored slot w.found r)
  restored-Outcome slot start i next w (true, v) p (cs, f, e) =
      ((slot, substr start (i - start) line) ∷ cs, (cs, f, refl), e)
  restored-Outcome slot start i next w (false, v) p e =
      ap (pop_capture slot w.found) e ∙ pop-push slot (substr start (i - start) line) w.found p

  pub match_continuation-Outcome :
      (deeper : Deeper) (next : Continuation)
      → IsSoundDeeper g line deeper
      → IsSoundOnward g line next (match_continuation g line deeper next)
  unfolding match_continuation
  match_continuation-Outcome deeper [] d i w p =
      Outcome-unless_exhausted (Follows g line [] i) w.found w (λ w. (i == length line, w)) refl
        (whole (i == length line) refl)
    where
      whole : (b : Bool) → i == length line ≡ b → Outcome (Follows g line [] i) w.found (b, w)
      whole true e = ([], ((==_iff i (length line)).0 e, refl), refl)
      whole false e = refl
  match_continuation-Outcome deeper (run_node n ∷ next) d i w p =
      Outcome-unless_exhausted (Follows g line (run_node n ∷ next) i) w.found w
        (λ w. deeper n i next w) refl (d n i next w p)
  match_continuation-Outcome deeper (sequence_at n k ∷ next) d i w p =
      let onward = match_continuation g line deeper next in
      Outcome-unless_exhausted (Follows g line (sequence_at n k ∷ next) i) w.found w
        (λ w. match_sequence g line deeper onward n k i next w) refl
        (match_sequence-Outcome g line deeper onward n k i next w d
          (match_continuation-Outcome deeper next d) p)
  match_continuation-Outcome deeper (repeat_at n k start ∷ next) d i w p =
      let onward = match_continuation g line deeper next in
      Outcome-unless_exhausted (Follows g line (repeat_at n k start ∷ next) i) w.found w
        (λ w. match_repetition g line deeper onward n k start i next w) refl
        (match_repetition-Outcome g line deeper onward n k start i next w d
          (match_continuation-Outcome deeper next d) p)
  match_continuation-Outcome deeper (close_capture slot start ∷ next) d i w p =
      let bytes = substr start (i - start) line in
      let pushed = with_found (push_capture slot bytes w.found) w in
      let onward = match_continuation g line deeper next in
      Outcome-unless_exhausted (Follows g line (close_capture slot start ∷ next) i) w.found w
        (λ w.
          restored slot w.found
            (onward i (with_found (push_capture slot (substr start (i - start) line) w.found) w)))
        refl
        (restored-Outcome slot start i next w (onward i pushed) p (
          match_continuation-Outcome deeper next d i pushed
            (push_capture-Paired slot bytes w.found p)))

  pub match_branches-Outcome :
      (deeper : Deeper) (n k count i : ℕ) (next : Continuation) (w : Walk)
      → IsSoundDeeper g line deeper
      → (node g n).kind ≡ Kind.alternation
      → k + count ≡ (node g n).count
      → Paired w.found
      → Outcome
          (Follows g line (run_node n ∷ next) i)
          w.found
          (match_branches g line deeper ((node g n).first + k) count i next w)
  unfolding match_branches
  match_branches-Outcome deeper n k zero i next w d q e p = refl
  match_branches-Outcome deeper n k (suc count) i next w d q e p =
      let P = Follows g line (run_node n ∷ next) i in
      let c = child g ((node g n).first + k) in
      Outcome-or_else P w.found _
        (λ v. match_branches g line deeper (suc ((node g n).first + k)) count i next v)
        (Outcome-mono (Follows g line (run_node c ∷ next) i) P w.found _
          (λ cs t. record {
            stop = t.stop;
            inner = t.inner;
            outer = t.outer;
            part = Derives.branch q (omega arith) t.part;
            after = t.after;
            split = t.split;
          })
          (d c i next w p))
        λ v f.
          subst
            (λ u.
              Outcome P u
                (match_branches g line deeper (suc ((node g n).first + k)) count i next v))
            f
            (subst (λ m. Outcome P v.found (match_branches g line deeper m count i next v))
              (omega arith)
              (match_branches-Outcome deeper n (suc k) count i next v d q (omega arith)
                (subst Paired (sym f) p)))
