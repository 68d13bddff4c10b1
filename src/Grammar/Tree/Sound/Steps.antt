-- ===== src/Grammar/Tree/Sound/Steps.antt =====
-- matchSequence and matchRepetition of src/grammar/interpreted/TreeMatcher.cpp: each goes on soundly
-- where the calls that it makes do.
use ft_irc.Prelude.{
  Bytes, ℕ, suc, ◌+◌, ◌-◌, ◌<◌, ◌≡◌, refl, subst, true, List, [], ◌∷◌, ◌++◌, append_assoc, arith,
  leb, if_ind,
}
use ft_irc.Grammar.Rules.{Grammar, node, child}
use ft_irc.Grammar.Derivation.{Capture, Each, Times}
use ft_irc.Grammar.Walk.{Continuation, Walk, run_node, sequence_at, repeat_at}
use ft_irc.Grammar.Tree.{Deeper, Onward, can_repeat, stop_repeating, match_sequence}
use ft_irc.Grammar.Tree.Follow.{Follows, AtMostMore-suc, AtMostMore-zero, Outcome, Outcome-mono}
use ft_irc.Grammar.Tree.Sound.Restored.{Paired}

module _ (g : Grammar) (line : Bytes) where
  -- A call goes on soundly: it succeeds with what follows, or leaves the walk's captures alone.
  abbrev pub IsSoundOnward : Continuation → Onward → Type 0
  IsSoundOnward next onward =
      (i : ℕ) (w : Walk) → Paired w.found → Outcome (Follows g line next i) w.found (onward i w)

  abbrev pub IsSoundDeeper : Deeper → Type 0
  IsSoundDeeper deeper =
      (n i : ℕ) (next : Continuation) (w : Walk)
      → Paired w.found
      → Outcome (Follows g line (run_node n ∷ next) i) w.found (deeper n i next w)

  pub each_first :
      (n k i : ℕ) (next : Continuation) (cs : List Capture)
      → k < (node g n).count
      → Follows g line
          (run_node (child g ((node g n).first + k)) ∷ sequence_at n (k + 1) ∷ next)
          i
          cs
      → Follows g line (sequence_at n k ∷ next) i cs
  each_first n k i next cs h t =
      let r = t.after in
      let rest : Each g line (suc ((node g n).first + k)) ((node g n).count - (k + 1)) t.stop r.stop
          r.inner =
        subst (λ f. Each g line f ((node g n).count - (k + 1)) t.stop r.stop r.inner) (omega arith)
          r.part in
      record {
        stop = r.stop;
        inner = t.inner ++ r.inner;
        outer = r.outer;
        part =
            subst (λ c. Each g line ((node g n).first + k) c i r.stop (t.inner ++ r.inner))
              (omega arith) (Each.each_next t.part rest refl);
        after = r.after;
        split = simp (t.split, r.split, append_assoc);
      }

  pub match_sequence-Outcome :
      (deeper : Deeper) (onward : Onward) (n k i : ℕ) (next : Continuation) (w : Walk)
      → IsSoundDeeper deeper
      → IsSoundOnward next onward
      → Paired w.found
      → Outcome
          (Follows g line (sequence_at n k ∷ next) i)
          w.found
          (match_sequence g line deeper onward n k i next w)
  unfolding match_sequence
  match_sequence-Outcome deeper onward n k i next w d o p =
      if_ind (Outcome (Follows g line (sequence_at n k ∷ next) i) w.found) (leb (node g n).count k)
        (λ done.
          Outcome-mono (Follows g line next i) (Follows g line (sequence_at n k ∷ next) i) w.found _
            (λ cs f. record {
              stop = i;
              inner = [];
              outer = cs;
              part =
                  subst (λ c. Each g line ((node g n).first + k) c i i []) (ground arith)
                    Each.each_done;
              after = f;
              split = refl;
            })
            (o i w p))
        (λ more.
          Outcome-mono
            (Follows g line
              (run_node (child g ((node g n).first + k)) ∷ sequence_at n (k + 1) ∷ next) i)
            (Follows g line (sequence_at n k ∷ next) i) w.found _
            (λ cs. each_first n k i next cs (ground arith))
            (d (child g ((node g n).first + k)) i (sequence_at n (k + 1) ∷ next) w p))

  -- The rest of a repetition, behind one more match of the child.
  pub times_first :
      (n k i start : ℕ) (next : Continuation) (cs : List Capture)
      → can_repeat (node g n) k start i ≡ true
      → Follows g line (run_node (child g (node g n).first) ∷ repeat_at n (k + 1) i ∷ next) i cs
      → Follows g line (repeat_at n k start ∷ next) i cs
  unfolding can_repeat
  times_first n k i start next cs h t =
      let r = t.after in
      record {
        stop = r.stop;
        inner = t.inner ++ r.inner;
        outer = r.outer;
        part = record {
          more = suc r.part.more;
          times = Times.once_more t.part r.part.times refl;
          enough = omega (arith, r.part.enough);
          few = AtMostMore-suc r.part.more k (node g n).hi _ h r.part.few;
        };
        after = r.after;
        split = simp (t.split, r.split, append_assoc);
      }

  pub stop_repeating-Outcome :
      (onward : Onward) (n k i start : ℕ) (next : Continuation) (w : Walk)
      → IsSoundOnward next onward
      → Paired w.found
      → Outcome
          (Follows g line (repeat_at n k start ∷ next) i)
          w.found
          (stop_repeating onward (node g n) k i w)
  unfolding stop_repeating
  stop_repeating-Outcome onward n k i start next w o p =
      if_ind (Outcome (Follows g line (repeat_at n k start ∷ next) i) w.found) (leb (node g n).lo k)
        (λ enough.
          Outcome-mono (Follows g line next i) (Follows g line (repeat_at n k start ∷ next) i)
            w.found _
            (λ cs f. record {
              stop = i;
              inner = [];
              outer = cs;
              part = record {
                more = 0;
                times = Times.no_times;
                enough = ground arith;
                few = AtMostMore-zero k (node g n).hi;
              };
              after = f;
              split = refl;
            })
            (o i w p))
        (λ _. refl)
