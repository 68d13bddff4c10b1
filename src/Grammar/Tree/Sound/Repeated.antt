-- ===== src/Grammar/Tree/Sound/Repeated.antt =====
-- matchRepetition of src/grammar/interpreted/TreeMatcher.cpp, with its path for single octets.
use ft_irc.Prelude.{
  Bytes, ℕ, zero, suc, ◌+◌, ◌-◌, ◌≤◌, ◌≡◌, refl, sym, subst, true, ◌&&◌, Option, none, some, List,
  [], ◌∷◌, arith, ltb, ◌==◌, ==_iff, if_ind, &&_true, length, drop,
}
use ft_irc.Grammar.Rules.{Grammar, node, child}
use ft_irc.Grammar.Derivation.{Capture, Times}
use ft_irc.Grammar.Tree.Octets.{octet_fuel, is_single_octet, count_octets}
use ft_irc.Grammar.Walk.{Continuation, add_steps, Walk, run_node, repeat_at}
use ft_irc.Grammar.Tree.{
  max_steps, Deeper, Onward, give_back, can_repeat, stop_repeating, match_octets, next_round,
  match_repetition,
}
use ft_irc.Grammar.Tree.Follow.{
  AtMostMore, Follows, Outcome, Outcome-mono, Outcome-or_else, Outcome-unless_exhausted,
}
use ft_irc.Grammar.Tree.Sound.Restored.{Paired}
use ft_irc.Grammar.Tree.Sound.Octets.{count_octets-Times}
use ft_irc.Grammar.Tree.Sound.Steps.{
  IsSoundOnward, IsSoundDeeper, times_first, stop_repeating-Outcome,
}

give_back-Outcome :
    (P : List Capture → Type 0) (onward : Onward) (pos extra : ℕ) (w : Walk)
    → ((m : ℕ) (w : Walk) → m ≤ extra → Paired w.found → Outcome P w.found (onward (pos + m) w))
    → Paired w.found
    → Outcome P w.found (give_back onward pos extra w)
unfolding give_back
give_back-Outcome P onward pos zero w o p =
    subst (λ j. Outcome P w.found (onward j w)) (omega arith) (o 0 w (omega arith) p)
give_back-Outcome P onward pos (suc extra) w o p =
    Outcome-or_else P w.found (onward (pos + suc extra) w) _ (o (suc extra) w (omega arith) p)
      λ v e.
        subst (λ f. Outcome P f (give_back onward pos extra v)) e
          (give_back-Outcome P onward pos extra v (λ m u h. o m u (omega arith))
            (subst Paired (sym e) p))

count_octets-le-most : (g : Grammar) (i most : ℕ) (rest : Bytes) → count_octets g i most rest ≤ most
unfolding count_octets
count_octets-le-most g i zero rest = omega arith
count_octets-le-most g i (suc most) [] = omega arith
count_octets-le-most g i (suc most) (c ∷ rest) = ground (arith, count_octets-le-most g i most rest)

AtMostMore-most :
    (m size : ℕ) (o : Option ℕ)
    → m ≤ elim o as (λ _. ℕ) [ none ↦ size | some hi ↦ hi ]
    → AtMostMore m 0 o
AtMostMore-most m size none h = tt
AtMostMore-most m size (some hi) h = omega arith

module _ (g : Grammar) (line : Bytes) where
  match_octets-Outcome :
      (onward : Onward) (n i start : ℕ) (next : Continuation) (w : Walk)
      → is_single_octet g (octet_fuel g) (child g (node g n).first) ≡ true
      → IsSoundOnward g line next onward
      → Paired w.found
      → Outcome
          (Follows g line (repeat_at n 0 start ∷ next) i)
          w.found
          (match_octets g line onward (node g n) i w)
  unfolding match_octets
  match_octets-Outcome onward n i start next w single o p =
      let P = Follows g line (repeat_at n 0 start ∷ next) i in
      let c = child g (node g n).first in
      let most : ℕ = elim (node g n).hi as (λ _. ℕ) [ none ↦ length line | some hi ↦ hi ] in
      let taken = count_octets g c most (drop i line) in
      let v = add_steps taken w in
      if_ind (Outcome P w.found) (ltb max_steps v.steps) (λ _. refl)
        λ _.
          if_ind (Outcome P w.found) (ltb taken (node g n).lo) (λ _. refl)
            λ enough.
              give_back-Outcome P onward (i + (node g n).lo) (taken - (node g n).lo) v
                (λ m u h q.
                  Outcome-mono (Follows g line next (i + (node g n).lo + m)) P u.found _
                    (λ cs f. record {
                      stop = i + (node g n).lo + m;
                      inner = [];
                      outer = cs;
                      part = record {
                        more = (node g n).lo + m;
                        times =
                            subst (λ j. Times g line c ((node g n).lo + m) i j []) (omega arith)
                              (count_octets-Times g line c most i ((node g n).lo + m) (drop i line)
                                single refl (ground arith));
                        enough = omega arith;
                        few =
                            AtMostMore-most ((node g n).lo + m) (length line) (node g n).hi
                              (ground (arith, count_octets-le-most g c most (drop i line)));
                      };
                      after = f;
                      split = refl;
                    })
                    (o (i + (node g n).lo + m) u q))
                p

  next_round-Outcome :
      (deeper : Deeper) (onward : Onward) (n k start i : ℕ) (next : Continuation) (w : Walk)
      → IsSoundDeeper g line deeper
      → IsSoundOnward g line next onward
      → Paired w.found
      → Outcome
          (Follows g line (repeat_at n k start ∷ next) i)
          w.found
          (next_round g line deeper onward n k start i next w)
  unfolding next_round
  next_round-Outcome deeper onward n k start i next w d o p =
      let P = Follows g line (repeat_at n k start ∷ next) i in
      let c = child g (node g n).first in
      if_ind (Outcome P w.found) (k == 0 && is_single_octet g (octet_fuel g) c)
        (λ octets.
          let (zeroth, single) = &&_true (k == 0) (is_single_octet g (octet_fuel g) c) octets in
          subst
            (λ k.
              Outcome (Follows g line (repeat_at n k start ∷ next) i) w.found
                (match_octets g line onward (node g n) i w))
            (sym ((==_iff k 0).0 zeroth)) (match_octets-Outcome onward n i start next w single o p))
        λ _.
          if_ind (Outcome P w.found) (can_repeat (node g n) k start i)
            (λ again.
              Outcome-or_else P w.found _ (stop_repeating onward (node g n) k i)
                (Outcome-mono (Follows g line (run_node c ∷ repeat_at n (k + 1) i ∷ next) i) P
                  w.found _ (λ cs. times_first g line n k i start next cs again)
                  (d c i (repeat_at n (k + 1) i ∷ next) w p))
                λ v e.
                  subst (λ f. Outcome P f (stop_repeating onward (node g n) k i v)) e
                    (stop_repeating-Outcome g line onward n k i start next v o
                      (subst Paired (sym e) p)))
            λ _. stop_repeating-Outcome g line onward n k i start next w o p

  pub match_repetition-Outcome :
      (deeper : Deeper) (onward : Onward) (n k start i : ℕ) (next : Continuation) (w : Walk)
      → IsSoundDeeper g line deeper
      → IsSoundOnward g line next onward
      → Paired w.found
      → Outcome
          (Follows g line (repeat_at n k start ∷ next) i)
          w.found
          (match_repetition g line deeper onward n k start i next w)
  unfolding match_repetition
  match_repetition-Outcome deeper onward n k start i next w d o p =
      Outcome-unless_exhausted (Follows g line (repeat_at n k start ∷ next) i) w.found w
        (next_round g line deeper onward n k start i next) refl
        (next_round-Outcome deeper onward n k start i next w d o p)
