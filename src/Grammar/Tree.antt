-- ===== src/Grammar/Tree.antt =====
-- src/grammar/interpreted/TreeMatcher.cpp: the matcher that walks the grammar and backtracks. `left`
-- is kMaxDepth less walk.depth, which each return gives back. The caches `_singleOctet` and
-- `_bitmaps` are left out: what they hold is computed anew.
pub mod Octets
pub mod Follow
pub mod Sound
use ft_irc.Grammar.Walk.{
  Continuation, exhaust, add_steps, or_else, unless_exhausted, push_capture, with_found, restored,
  Found, Walk, run_node, sequence_at, repeat_at, close_capture,
}
use ft_irc.Prelude.{
  Bytes, ℕ, zero, suc, ◌+◌, ◌-◌, Bool, true, false, not, ◌&&◌, none, some, [], ◌∷◌, ltb, leb, ◌==◌,
  if◌then◌else◌, length, get_elem?, drop,
}
use ft_irc.Grammar.Rules.{
  rule_root, node, child, literal_text, capture_count, Kind, Node, Grammar, reference, octet_range,
  sequence, alternation, repetition,
}
use ft_irc.Grammar.MatchResult.{no_values, reset, MatchResult}
use ft_irc.Grammar.Derivation.{substr, folded_prefix}
use ft_irc.Grammar.Tree.Octets.{octet_fuel, in_range, is_single_octet, count_octets}

abbrev pub max_steps : ℕ
max_steps = 200000

abbrev pub max_depth : ℕ
max_depth = 256

-- matchNode, given to the functions that it calls.
abbrev pub Deeper : Type 0
Deeper = ℕ → ℕ → Continuation → Walk → Bool × Walk

-- matchContinuation on what follows.
abbrev pub Onward : Type 0
Onward = ℕ → Walk → Bool × Walk

-- The loop from `taken` down to `least`, as the number of rounds after the first.
unfoldable pub give_back : Onward → ℕ → ℕ → Walk → Bool × Walk
give_back onward pos zero w = onward pos w
give_back onward pos (suc extra) w =
    or_else (onward (pos + suc extra) w) λ w. give_back onward pos extra w

unfoldable pub can_repeat : Node → ℕ → ℕ → ℕ → Bool
can_repeat n count iter_start pos =
    elim n.hi [ none ↦ true | some hi ↦ ltb count hi ] && not (ltb 0 count && pos == iter_start)

-- The last two lines of matchRepetition.
unfoldable pub stop_repeating : Onward → Node → ℕ → ℕ → Walk → Bool × Walk
stop_repeating onward n count pos w = if leb n.lo count then onward pos w else (false, w)

module _ (g : Grammar) (line : Bytes) where
  unfoldable pub match_sequence : Deeper → Onward → ℕ → ℕ → ℕ → Continuation → Walk → Bool × Walk
  match_sequence deeper onward n child_no pos next w =
      if leb (node g n).count child_no
      then onward pos w
      else deeper (child g ((node g n).first + child_no)) pos (sequence_at n (child_no + 1) ∷ next)
          w

  -- The path of matchRepetition for a child that takes one octet.
  unfoldable pub match_octets : Onward → Node → ℕ → Walk → Bool × Walk
  match_octets onward n pos w =
      let most : ℕ = elim n.hi [ none ↦ length line | some hi ↦ hi ] in
      let taken = count_octets g (child g n.first) most (drop pos line) in
      let counted = add_steps taken w in
      if ltb max_steps counted.steps
      then (false, exhaust counted)
      else (if ltb taken n.lo
          then (false, counted)
          else give_back onward (pos + n.lo) (taken - n.lo) counted)

  -- matchRepetition behind its first test.
  unfoldable pub next_round : Deeper → Onward → ℕ → ℕ → ℕ → ℕ → Continuation → Walk → Bool × Walk
  next_round deeper onward i count iter_start pos next w =
      let n = node g i in
      if count == 0 && is_single_octet g (octet_fuel g) (child g n.first)
      then match_octets onward n pos w
      else (if can_repeat n count iter_start pos
          then or_else (deeper (child g n.first) pos (repeat_at i (count + 1) pos ∷ next) w)
              (stop_repeating onward n count pos)
          else stop_repeating onward n count pos w)

  unfoldable pub match_repetition :
      Deeper → Onward → ℕ → ℕ → ℕ → ℕ → Continuation → Walk → Bool × Walk
  match_repetition deeper onward i count iter_start pos next w =
      unless_exhausted w (next_round deeper onward i count iter_start pos next)

  unfoldable pub match_continuation : Deeper → Continuation → ℕ → Walk → Bool × Walk
  match_continuation deeper [] pos w = unless_exhausted w λ w. (pos == length line, w)
  match_continuation deeper (run_node n ∷ next) pos w = unless_exhausted w λ w. deeper n pos next w
  match_continuation deeper (sequence_at n child_no ∷ next) pos w =
      let onward = match_continuation deeper next in
      unless_exhausted w λ w. match_sequence deeper onward n child_no pos next w
  match_continuation deeper (repeat_at n count start ∷ next) pos w =
      let onward = match_continuation deeper next in
      unless_exhausted w λ w. match_repetition deeper onward n count start pos next w
  match_continuation deeper (close_capture slot start ∷ next) pos w =
      let onward = match_continuation deeper next in
      unless_exhausted w λ w.
        restored slot w.found
          (onward pos (with_found (push_capture slot (substr start (pos - start) line) w.found) w))

  unfoldable pub match_branches : Deeper → ℕ → ℕ → ℕ → Continuation → Walk → Bool × Walk
  match_branches deeper first zero pos next w = (false, w)
  match_branches deeper first (suc count) pos next w =
      or_else (deeper (child g first) pos next w)
        λ w. match_branches deeper (suc first) count pos next w

  unfoldable pub match_literal : Onward → Node → ℕ → Walk → Bool × Walk
  match_literal onward n pos w =
      let bytes = literal_text g n.literal in
      if leb (pos + length bytes) (length line) && folded_prefix bytes (drop pos line)
      then onward (pos + length bytes) w
      else (false, w)

  unfoldable pub match_range : Onward → Node → ℕ → Walk → Bool × Walk
  match_range onward n pos w = elim (get_elem? line pos) [
    | none ↦ (false, w)
    | some c ↦ if in_range n c then onward (suc pos) w else (false, w)
  ]

  unfoldable pub match_reference : Deeper → Node → ℕ → Continuation → Walk → Bool × Walk
  match_reference deeper n pos next w = elim (rule_root g n.lo) [
    | none ↦ (false, w)
    | some root ↦ elim n.capture [
      | none ↦ deeper root pos next w
      | some slot ↦ deeper root pos (close_capture slot pos ∷ next) w
    ]
  ]

  -- The switch of matchNode.
  unfoldable pub match_kind : Kind → Deeper → ℕ → ℕ → Continuation → Walk → Bool × Walk
  match_kind kind deeper i pos next w =
      let n = node g i in
      let onward = match_continuation deeper next in
      elim kind [
        | Kind.literal ↦ match_literal onward n pos w
        | Kind.octet_range ↦ match_range onward n pos w
        | Kind.reference ↦ match_reference deeper n pos next w
        | Kind.sequence ↦ match_sequence deeper onward i 0 pos next w
        | Kind.alternation ↦ match_branches deeper n.first n.count pos next w
        | Kind.repetition ↦ match_repetition deeper onward i 0 pos pos next w
      ]

  unfoldable pub match_node : ℕ → Deeper
  match_node zero i pos next w = unless_exhausted w λ w. (false, exhaust (add_steps 1 w))
  match_node (suc left) i pos next w = unless_exhausted w λ w.
      if ltb max_steps (w.steps + 1)
      then (false, exhaust (add_steps 1 w))
      else match_kind (node g i).kind (match_node left) i pos next (add_steps 1 w)

abbrev pub nothing_found : Grammar → Found
nothing_found g = record { values = no_values (capture_count g); sequence = []; owners = [] }

pub record TreeMatch : Type 0 where
  pub matched : Bool
  pub out : MatchResult
  pub last_exhausted : Bool

-- adopt and adoptSequence, if the walk succeeded.
unfoldable pub adopt_if : Bool × Walk → MatchResult → MatchResult
adopt_if (true, w) out = record out {
  values = w.found.values;
  sequence = w.found.sequence;
  owners = w.found.owners;
}
adopt_if (false, w) out = out

-- match behind its test of the rule.
unfoldable pub match_from : Grammar → Bytes → ℕ → TreeMatch
match_from g line root =
    let walk : Walk = record { found = nothing_found g; steps = 0; exhausted = false } in
    let r = match_node g line max_depth root 0 [] walk in
    record {
      matched = r.0;
      out = adopt_if r (reset g.capture_names);
      last_exhausted = r.1.exhausted;
    }

unfoldable pub tree_match : Grammar → ℕ → Bytes → TreeMatch
tree_match g rule line = elim (rule_root g rule) [
  | none ↦ record { matched = false; out = reset g.capture_names; last_exhausted = false }
  | some root ↦ match_from g line root
]
