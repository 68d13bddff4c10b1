-- ===== src/Grammar/Validator.antt =====
-- src/grammar/GrammarValidator.cpp: every rule has a definition, and none is left-recursive. The
-- vectors `busy` and `seen` are lists of rules, and none is the end of the fuel.
use ft_irc.Prelude.{
  ℕ, zero, suc, ◌*◌, Bool, true, false, ◌||◌, Option, none, some, List, [], ◌∷◌, ◌==◌, length,
  is_nil,
}
use ft_irc.Grammar.Rules.{Grammar, Kind, node, child, rule_root, rule_count, literal_text}

-- The rule that is the first without a definition.
unfoldable pub undefined_rule : Grammar → ℕ → ℕ → Option ℕ
undefined_rule g rule zero = none
undefined_rule g rule (suc more) = elim (rule_root g rule) [
  | none ↦ some rule
  | some _ ↦ undefined_rule g (suc rule) more
]

unfoldable pub check_all_rules_defined : Grammar → Option ℕ
check_all_rules_defined g = undefined_rule g 0 (rule_count g)

abbrev pub listed : ℕ → List ℕ → Bool
listed rule [] = false
listed rule (r ∷ rs) = r == rule || listed rule rs

-- The loops over the children: all of them, or one of them.
unfoldable pub all_children : (ℕ → Option Bool) → Grammar → ℕ → ℕ → Option Bool
all_children test g first zero = some true
all_children test g first (suc count) = elim (test (child g first)) [
  | none ↦ none
  | some false ↦ some false
  | some true ↦ all_children test g (suc first) count
]

unfoldable pub any_child : (ℕ → Option Bool) → Grammar → ℕ → ℕ → Option Bool
any_child test g first zero = some false
any_child test g first (suc count) = elim (test (child g first)) [
  | none ↦ none
  | some true ↦ some true
  | some false ↦ any_child test g (suc first) count
]

unfoldable pub is_nullable : Grammar → ℕ → ℕ → List ℕ → Option Bool
is_nullable g zero i busy = none
is_nullable g (suc fuel) i busy =
    let n = node g i in
    let deeper = is_nullable g fuel in
    elim n.kind [
      | Kind.literal ↦ some (is_nil (literal_text g n.literal))
      | Kind.octet_range ↦ some false
      | Kind.reference ↦ elim (listed n.lo busy) [
        | true ↦ some false
        | false ↦ elim (rule_root g n.lo) [
          | none ↦ some true
          | some root ↦ deeper root (n.lo ∷ busy)
        ]
      ]
      | Kind.sequence ↦ all_children (λ c. deeper c busy) g n.first n.count
      | Kind.alternation ↦ any_child (λ c. deeper c busy) g n.first n.count
      | Kind.repetition ↦ elim (n.lo == 0) [
        | true ↦ some true
        | false ↦ deeper (child g n.first) busy
      ]
    ]

-- Of the children of a sequence, up to the first that is not nullable.
unfoldable pub left_parts :
    (ℕ → List ℕ → Option (List ℕ)) → (ℕ → Option Bool) → Grammar → ℕ → ℕ → List ℕ → Option (List ℕ)
left_parts collect nullable g first zero seen = some seen
left_parts collect nullable g first (suc count) seen = elim (collect (child g first) seen) [
  | none ↦ none
  | some more ↦ elim (nullable (child g first)) [
    | none ↦ none
    | some false ↦ some more
    | some true ↦ left_parts collect nullable g (suc first) count more
  ]
]

unfoldable pub each_branch :
    (ℕ → List ℕ → Option (List ℕ)) → Grammar → ℕ → ℕ → List ℕ → Option (List ℕ)
each_branch collect g first zero seen = some seen
each_branch collect g first (suc count) seen = elim (collect (child g first) seen) [
  | none ↦ none
  | some more ↦ each_branch collect g (suc first) count more
]

unfoldable pub collect_left_reachable : Grammar → ℕ → ℕ → ℕ → List ℕ → Option (List ℕ)
collect_left_reachable g depth zero i seen = none
collect_left_reachable g depth (suc fuel) i seen =
    let n = node g i in
    let deeper = collect_left_reachable g depth fuel in
    elim n.kind [
      | Kind.literal ↦ some seen
      | Kind.octet_range ↦ some seen
      | Kind.reference ↦ elim (listed n.lo seen) [
        | true ↦ some seen
        | false ↦ elim (rule_root g n.lo) [
          | none ↦ some (n.lo ∷ seen)
          | some root ↦ deeper root (n.lo ∷ seen)
        ]
      ]
      | Kind.sequence ↦ left_parts deeper (λ c. is_nullable g depth c []) g n.first n.count seen
      | Kind.alternation ↦ each_branch deeper g n.first n.count seen
      | Kind.repetition ↦ deeper (child g n.first) seen
    ]

-- A path visits a rule once and goes down in the nodes between two rules.
abbrev pub walk_fuel : Grammar → ℕ
walk_fuel g = suc (rule_count g) * suc (length g.nodes)

pub data Verdict : Type 0 where
  fine no_fuel : Verdict
  undefined left_recursive : ℕ → Verdict

unfoldable pub check_no_left_recursion : Grammar → ℕ → ℕ → Verdict
check_no_left_recursion g rule zero = fine
check_no_left_recursion g rule (suc more) = elim (rule_root g rule) [
  | none ↦ check_no_left_recursion g (suc rule) more
  | some root ↦ elim (collect_left_reachable g (walk_fuel g) (walk_fuel g) root []) [
    | none ↦ no_fuel
    | some seen ↦ elim (listed rule seen) [
      | true ↦ left_recursive rule
      | false ↦ check_no_left_recursion g (suc rule) more
    ]
  ]
]

unfoldable pub validate : Grammar → Verdict
validate g = elim (check_all_rules_defined g) [
  | some rule ↦ undefined rule
  | none ↦ check_no_left_recursion g 0 (rule_count g)
]
