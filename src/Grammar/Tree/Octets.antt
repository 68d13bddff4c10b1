-- ===== src/Grammar/Tree/Octets.antt =====
-- isSingleOctet and octetMatches of src/grammar/interpreted/TreeMatcher.cpp. A node that is asked
-- for while it is being asked for is no single octet, so a depth of the number of nodes suffices.
use ft_irc.Prelude.{
  Bytes, ℕ, zero, suc, Bool, true, false, ◌&&◌, none, some, [], ◌∷◌, ltb, leb, ◌==◌, length, get_or,
}
use ft_irc.Grammar.Chars.{to_lower}
use ft_irc.Grammar.Rules.{rule_root, node, child, literal_text, Kind, Node, Grammar}

abbrev pub octet_fuel : Grammar → ℕ
octet_fuel g = suc (length g.nodes)

unfoldable pub in_range : Node → ℕ → Bool
in_range n c = leb n.lo c && elim n.hi [ none ↦ false | some hi ↦ leb c hi ]

-- The loops over the children of an alternation.
abbrev pub all_from : (ℕ → Bool) → ℕ → ℕ → Bool
all_from test first zero = true
all_from test first (suc count) = elim (test first) [
  | true ↦ all_from test (suc first) count
  | false ↦ false
]

abbrev pub any_from : (ℕ → Bool) → ℕ → ℕ → Bool
any_from test first zero = false
any_from test first (suc count) = elim (test first) [
  | true ↦ true
  | false ↦ any_from test (suc first) count
]

module _ (g : Grammar) where
  unfoldable pub is_single_octet : ℕ → ℕ → Bool
  is_single_octet zero i = false
  is_single_octet (suc fuel) i =
      let n = node g i in
      let deeper = is_single_octet fuel in
      elim n.kind [
        | Kind.octet_range ↦ true
        | Kind.literal ↦ length (literal_text g n.literal) == 1
        | Kind.reference ↦ elim n.capture [
          | some _ ↦ false
          | none ↦ elim (rule_root g n.lo) [ none ↦ false | some root ↦ deeper root ]
        ]
        | Kind.alternation ↦ ltb 0 n.count && all_from (λ k. deeper (child g k)) n.first n.count
        | _ ↦ false
      ]

  unfoldable pub octet_matches : ℕ → ℕ → ℕ → Bool
  octet_matches zero i c = false
  octet_matches (suc fuel) i c =
      let n = node g i in
      let deeper = octet_matches fuel in
      elim n.kind [
        | Kind.octet_range ↦ in_range n c
        | Kind.literal ↦
            length (literal_text g n.literal) == 1
            && to_lower (get_or (literal_text g n.literal) 0 0) == to_lower c
        | Kind.reference ↦ elim (rule_root g n.lo) [ none ↦ false | some root ↦ deeper root c ]
        | Kind.alternation ↦ any_from (λ k. deeper (child g k) c) n.first n.count
        | _ ↦ false
      ]

  -- The loop that counts what a repetition can take.
  unfoldable pub count_octets : ℕ → ℕ → Bytes → ℕ
  count_octets i zero rest = 0
  count_octets i (suc most) [] = 0
  count_octets i (suc most) (c ∷ rest) = elim (octet_matches (octet_fuel g) i c) [
    | true ↦ suc (count_octets i most rest)
    | false ↦ 0
  ]
