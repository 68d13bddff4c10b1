-- ===== src/Grammar/Tree/Sound/Octets.antt =====
-- The path of matchRepetition in src/grammar/interpreted/TreeMatcher.cpp for a child that takes one
-- octet: what octetMatches lets through, the child derives.
use ft_irc.Prelude.{
  Bytes, ℕ, zero, suc, ◌+◌, ◌≤◌, ◌<◌, ◌≡◌, refl, subst, inl, inr, Bool, true, some, List, [], ◌∷◌,
  arith, ◌==◌, Bool-cases, Option-cases, length, get_elem?, get_or, drop,
}
use ft_irc.Grammar.Chars.{to_lower}
use ft_irc.Grammar.Rules.{Grammar, Kind, node, child, rule_root, literal_text}
use ft_irc.Grammar.Derivation.{folded_prefix, Derives, Times}
use ft_irc.Grammar.Tree.Octets.{
  octet_fuel, in_range, all_from, any_from, is_single_octet, octet_matches, count_octets,
}

-- A child that `all_from` and `any_from` find.
any_from-found :
    (p q : ℕ → Bool) (first count : ℕ)
    → all_from p first count ≡ true
    → any_from q first count ≡ true
    → (k : ℕ) × (k < count) × (p (first + k) ≡ true) × (q (first + k) ≡ true)
any_from-found p q first zero a e = cc
any_from-found p q first (suc count) a e = elim (Bool-cases (p first)) [
  | inr n ↦ absurd (ground arith)
  | inl y ↦ elim (Bool-cases (q first)) [
    | inl z ↦ (0, omega arith, ground arith, ground arith)
    | inr n ↦
        let (k, less, pk, qk) =
          any_from-found p q (suc first) count (ground arith) (ground arith) in
        (suc k, omega arith, ground arith, ground arith)
  ]
]

drop-get :
    {A : Type 0} (line : List A) (pos : ℕ) (c : A)
    → get_elem? line pos ≡ some c
    → (pos < length line)
      × ((rest : List A) × (drop pos line ≡ c ∷ rest) × (drop (suc pos) line ≡ rest))
drop-get [] pos c e = cc
drop-get (x ∷ line) zero c e = (omega arith, (line, ground arith, refl))
drop-get (x ∷ line) (suc pos) c e =
    let (less, found) = drop-get line pos c e in (omega arith, found)

get-drop :
    {A : Type 0} (line : List A) (pos : ℕ) (c : A) (rest : List A)
    → drop pos line ≡ c ∷ rest
    → (get_elem? line pos ≡ some c) × (drop (suc pos) line ≡ rest)
get-drop [] zero c rest e = cc
get-drop [] (suc pos) c rest e = cc
get-drop (x ∷ line) zero c rest e = ground arith
get-drop (x ∷ line) (suc pos) c rest e = get-drop line pos c rest e

one_byte-folded :
    (t s : Bytes) (c : ℕ)
    → length t == 1 ≡ true
    → to_lower (get_or t 0 0) == to_lower c ≡ true
    → folded_prefix t (c ∷ s) ≡ true
unfolding folded_prefix
one_byte-folded [] s c l e = cc
one_byte-folded (x ∷ []) s c l e = ground arith
one_byte-folded (x ∷ y ∷ t) s c l e = absurd (ground arith)

module _ (g : Grammar) (line : Bytes) where
  octet-Derives_at :
      (fuel fuel' i c pos : ℕ) (k : Kind)
      → (node g i).kind ≡ k
      → is_single_octet g (suc fuel) i ≡ true
      → octet_matches g (suc fuel') i c ≡ true
      → get_elem? line pos ≡ some c
      → ((j : ℕ)
          → is_single_octet g fuel j ≡ true
          → octet_matches g fuel' j c ≡ true
          → Derives g line j pos (suc pos) [])
      → Derives g line i pos (suc pos) []
  unfolding is_single_octet octet_matches in_range
  octet-Derives_at fuel fuel' i c pos Kind.octet_range q a e h ih =
      elim (Option-cases (node g i).hi) [
        | inl none_hi ↦ absurd (ground arith)
        | inr (hi, some_hi) ↦ Derives.octet q some_hi h (ground arith) (ground arith)
      ]
  octet-Derives_at fuel fuel' i c pos Kind.literal q a e h ih =
      let (less, (rest, here, _)) = drop-get line pos c h in
      let text = literal_text g (node g i).literal in
      let one : length text == 1 ≡ true = ground arith in
      let same : to_lower (get_or text 0 0) == to_lower c ≡ true = ground arith in
      Derives.literal q (ground arith) (omega arith)
        (rw here (one_byte-folded text rest c one same))
  octet-Derives_at fuel fuel' i c pos Kind.reference q a e h ih =
      elim (Option-cases (node g i).capture) [
        | inr (slot, some_slot) ↦ absurd (ground arith)
        | inl no_slot ↦ elim (Option-cases (rule_root g (node g i).lo)) [
          | inl no_root ↦ absurd (ground arith)
          | inr (root, some_root) ↦
              Derives.reference q no_slot some_root (ih root (ground arith) (ground arith))
        ]
      ]
  octet-Derives_at fuel fuel' i c pos Kind.alternation q a e h ih =
      let n = node g i in
      let (k, less, ak, ek) =
        any_from-found (λ k. is_single_octet g fuel (child g k))
          (λ k. octet_matches g fuel' (child g k) c) n.first n.count (ground arith)
          (ground arith) in
      Derives.branch q less (ih (child g (n.first + k)) ak ek)
  octet-Derives_at fuel fuel' i c pos Kind.sequence q a e h ih = absurd (ground arith)
  octet-Derives_at fuel fuel' i c pos Kind.repetition q a e h ih = absurd (ground arith)

  octet-Derives :
      (fuel fuel' i c pos : ℕ)
      → is_single_octet g fuel i ≡ true
      → octet_matches g fuel' i c ≡ true
      → get_elem? line pos ≡ some c
      → Derives g line i pos (suc pos) []
  unfolding is_single_octet octet_matches
  octet-Derives zero fuel' i c pos a e h = cc
  octet-Derives (suc fuel) zero i c pos a e h = cc
  octet-Derives (suc fuel) (suc fuel') i c pos a e h =
      octet-Derives_at fuel fuel' i c pos (node g i).kind refl a e h
        λ j aj ej. octet-Derives fuel fuel' j c pos aj ej h

  pub count_octets-Times :
      (i most pos m : ℕ) (rest : Bytes)
      → is_single_octet g (octet_fuel g) i ≡ true
      → drop pos line ≡ rest
      → m ≤ count_octets g i most rest
      → Times g line i m pos (pos + m) []
  unfolding count_octets
  count_octets-Times i most pos zero rest a d h =
      subst (λ j. Times g line i 0 pos j []) (omega arith) Times.no_times
  count_octets-Times i zero pos (suc m) rest a d h = absurd (omega arith)
  count_octets-Times i (suc most) pos (suc m) [] a d h = absurd (omega arith)
  count_octets-Times i (suc most) pos (suc m) (c ∷ rest) a d h =
      let fuel = octet_fuel g in
      let (here, later) = get-drop line pos c rest d in
      elim (Bool-cases (octet_matches g fuel i c)) [
        | inr n ↦ absurd (ground arith)
        | inl y ↦
            let more : m ≤ count_octets g i most rest = ground arith in
            subst (λ j. Times g line i (suc m) pos j []) (omega arith)
              (Times.once_more (octet-Derives fuel fuel i c pos a y here)
                (count_octets-Times i most (suc pos) m rest a later more) refl)
      ]
