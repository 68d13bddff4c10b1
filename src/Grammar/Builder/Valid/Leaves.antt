-- ===== src/Grammar/Builder/Valid/Leaves.antt =====
-- parseNumericValue and parseElement of src/grammar/GrammarBuilder.cpp.
use ft_irc.Prelude.{
  Bytes, ℕ, zero, suc, ◌+◌, ◌-◌, ◌≤◌, ◌<◌, ◌≡◌, sym, subst, Bool, true, not, ◌||◌, List, [], ◌∷◌,
  ◌++◌, arith, leb, ◌==◌, if_ind, Bool_ind, length, drop, is_nil, length-append, All, All-append,
  All-mono,
}
use ft_irc.Grammar.Chars.{is_alpha, is_digit, is_hex_digit, is_rule_char, skip_blanks}
use ft_irc.Grammar.Rules.{Grammar, Kind, Node}
use ft_irc.Grammar.Result.{require, Ends, Ends-bind, require-Ends, to_int-Ends}
use ft_irc.Grammar.Tables.{add_range, Entry}
use ft_irc.Grammar.Tables.Valid.{
  KindOk, NodeOk, Larger-refl, Larger-trans, EntryOk-after, add_literal-EntryOk, add_range-EntryOk,
  group-EntryOk, add_reference-EntryOk, GrammarOk, Larger, EntryOk,
}
use ft_irc.Grammar.Builder.{
  piece, PieceParser, starts, starts_with, span, number_from, number, upper_bound, value_pieces,
  parse_numeric_value, parse_name, parse_literal, Piece,
}

-- A piece of the text `s`, read into the grammar `g`.
pub record Read (g : Grammar) (s : Bytes) (p : Piece) : Type 0 where
  pub valid : GrammarOk p.grammar
  pub larger : Larger g p.grammar
  pub inside : p.node < length p.grammar.nodes
  pub shorter : length p.rest < length s

-- The parser reads a piece of every text below the length.
abbrev pub Reads : ℕ → PieceParser → Type 0
Reads n parser =
    (g : Grammar) (s : Bytes) → GrammarOk g → length s < n → Ends (Read g s) (parser g s)

pub entry-Read :
    {g : Grammar} {e : Entry} {s rest : Bytes}
    → EntryOk g e
    → length rest < length s
    → Read g s (piece e rest)
entry-Read v h = record { valid = v.valid; larger = v.larger; inside = v.inside; shorter = h }

pub skip_blanks-le : (s : Bytes) → length (skip_blanks s) ≤ length s
unfolding skip_blanks
skip_blanks-le [] = omega arith
skip_blanks-le (c ∷ s) = ground (arith, skip_blanks-le s)

pub length-span :
    (test : ℕ → Bool) (s : Bytes) → length (span test s).0 + length (span test s).1 ≡ length s
unfolding span
length-span test [] = omega arith
length-span test (c ∷ s) = ground (arith, length-span test s)

pub length-drop1 : {A : Type 0} (s : List A) → length (drop 1 s) ≡ length s - 1
length-drop1 [] = omega arith
length-drop1 (c ∷ s) = omega arith

pub starts-nonempty : (c : ℕ) (s : Bytes) → starts c s ≡ true → 0 < length s
starts-nonempty c [] h = cc
starts-nonempty c (x ∷ s) h = omega arith

pub not_nil-length : {A : Type 0} (s : List A) → not (is_nil s) ≡ true → 0 < length s
not_nil-length [] h = cc
not_nil-length (c ∷ s) h = omega arith

upper_bound-Ends :
    (low : ℕ) (s : Bytes)
    → Ends (λ (p : ℕ × Bytes). (low ≤ p.0) × (length p.1 ≤ length s)) (upper_bound low s)
unfolding upper_bound
upper_bound-Ends low s =
    let P = λ (p : ℕ × Bytes). (low ≤ p.0) × (length p.1 ≤ length s) in
    let hex = (span is_hex_digit (drop 1 s)).0 in
    let rest = (span is_hex_digit (drop 1 s)).1 in
    if_ind (Ends P) (starts b'-' s)
      (λ dash.
        Ends-bind (λ _. not (is_nil hex) ≡ true) P (require (not (is_nil hex)) _) _
          (require-Ends _ _)
          λ _ _.
            Ends-bind (λ n. n ≡ number_from 16 0 hex) P (number 16 hex) _
              (to_int-Ends (number_from 16 0 hex))
              λ high _.
                Ends-bind (λ _. leb low high ≡ true) P (require (leb low high) _) _
                  (require-Ends _ _)
                  λ _ le. (
                    ground arith,
                    omega (arith, length-span is_hex_digit (drop 1 s), length-drop1 s),
                  ))
      λ _. (omega arith, omega arith)

pub sequence-NodeOk :
    (h : Grammar) (n : Node)
    → n.kind ≡ Kind.sequence
    → 0 < n.count
    → n.first + n.count ≤ length h.children
    → NodeOk h n
sequence-NodeOk h n e c l = subst (λ k. KindOk k h n) (sym e) (c, l)

-- Parts that have been collected stay in the tables.
pub parts-Larger :
    {g h : Grammar} (parts : List ℕ)
    → Larger g h
    → All (λ c. c < length g.nodes) parts
    → All (λ c. c < length h.nodes) parts
parts-Larger {g} {h} parts l =
    All-mono (λ c. c < length g.nodes) (λ c. c < length h.nodes) parts
      λ x p. omega (arith, l.more_nodes)

pub add_part :
    (g : Grammar) (parts : List ℕ) (p : ℕ)
    → All (λ c. c < length g.nodes) parts
    → p < length g.nodes
    → All (λ c. c < length g.nodes) (parts ++ p ∷ []) × (0 < length (parts ++ p ∷ []))
add_part g parts p k h = (
  All-append (λ c. c < length g.nodes) parts (p ∷ []) k (h, tt),
  omega (arith, length-append parts (p ∷ [])),
)

value_pieces-Ends :
    (g₀ : Grammar) (s₀ : Bytes) (fuel : ℕ) (pieces : List ℕ) (g : Grammar) (s : Bytes)
    → length s < fuel
    → length s < length s₀
    → Larger g₀ g
    → GrammarOk g
    → All (λ c. c < length g.nodes) pieces
    → Ends (Read g₀ s₀) (value_pieces fuel pieces g s)
unfolding value_pieces
value_pieces-Ends g₀ s₀ zero pieces g s l l₀ w v k = absurd (omega arith)
value_pieces-Ends g₀ s₀ (suc fuel) pieces g s l l₀ w v k =
    let Q = Read g₀ s₀ in
    let hex = (span is_hex_digit s).0 in
    let after = (span is_hex_digit s).1 in
    Ends-bind (λ _. not (is_nil hex) ≡ true) Q (require (not (is_nil hex)) _) _ (require-Ends _ _)
      λ _ some_hex.
        Ends-bind (λ n. n ≡ number_from 16 0 hex) Q (number 16 hex) _
          (to_int-Ends (number_from 16 0 hex))
          λ low _.
            Ends-bind (λ (p : ℕ × Bytes). (low ≤ p.0) × (length p.1 ≤ length after)) Q
              (upper_bound low after) _ (upper_bound-Ends low after)
              λ (high, rest) (le, shorter).
                let range = add_range-EntryOk g low high v le in
                let h = (add_range g low high).grammar in
                let less : length rest < length s =
                  omega (arith, length-span is_hex_digit s, not_nil-length hex some_hex) in
                let (parts, some_parts) =
                  add_part h pieces (add_range g low high).index
                    (parts-Larger pieces range.larger k) range.inside in
                Bool_ind (Ends Q) (starts b'.' rest)
                  (λ dot.
                    value_pieces-Ends g₀ s₀ fuel (pieces ++ (add_range g low high).index ∷ []) h
                      (drop 1 rest) (omega (arith, length-drop1 rest))
                      (omega (arith, length-drop1 rest)) (Larger-trans w range.larger) range.valid
                      parts)
                  λ _.
                    entry-Read
                      (EntryOk-after (Larger-trans w range.larger) (
                        group-EntryOk Kind.sequence h (pieces ++ (add_range g low high).index ∷ [])
                          sequence-NodeOk range.valid parts some_parts))
                      (omega arith)

pub parse_numeric_value-Ends :
    (g : Grammar) (s : Bytes) → GrammarOk g → Ends (Read g s) (parse_numeric_value g s)
unfolding parse_numeric_value
parse_numeric_value-Ends g s v =
    let marked = starts b'x' s || starts b'X' s in
    Ends-bind (λ _. marked ≡ true) (Read g s) (require marked _) _ (require-Ends _ _)
      λ _ x.
        let some_text : 0 < length s = marked-nonempty s x in
        value_pieces-Ends g s (length s) [] g (drop 1 s) (omega (arith, length-drop1 s))
          (omega (arith, length-drop1 s)) (Larger-refl g) v tt
  where
    marked-nonempty : (s : Bytes) → starts b'x' s || starts b'X' s ≡ true → 0 < length s
    marked-nonempty [] h = cc
    marked-nonempty (c ∷ s) h = omega arith

name-shorter :
    (s : Bytes) → starts_with is_alpha s ≡ true → length (span is_rule_char s).1 < length s
unfolding span is_rule_char
name-shorter [] h = cc
name-shorter (c ∷ s) h =
    Bool_ind (λ (p : Bytes × Bytes). length p.1 < suc (length s))
      (is_alpha c || (is_digit c || c == b'-')) (λ _. omega (arith, length-span is_rule_char s))
      λ n. absurd (ground arith)

pub parse_name-Ends :
    (capture : Bool) (g : Grammar) (s : Bytes)
    → GrammarOk g
    → starts_with is_alpha s ≡ true
    → Ends (Read g s) (parse_name capture g s)
unfolding parse_name
parse_name-Ends capture g s v a =
    entry-Read (add_reference-EntryOk g (span is_rule_char s).0 capture v) (name-shorter s a)

pub parse_literal-Ends :
    (g : Grammar) (s : Bytes) → GrammarOk g → Ends (Read g s) (parse_literal g s)
unfolding parse_literal
parse_literal-Ends g s v =
    let bytes = (span (λ c. not (c == b'"')) s).0 in
    let rest = (span (λ c. not (c == b'"')) s).1 in
    Ends-bind (λ _. not (is_nil rest) ≡ true) (Read g s) (require (not (is_nil rest)) _) _
      (require-Ends _ _)
      λ _ closed. entry-Read (add_literal-EntryOk g bytes v) (
        omega (
          arith,
          length-span (λ c. not (c == b'"')) s,
          not_nil-length rest closed,
          length-drop1 rest,
        ))
