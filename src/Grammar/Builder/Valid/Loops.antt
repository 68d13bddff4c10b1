-- ===== src/Grammar/Builder/Valid/Loops.antt =====
-- parseElement, parseRepetition, parseConcatenation and parseAlternation of
-- src/grammar/GrammarBuilder.cpp.
use ft_irc.Prelude.{
  Bytes, text, ℕ, zero, suc, ◌+◌, ◌≤◌, ◌<◌, ◌≡◌, sym, subst, true, false, not, ◌||◌, Option, none,
  some, List, [], ◌∷◌, ◌++◌, arith, ◌==◌, if◌then◌else◌, if_ind, Bool_ind, length, drop, is_nil,
  All,
}
use ft_irc.Grammar.Chars.{is_alpha, is_digit, skip_blanks}
use ft_irc.Grammar.Rules.{Grammar, Kind, Node}
use ft_irc.Grammar.Result.{
  ◌>>=◌, require, Ends, Ends-bind, require-Ends, to_int-Ends, Result, failed, overflow, out_of_fuel,
  done,
}
use ft_irc.Grammar.Tables.Valid.{
  KindOk, NodeOk, Larger-refl, Larger-trans, EntryOk-after, add_repetition-EntryOk, group-EntryOk,
  GrammarOk, Larger,
}
use ft_irc.Grammar.Builder.{
  PieceParser, starts, starts_with, span, number_from, number, bracketed, element_at, element_of,
  parse_element, repeat_bounds, repeat_piece, parse_repetition, ends_concatenation,
  concatenation_loop, parse_concatenation, alternation_loop, parse_alternation, Piece,
}
use ft_irc.Grammar.Builder.Valid.Leaves.{
  Reads, entry-Read, skip_blanks-le, length-span, length-drop1, starts-nonempty, not_nil-length,
  sequence-NodeOk, parts-Larger, add_part, parse_numeric_value-Ends, parse_name-Ends,
  parse_literal-Ends, Read,
}

Read-longer :
    {g : Grammar} {s t : Bytes} {p : Piece} → length s ≤ length t → Read g s p → Read g t p
Read-longer l r = record {
  valid = r.valid;
  larger = r.larger;
  inside = r.inside;
  shorter = omega (arith, r.shorter);
}

Ends-mono :
    {A : Type 0} (P Q : A → Type 0) (r : Result A) → ((a : A) → P a → Q a) → Ends P r → Ends Q r
Ends-mono P Q (failed why) f h = tt
Ends-mono P Q overflow f h = tt
Ends-mono P Q out_of_fuel f h = h
Ends-mono P Q (done a) f h = f a h

pub alternation-NodeOk :
    (h : Grammar) (n : Node)
    → n.kind ≡ Kind.alternation
    → 0 < n.count
    → n.first + n.count ≤ length h.children
    → NodeOk h n
alternation-NodeOk h n e c l = subst (λ k. KindOk k h n) (sym e) (c, l)

-- A number ends, whatever it is.
any_number : (base : ℕ) (s : Bytes) → Ends (λ _. Unit {0}) (number base s)
any_number base s =
    Ends-mono (λ n. n ≡ number_from base 0 s) (λ _. Unit {0}) (number base s) (λ _ _. tt)
      (to_int-Ends (number_from base 0 s))

repeat_bounds-Ends :
    (s : Bytes)
    → Ends (λ (p : Option (ℕ × Option ℕ) × Bytes). length p.1 ≤ length s) (repeat_bounds s)
unfolding repeat_bounds
repeat_bounds-Ends s =
    let P = λ (p : Option (ℕ × Option ℕ) × Bytes). length p.1 ≤ length s in
    let Any = λ (n : ℕ). Unit {0} in
    let AnyBound = λ (n : Option ℕ). Unit {0} in
    let before = (span is_digit s).0 in
    let rest = (span is_digit s).1 in
    let after = (span is_digit (drop 1 rest)).0 in
    let fewer = length-span is_digit s in
    if_ind (Ends P) (starts_with is_digit s || starts b'*' s)
      (λ _.
        if_ind (Ends P) (starts b'*' rest)
          (λ _.
            Ends-bind Any P (if is_nil before then done 0 else number 10 before) _
              (if_ind (Ends Any) (is_nil before) (λ _. tt) λ _. any_number 10 before)
              λ low _.
                Ends-bind AnyBound P
                  (if is_nil after then done none else (number 10 after >>= λ h. done (some h))) _
                  (if_ind (Ends AnyBound) (is_nil after) (λ _. tt)
                    λ _.
                      Ends-bind Any AnyBound (number 10 after) _ (any_number 10 after) (λ _ _. tt))
                  λ high _.
                    Ends-bind (λ _. Unit {0}) P (require _ _) _
                      (Ends-mono _ (λ _. Unit {0}) (require _ _) (λ _ _. tt) (require-Ends _ _))
                      λ _ _.
                        omega (arith, fewer, length-span is_digit (drop 1 rest), length-drop1 rest))
          λ _.
            Ends-bind Any P (number 10 before) _ (any_number 10 before)
              (λ _ _. omega (arith, fewer)))
      λ _. omega arith

module _ (depth : ℕ) (inner : PieceParser) (inner_reads : Reads depth inner) where
  bracketed-Ends :
      (close : ℕ) (why : Bytes) (g : Grammar) (s : Bytes)
      → GrammarOk g
      → length s < depth
      → Ends (Read g s) (bracketed inner close why g s)
  unfolding bracketed
  bracketed-Ends close why g s v l =
      Ends-bind (Read g s) (Read g s) (inner g s) _ (inner_reads g s v l) λ p r.
        let rest = skip_blanks p.rest in
        Ends-bind (λ _. starts close rest ≡ true) (Read g s) (require (starts close rest) why) _
          (require-Ends _ _)
          λ _ _. record {
            valid = r.valid;
            larger = r.larger;
            inside = r.inside;
            shorter = omega (arith, r.shorter, skip_blanks-le p.rest, length-drop1 rest);
          }

  element_at-Ends :
      (c : ℕ) (s : Bytes) (g : Grammar)
      → GrammarOk g
      → length s < depth
      → Ends (Read g (c ∷ s)) (element_at inner c s g)
  unfolding element_at
  element_at-Ends c s g v l =
      let P = Read g (c ∷ s) in
      let widen = λ (p : Piece) (r : Read g s p). Read-longer {t = c ∷ s} (omega arith) r in
      if_ind (Ends P) (c == b'(')
        (λ _. Ends-mono (Read g s) P _ widen (bracketed-Ends b')' _ g s v l))
        λ _.
          if_ind (Ends P) (c == b'[')
            (λ _.
              Ends-bind (Read g s) P (bracketed inner b']' (text "unclosed '['") g s) _
                (bracketed-Ends b']' _ g s v l)
                λ p r.
                  entry-Read
                    (EntryOk-after r.larger
                      (add_repetition-EntryOk p.grammar 0 (some 1) p.node r.valid r.inside))
                    (omega (arith, r.shorter)))
            λ _.
              if_ind (Ends P) (c == b'"')
                (λ _. Ends-mono (Read g s) P _ widen (parse_literal-Ends g s v))
                λ _.
                  if_ind (Ends P) (c == b'%')
                    (λ _. Ends-mono (Read g s) P _ widen (parse_numeric_value-Ends g s v))
                    λ _.
                      if_ind (Ends P) (c == b'$')
                        (λ _.
                          let named = skip_blanks s in
                          Ends-bind (λ _. starts_with is_alpha named ≡ true) P
                            (require (starts_with is_alpha named) _) _ (require-Ends _ _)
                            λ _ a.
                              Ends-mono (Read g named) P _
                                (λ p r. Read-longer (omega (arith, skip_blanks-le s)) r)
                                (parse_name-Ends true g named v a))
                        λ _.
                          if_ind (Ends P) (is_alpha c) (λ a. parse_name-Ends false g (c ∷ s) v a)
                            λ _. tt

  element_of-Ends :
      (g : Grammar) (s : Bytes)
      → GrammarOk g
      → length s ≤ depth
      → Ends (Read g s) (element_of inner g s)
  unfolding element_of
  element_of-Ends g [] v l = tt
  element_of-Ends g (c ∷ s) v l = element_at-Ends c s g v l

  parse_element-Ends :
      (g : Grammar) (s : Bytes)
      → GrammarOk g
      → length s ≤ depth
      → Ends (Read g s) (parse_element inner g s)
  unfolding parse_element
  parse_element-Ends g s v l =
      Ends-mono (Read g (skip_blanks s)) (Read g s) _ (λ p. Read-longer (skip_blanks-le s))
        (element_of-Ends g (skip_blanks s) v (omega (arith, skip_blanks-le s)))

  parse_repetition-Ends :
      (g : Grammar) (s : Bytes)
      → GrammarOk g
      → length s ≤ depth
      → Ends (Read g s) (parse_repetition inner g s)
  unfolding parse_repetition
  parse_repetition-Ends g s v l =
      let blank = skip_blanks s in
      Ends-bind (λ (p : Option (ℕ × Option ℕ) × Bytes). length p.1 ≤ length blank) (Read g s)
        (repeat_bounds blank) _ (repeat_bounds-Ends blank)
        λ (bounds, rest) le.
          Ends-bind (Read g rest) (Read g s) (parse_element inner g rest) _
            (parse_element-Ends g rest v (omega (arith, skip_blanks-le s)))
            λ p r. repeated bounds p (Read-longer (omega (arith, skip_blanks-le s)) r)
    where
      repeated :
          (bounds : Option (ℕ × Option ℕ)) (p : Piece)
          → Read g s p
          → Ends (Read g s) (repeat_piece bounds p)
      repeated none p r = r
      repeated (some (low, high)) p r =
          entry-Read
            (EntryOk-after r.larger
              (add_repetition-EntryOk p.grammar low high p.node r.valid r.inside))
            r.shorter

  concatenation_loop-Ends :
      (g₀ : Grammar) (s₀ : Bytes) (fuel : ℕ) (parts : List ℕ) (g : Grammar) (s : Bytes)
      → length s < fuel
      → length s ≤ depth
      → (is_nil parts ≡ false → length s < length s₀)
      → length s ≤ length s₀
      → Larger g₀ g
      → GrammarOk g
      → All (λ c. c < length g.nodes) parts
      → Ends (Read g₀ s₀) (concatenation_loop inner fuel parts g s)
  unfolding concatenation_loop
  concatenation_loop-Ends g₀ s₀ zero parts g s lf ld ls le w v k = absurd (omega arith)
  concatenation_loop-Ends g₀ s₀ (suc fuel) parts g s lf ld ls le w v k =
      let Q = Read g₀ s₀ in
      let rest = skip_blanks s in
      let fewer = skip_blanks-le s in
      Bool_ind (Ends Q) (ends_concatenation rest)
        (λ _.
          Ends-bind (λ _. not (is_nil parts) ≡ true) Q (require (not (is_nil parts)) _) _
            (require-Ends _ _)
            λ _ some_parts.
              entry-Read
                (EntryOk-after w (
                  group-EntryOk Kind.sequence g parts sequence-NodeOk v k
                    (not_nil-length parts some_parts)))
                (omega (arith, ls (ground arith), fewer)))
        λ _.
          Ends-bind (Read g rest) Q (parse_repetition inner g rest) _
            (parse_repetition-Ends g rest v (omega (arith, fewer)))
            λ p r.
              let (more, _) =
                add_part p.grammar parts p.node (parts-Larger parts r.larger k) r.inside in
              let less : length p.rest < length s = omega (arith, r.shorter, fewer) in
              concatenation_loop-Ends g₀ s₀ fuel (parts ++ p.node ∷ []) p.grammar p.rest
                (omega arith) (omega arith) (λ _. omega arith) (omega arith)
                (Larger-trans w r.larger) r.valid more

  parse_concatenation-Ends :
      (g : Grammar) (s : Bytes)
      → GrammarOk g
      → length s ≤ depth
      → Ends (Read g s) (parse_concatenation inner g s)
  unfolding parse_concatenation
  parse_concatenation-Ends g s v l =
      concatenation_loop-Ends g s (suc (length s)) [] g s (omega arith) l (λ e. cc) (omega arith)
        (Larger-refl g) v tt

  alternation_loop-Ends :
      (g₀ : Grammar) (s₀ : Bytes) (fuel : ℕ) (branches : List ℕ) (p : Piece)
      → length p.rest < fuel
      → length s₀ ≤ depth
      → Read g₀ s₀ p
      → All (λ c. c < length p.grammar.nodes) branches
      → Ends (Read g₀ s₀) (alternation_loop inner fuel branches p)
  unfolding alternation_loop
  alternation_loop-Ends g₀ s₀ zero branches p lf ld r k = absurd (omega arith)
  alternation_loop-Ends g₀ s₀ (suc fuel) branches p lf ld r k =
      let Q = Read g₀ s₀ in
      let rest = skip_blanks p.rest in
      let fewer = skip_blanks-le p.rest in
      let (more, some_more) = add_part p.grammar branches p.node k r.inside in
      Bool_ind (Ends Q) (starts b'/' rest)
        (λ slash.
          let shorter = length-drop1 rest in
          let nonempty = starts-nonempty b'/' rest slash in
          Ends-bind (Read p.grammar (drop 1 rest)) Q
            (parse_concatenation inner p.grammar (drop 1 rest)) _
            (parse_concatenation-Ends p.grammar (drop 1 rest) r.valid (omega (arith, r.shorter)))
            λ q t.
              alternation_loop-Ends g₀ s₀ fuel (branches ++ p.node ∷ []) q
                (omega (arith, t.shorter)) ld
                (record {
                  valid = t.valid;
                  larger = Larger-trans r.larger t.larger;
                  inside = t.inside;
                  shorter = omega (arith, r.shorter, t.shorter);
                })
                (parts-Larger (branches ++ p.node ∷ []) t.larger more))
        λ _.
          entry-Read
            (EntryOk-after r.larger (
              group-EntryOk Kind.alternation p.grammar (branches ++ p.node ∷ []) alternation-NodeOk
                r.valid more some_more))
            (omega (arith, r.shorter))

pub parse_alternation-Reads : (depth : ℕ) → Reads depth (parse_alternation depth)
unfolding parse_alternation
parse_alternation-Reads zero g s v l = absurd (omega arith)
parse_alternation-Reads (suc depth) g s v l =
    let inner = parse_alternation depth in
    let inner_reads = parse_alternation-Reads depth in
    Ends-bind (Read g s) (Read g s) (parse_concatenation inner g s) _
      (parse_concatenation-Ends depth inner inner_reads g s v (omega arith))
      λ p r.
        alternation_loop-Ends depth inner inner_reads g s (length s) [] p r.shorter (omega arith) r
          tt

-- Over tables that are in order, and with a nesting allowed that is deeper than the text is long,
-- parseAlternation ends within the fuel of its loops on every text: it fails, meets a number that
-- an int does not hold, or has read at least one byte, and then the tables are in order again, no
-- table became shorter, and what it returns is one of the nodes.
pub parse_alternation-Ends :
    (depth : ℕ) (g : Grammar) (s : Bytes)
    → GrammarOk g
    → length s < depth
    → Ends (Read g s) (parse_alternation depth g s)
parse_alternation-Ends depth g s v l = parse_alternation-Reads depth g s v l
