-- ===== src/Grammar/Builder.antt =====
-- src/grammar/GrammarBuilder.cpp: the recursive descent over the text of a rule. The index into the
-- text is the rest of it. `inner` is parseAlternation for what stands in brackets; the nesting and
-- the loops are bounded by the length of the text.
pub mod Valid
use ft_irc.Prelude.{
  Bytes, text, ℕ, zero, suc, ◌+◌, ◌-◌, ◌*◌, Bool, true, false, not, ◌||◌, Option, none, some, List,
  [], ◌∷◌, ◌++◌, leb, ◌==◌, if◌then◌else◌, length, drop, is_nil,
}
use ft_irc.Grammar.Chars.{is_alpha, is_digit, is_hex_digit, is_rule_char, skip_blanks}
use ft_irc.Grammar.Rules.{Grammar, Kind}
use ft_irc.Grammar.Result.{◌>>=◌, to_int, require, Result, failed, out_of_fuel, done}
use ft_irc.Grammar.Tables.{add_literal, add_range, add_repetition, group, add_reference, Entry}

-- `out`, the grammar so far and the rest of the text.
pub record Piece : Type 0 where
  pub node : ℕ
  pub grammar : Grammar
  pub rest : Bytes

abbrev pub piece : Entry → Bytes → Piece
piece e rest = record { node = e.index; grammar = e.grammar; rest = rest }

abbrev pub PieceParser : Type 0
PieceParser = Grammar → Bytes → Result Piece

abbrev pub starts : ℕ → Bytes → Bool
starts c [] = false
starts c (x ∷ s) = x == c

abbrev pub starts_with : (ℕ → Bool) → Bytes → Bool
starts_with test [] = false
starts_with test (x ∷ s) = test x

-- The loops that collect the characters of a word.
unfoldable pub span : (ℕ → Bool) → Bytes → Bytes × Bytes
span test [] = ([], [])
span test (c ∷ s) = elim (test c) [
  | true ↦ (c ∷ (span test s).0, (span test s).1)
  | false ↦ ([], c ∷ s)
]

-- strtol, on the digits that were collected.
abbrev pub digit_value : ℕ → ℕ
digit_value c =
    if is_digit c then c - b'0' else (if leb b'a' c then c - b'a' + 10 else c - b'A' + 10)

unfoldable pub number_from : ℕ → ℕ → Bytes → ℕ
number_from base acc [] = acc
number_from base acc (c ∷ s) = number_from base (acc * base + digit_value c) s

abbrev pub number : ℕ → Bytes → Result ℕ
number base s = to_int (number_from base 0 s)

-- The upper bound of a range, behind its '-'.
unfoldable pub upper_bound : ℕ → Bytes → Result (ℕ × Bytes)
upper_bound low s =
    if starts b'-' s
    then (let (hex, rest) = span is_hex_digit (drop 1 s) in
        do
          _ ← require (not (is_nil hex)) (text "%x range with no upper bound")
          high ← number 16 hex
          _ ← require (leb low high) (text "%x range runs backwards")
          done (high, rest))
    else done (low, s)

unfoldable pub value_pieces : ℕ → List ℕ → Grammar → Bytes → Result Piece
value_pieces zero pieces g s = out_of_fuel
value_pieces (suc fuel) pieces g s = do
  let (hex, after) = span is_hex_digit s
  _ ← require (not (is_nil hex)) (text "%x with no hex digits")
  low ← number 16 hex
  (high, rest) ← upper_bound low after
  let range = add_range g low high
  let collected = pieces ++ range.index ∷ []
  elim (starts b'.' rest) [
    | true ↦ value_pieces fuel collected range.grammar (drop 1 rest)
    | false ↦ done (piece (group Kind.sequence range.grammar collected) rest)
  ]

unfoldable pub parse_numeric_value : PieceParser
parse_numeric_value g s = do
  _ ← require (starts b'x' s || starts b'X' s) (text "only the %x form of num-val is supported")
  value_pieces (length s) [] g (drop 1 s)

-- What stands in brackets, up to the closing one.
unfoldable pub bracketed : PieceParser → ℕ → Bytes → PieceParser
bracketed inner close why g s = do
  p ← inner g s
  let rest = skip_blanks p.rest
  _ ← require (starts close rest) why
  done (record p { rest = drop 1 rest })

unfoldable pub parse_name : Bool → PieceParser
parse_name capture g s =
    let (name, rest) = span is_rule_char s in done (piece (add_reference g name capture) rest)

unfoldable pub parse_literal : PieceParser
parse_literal g s = do
  let (bytes, rest) = span (λ c. not (c == b'"')) s
  _ ← require (not (is_nil rest)) (text "unterminated string literal")
  done (piece (add_literal g bytes) (drop 1 rest))

-- The tests of parseElement, on its first character.
unfoldable pub element_at : PieceParser → ℕ → Bytes → Grammar → Result Piece
element_at inner c s g =
    if c == b'('
    then bracketed inner b')' (text "unclosed '('") g s
    else (if c == b'['
        then (do
          p ← bracketed inner b']' (text "unclosed '['") g s
          done (piece (add_repetition p.grammar 0 (some 1) p.node) p.rest))
        else (if c == b'"'
            then parse_literal g s
            else (if c == b'%'
                then parse_numeric_value g s
                else (if c == b'$'
                    then (do
                      let named = skip_blanks s
                      _ ←
                          require (starts_with is_alpha named)
                            (text "'$' must be followed by a rule name")
                      parse_name true g named)
                    else (if is_alpha c
                        then parse_name false g (c ∷ s)
                        else failed
                            (text "unexpected character '" ++ (c ∷ text "' in rule body")))))))

unfoldable pub element_of : PieceParser → Grammar → Bytes → Result Piece
element_of inner g [] = failed (text "expected an element, found end of rule")
element_of inner g (c ∷ rest) = element_at inner c rest g

unfoldable pub parse_element : PieceParser → PieceParser
parse_element inner g s = element_of inner g (skip_blanks s)

-- The bounds before an element, none for no bounds.
unfoldable pub repeat_bounds : Bytes → Result (Option (ℕ × Option ℕ) × Bytes)
repeat_bounds s =
    if starts_with is_digit s || starts b'*' s
    then (let (before, rest) = span is_digit s in
        if starts b'*' rest
        then (let (after, rest) = span is_digit (drop 1 rest) in
            do
              low ← if is_nil before then done 0 else number 10 before
              high ← if is_nil after then done none else (number 10 after >>= λ h. done (some h))
              _ ←
                  require (elim high [ none ↦ true | some h ↦ leb low h ])
                    (text "repetition range runs backwards")
              done (some (low, high), rest))
        else (do times ← number 10 before; done (some (times, some times), rest)))
    else done (none, s)

abbrev pub repeat_piece : Option (ℕ × Option ℕ) → Piece → Result Piece
repeat_piece none p = done p
repeat_piece (some (low, high)) p = done (piece (add_repetition p.grammar low high p.node) p.rest)

unfoldable pub parse_repetition : PieceParser → PieceParser
parse_repetition inner g s = do
  (bounds, rest) ← repeat_bounds (skip_blanks s)
  p ← parse_element inner g rest
  repeat_piece bounds p

abbrev pub ends_concatenation : Bytes → Bool
ends_concatenation [] = true
ends_concatenation (c ∷ s) = c == b'/' || (c == b')' || c == b']')

unfoldable pub concatenation_loop : PieceParser → ℕ → List ℕ → Grammar → Bytes → Result Piece
concatenation_loop inner zero parts g s = out_of_fuel
concatenation_loop inner (suc fuel) parts g s =
    let rest = skip_blanks s in
    elim (ends_concatenation rest) [
      | true ↦ do
        _ ← require (not (is_nil parts)) (text "empty concatenation")
        done (piece (group Kind.sequence g parts) rest)
      | false ↦ do
        p ← parse_repetition inner g rest
        concatenation_loop inner fuel (parts ++ p.node ∷ []) p.grammar p.rest
    ]

unfoldable pub parse_concatenation : PieceParser → PieceParser
parse_concatenation inner g s = concatenation_loop inner (suc (length s)) [] g s

unfoldable pub alternation_loop : PieceParser → ℕ → List ℕ → Piece → Result Piece
alternation_loop inner zero branches p = out_of_fuel
alternation_loop inner (suc fuel) branches p =
    let rest = skip_blanks p.rest in
    let collected = branches ++ p.node ∷ [] in
    elim (starts b'/' rest) [
      | true ↦ do
        next ← parse_concatenation inner p.grammar (drop 1 rest)
        alternation_loop inner fuel collected next
      | false ↦ done (piece (group Kind.alternation p.grammar collected) rest)
    ]

unfoldable pub parse_alternation : ℕ → PieceParser
parse_alternation zero g s = out_of_fuel
parse_alternation (suc depth) g s = do
  first ← parse_concatenation (parse_alternation depth) g s
  alternation_loop (parse_alternation depth) (length s) [] first
