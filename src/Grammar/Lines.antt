-- ===== src/Grammar/Lines.antt =====
-- src/grammar/AbnfLineReader.cpp: the logical lines of a grammar, without comments and with their
-- continuations.
use ft_irc.Prelude.{
  Bytes, text, ℕ, suc, ◌⊎◌, inl, inr, Bool, false, not, ◌&&◌, Option, none, some, List, [], ◌∷◌,
  ◌++◌, ◌==◌, if◌then◌else◌, get_or, is_nil,
}
use ft_irc.Grammar.Chars.{is_rule_char, is_blank, trimmed}

pub record Line : Type 0 where
  pub content : Bytes
  pub number : ℕ

-- What std::getline gives, line by line.
unfoldable pub get_lines : Bytes → List Bytes
get_lines [] = []
get_lines (c ∷ s) =
    let rest = get_lines s in
    if c == 10 then [] ∷ rest else elim rest [ [] ↦ (c ∷ []) ∷ [] | l ∷ ls ↦ (c ∷ l) ∷ ls ]

unfoldable pub strip_comment : Bool → Bytes → Bytes
strip_comment in_quote [] = []
strip_comment in_quote (c ∷ s) =
    let rest = strip_comment (if c == b'"' then not in_quote else in_quote) s in
    if c == b';' && not in_quote then [] else c ∷ rest

-- The '\r' at the end of a line is erased.
unfoldable pub strip_cr : Bytes → Bytes
strip_cr [] = []
strip_cr (c ∷ s) = if c == 13 && is_nil s then [] else c ∷ strip_cr s

-- The characters of a rule's name at the head of the text.
unfoldable pub rule_word : Bytes → Bytes
rule_word [] = []
rule_word (c ∷ s) = if is_rule_char c then c ∷ rule_word s else []

pub record Reader : Type 0 where
  pub pending : Line
  pub last_rule_name : Bytes
  pub out : List Line

abbrev pub flushed : Reader → List Line
flushed r = if is_nil r.pending.content then r.out else r.out ++ r.pending ∷ []

-- The body of the loop for a line that is not blank; none for the error.
unfoldable pub read_body : ℕ → Bytes → Bytes → Reader → Option Reader
read_body physical raw body r =
    let continuation = is_blank (get_or raw 0 0) in
    let redefines = get_or body 0 0 == b'=' in
    let name = rule_word body in
    if continuation && (not redefines && not (is_nil r.pending.content))
    then some (record r {
      pending = record r.pending { content = r.pending.content ++ (text " " ++ body) };
    })
    else (if redefines
        then (if is_nil r.last_rule_name
            then none
            else some (record {
              pending = record {
                content = r.last_rule_name ++ (text " " ++ body);
                number = physical;
              };
              last_rule_name = r.last_rule_name;
              out = flushed r;
            }))
        else some (record {
          pending = record { content = body; number = physical };
          last_rule_name = if is_nil name then r.last_rule_name else name;
          out = flushed r;
        }))

unfoldable pub read_line : ℕ → Bytes → Reader → Option Reader
read_line physical line r =
    let raw = strip_comment false (strip_cr line) in
    let body = trimmed raw in if is_nil body then some r else read_body physical raw body r

-- The error is in the line whose number is returned.
unfoldable pub read_lines : ℕ → List Bytes → Reader → ℕ ⊎ List Line
read_lines physical [] r = inr (flushed r)
read_lines physical (line ∷ lines) r = elim (read_line (suc physical) line r) [
  | none ↦ inl (suc physical)
  | some next ↦ read_lines (suc physical) lines next
]

unfoldable pub read : Bytes → ℕ ⊎ List Line
read grammar_text =
    read_lines 0 (get_lines grammar_text)
      (record { pending = record { content = []; number = 0 }; last_rule_name = []; out = [] })
