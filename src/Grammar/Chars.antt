-- ===== src/Grammar/Chars.antt =====
-- src/grammar/AbnfChars.cpp: the characters of the notation.
use ft_irc.Prelude.{Bytes, ℕ, ◌+◌, ◌-◌, Bool, ◌&&◌, ◌||◌, [], ◌∷◌, leb, ◌==◌, if◌then◌else◌, is_nil}

unfoldable pub is_alpha : ℕ → Bool
is_alpha c = (leb b'A' c && leb c b'Z') || (leb b'a' c && leb c b'z')

unfoldable pub is_digit : ℕ → Bool
is_digit c = leb b'0' c && leb c b'9'

unfoldable pub is_hex_digit : ℕ → Bool
unfolding is_digit
is_hex_digit c = is_digit c || ((leb b'A' c && leb c b'F') || (leb b'a' c && leb c b'f'))

unfoldable pub is_rule_char : ℕ → Bool
is_rule_char c = is_alpha c || (is_digit c || c == b'-')

unfoldable pub is_blank : ℕ → Bool
is_blank c = c == b' ' || c == 9

-- toLower, and the function fold of the matchers.
unfoldable pub to_lower : ℕ → ℕ
to_lower c = if leb b'A' c && leb c b'Z' then c - b'A' + b'a' else c

unfoldable pub lowered : Bytes → Bytes
lowered [] = []
lowered (c ∷ s) = to_lower c ∷ lowered s

-- The rest of the line behind the blanks, where the source moves the index.
unfoldable pub skip_blanks : Bytes → Bytes
skip_blanks [] = []
skip_blanks (c ∷ s) = if is_blank c then skip_blanks s else c ∷ s

-- The second loop of trimmed.
unfoldable pub drop_blank_end : Bytes → Bytes
drop_blank_end [] = []
drop_blank_end (c ∷ s) =
    let rest = drop_blank_end s in if is_blank c && is_nil rest then [] else c ∷ rest

unfoldable pub trimmed : Bytes → Bytes
trimmed s = drop_blank_end (skip_blanks s)
