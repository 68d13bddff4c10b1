-- ===== src/Examples/Libraries.antt =====
-- The submodule's functions as concrete ones, which satisfy the laws that the theorems ask for.
use ft_irc.Prelude.{
  Bytes, bytes_eq_sound, bytes_eq_self, bytes_eq, ℕ, zero, suc, ◌+◌, ◌-◌, ◌*◌, ◌≤◌, ◌<◌, ◌≡◌, subst,
  ◌≢◌, ◌↔◌, inl, inr, Bool, true, false, not, ◌&&◌, Option, none, some, List, [], ◌∷◌, ◌++◌, arith,
  ltb, leb, ◌==◌, if◌then◌else◌, Option-cases, length, drop, is_nil, keep_if, All,
}
use ft_irc.Libcpp.{StrLib, StrLaws, SocketLib, SocketLaws}

abbrev pub lower_byte : ℕ → ℕ
lower_byte c = if leb b'A' c && leb c b'Z' then c + 32 else c

abbrev pub upper_byte : ℕ → ℕ
upper_byte c = if leb b'a' c && leb c b'z' then c - 32 else c

abbrev pub map_bytes : (ℕ → ℕ) → Bytes → Bytes
map_bytes f [] = []
map_bytes f (c ∷ cs) = f c ∷ map_bytes f cs

abbrev pub digit_value : ℕ → Option ℕ
digit_value c = if leb b'0' c && leb c b'9' then some (c - b'0') else none

abbrev pub number_from : ℕ → Bytes → Option ℕ
number_from acc [] = some acc
number_from acc (c ∷ cs) = elim (digit_value c) [
  | none ↦ none
  | some d ↦ number_from (acc * 10 + d) cs
]

abbrev pub in_range : ℕ → ℕ → Option ℕ → Option ℕ
in_range lo hi none = none
in_range lo hi (some n) = if leb lo n && leb n hi then some n else none

-- Unary digits: what is printed is not read by any theorem.
abbrev pub marks : ℕ → Bytes
marks zero = []
marks (suc n) = b'1' ∷ marks n

abbrev pub split_at : Bytes → ℕ → List Bytes
split_at [] c = [] ∷ []
split_at (x ∷ xs) c =
    let rest = split_at xs c in
    if x == c then [] ∷ rest else elim rest [ [] ↦ (x ∷ []) ∷ [] | w ∷ ws ↦ (x ∷ w) ∷ ws ]

abbrev pub split_parts : Bytes → ℕ → List Bytes
split_parts s c = keep_if (λ part. not (is_nil part)) (split_at s c)

instance abbrev pub plain_str : StrLib
plain_str = record {
  ascii_to_lower = map_bytes lower_byte;
  to_upper = map_bytes upper_byte;
  eq_ascii_nocase = λ a b. bytes_eq (map_bytes lower_byte a) (map_bytes lower_byte b);
  eq_consttime = bytes_eq;
  to_string = marks;
  parse_long = λ s lo hi. in_range lo hi (number_from 0 s);
  parse_ulong = λ s lo hi. in_range lo hi (number_from 0 s);
  split = split_at;
  split_nonempty = split_parts;
  format_time = marks;
}

bytes_eq_iff : (a b : Bytes) → (bytes_eq a b ≡ true) ↔ (a ≡ b)
bytes_eq_iff a b = (bytes_eq_sound a b, λ e. subst (λ c. bytes_eq a c ≡ true) e (bytes_eq_self a))

in_range-bounds : (lo hi n : ℕ) (o : Option ℕ) → in_range lo hi o ≡ some n → (lo ≤ n) × (n ≤ hi)
in_range-bounds lo hi n none e = cc
in_range-bounds lo hi n (some m) e = ground (arith, e)

keep_if-nonempty :
    (l : List Bytes) → All (λ part. part ≢ []) (keep_if (λ part. not (is_nil part)) l)
keep_if-nonempty [] = tt
keep_if-nonempty ([] ∷ l) = keep_if-nonempty l
keep_if-nonempty ((c ∷ cs) ∷ l) = (λ e. cc, keep_if-nonempty l)

pub plain_str-laws : StrLaws plain_str
plain_str-laws = record {
  nocase_iff = λ a b. bytes_eq_iff (map_bytes lower_byte a) (map_bytes lower_byte b);
  consttime_iff = bytes_eq_iff;
  parse_long_range = λ s lo hi n e. in_range-bounds lo hi n (number_from 0 s) e;
  parse_ulong_range = λ s lo hi n e. in_range-bounds lo hi n (number_from 0 s) e;
  split_nonempty_ne = λ s c. keep_if-nonempty (split_at s c);
}

-- A buffered socket: what was received, what is to be sent, and the limit of the latter.
pub record Buffers : Type 0 where
  pub received : Bytes
  pub unsent : Bytes
  pub limit : ℕ
  pub full : Bool

-- The first line, without its LF, and what is behind it.
abbrev pub first_line : Bytes → Option (Bytes × Bytes)
first_line [] = none
first_line (c ∷ cs) =
    if c == 10
    then some ([], cs)
    else elim (first_line cs) [ none ↦ none | some (line, rest) ↦ some (c ∷ line, rest) ]

abbrev pub take_first : Buffers → Option (Bytes × Buffers)
take_first io = elim (first_line io.received) [
  | none ↦ none
  | some (line, rest) ↦ some (line, record io { received = rest })
]

abbrev pub push : Buffers → Bytes → Buffers
push io m =
    let more = io.unsent ++ m ++ (13 ∷ 10 ∷ []) in
    if ltb io.limit (length more) then record io { full = true } else record io { unsent = more }

instance abbrev pub plain_sock : SocketLib Buffers
plain_sock = record {
  fresh = λ line limit. record { received = []; unsent = []; limit = limit; full = false };
  feed = λ io input. record io { received = io.received ++ input };
  next_line = take_first;
  queue = push;
  out_data = λ io. io.unsent;
  consume = λ io n. record io { unsent = drop n io.unsent };
  has_pending = λ io. not (is_nil io.unsent);
  overflowed = λ io. io.full;
  buffered = λ io. length io.received;
}

first_line-shorter :
    (bs line rest : Bytes) → first_line bs ≡ some (line, rest) → length rest < length bs
first_line-shorter [] line rest e = cc
first_line-shorter (c ∷ cs) line rest e = elim (Option-cases (first_line cs)) [
  | inl h ↦ ground (arith, h, e)
  | inr ((l, r), h) ↦ ground (arith, h, e, first_line-shorter cs l r h)
]

take_first-shorter :
    (io : Buffers) (line : Bytes) (rest : Buffers)
    → take_first io ≡ some (line, rest)
    → length rest.received < length io.received
take_first-shorter io line rest e = elim (Option-cases (first_line io.received)) [
  | inl h ↦ ground (arith, h, e)
  | inr ((l, r), h) ↦ ground (arith, h, e, first_line-shorter io.received l r h)
]

pub plain_sock-laws : SocketLaws plain_sock
plain_sock-laws = record {
  next_line_shrinks = take_first-shorter;
  overflow_latches = λ io m e. ground (arith, e);
}
