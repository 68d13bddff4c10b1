-- ===== src/Grammar/MatchResult.antt =====
-- include/grammar/MatchResult.hpp and src/grammar/MatchResult.cpp. The grammar pointer is the list
-- of the grammar's capture names; a result that was never reset has no slot.
use ft_irc.Prelude.{
  ℕ, suc, Bytes, bytes_eq, Bool, not, List, [], ◌∷◌, Option, none, some, get_or, is_nil,
  if◌then◌else◌, zero, length,
}

pub record MatchResult : Type 0 where
  pub captures : List Bytes
  pub values : List (List Bytes)
  pub sequence : List Bytes
  pub owners : List ℕ

abbrev slot_in : Bytes → List Bytes → Option ℕ
slot_in name [] = none
slot_in name (n ∷ ns) =
    if bytes_eq n name
    then some 0
    else elim (slot_in name ns) [ none ↦ none | some i ↦ some (suc i) ]

-- Values, without the slot that names no capture.
unfoldable pub values_of : MatchResult → Bytes → List Bytes
values_of r name = elim (slot_in name r.captures) [
  | none ↦ []
  | some slot ↦ get_or r.values slot []
]

unfoldable pub has_field : MatchResult → Bytes → Bool
has_field r name = not (is_nil (values_of r name))

unfoldable pub field_at : MatchResult → Bytes → ℕ → Bytes
field_at r name i = get_or (values_of r name) i []

abbrev pub no_values : ℕ → List (List Bytes)
no_values zero = []
no_values (suc n) = [] ∷ no_values n

-- reset and clear, from any result.
abbrev pub reset : List Bytes → MatchResult
reset names = record {
  captures = names;
  values = no_values (length names);
  sequence = [];
  owners = [];
}

abbrev pub cleared : MatchResult
cleared = record { captures = []; values = []; sequence = []; owners = [] }
