-- ===== src/Message.antt =====
-- include/Message.hpp and src/Message.cpp: a parsed line. `trailing_index` is none for -1, and
-- `fields` is none for a null pointer.
use ft_irc.Prelude.{ℕ, Bytes, Bool, true, false, List, [], Option, none, some, get_or}
use ft_irc.Libcpp.{StrLib}
use ft_irc.Grammar.MatchResult.{MatchResult, has_field, field_at}

pub record Message : Type 0 where
  pub command : Bytes
  pub params : List Bytes
  pub trailing_index : Option ℕ
  pub fields : Option MatchResult

unfoldable pub matched : Message → Bool
matched m = elim m.fields [ none ↦ false | some r ↦ true ]

unfoldable pub has : Message → Bytes → Bool
has m name = elim m.fields [ none ↦ false | some r ↦ has_field r name ]

unfoldable pub field : Message → Bytes → Bytes
field m name = elim m.fields [ none ↦ [] | some r ↦ field_at r name 0 ]

module _ ⦃str : StrLib⦄ where
  unfoldable pub list : Message → Bytes → ℕ → List Bytes
  list m name sep = elim m.fields [
    | none ↦ []
    | some r ↦ str.split_nonempty (field_at r name 0) sep
  ]

  unfoldable pub list_keep_empty : Message → Bytes → ℕ → List Bytes
  list_keep_empty m name sep = elim m.fields [
    | none ↦ []
    | some r ↦ str.split (field_at r name 0) sep
  ]

-- msg.params[i], which the handlers read only below params.size().
abbrev pub param : Message → ℕ → Bytes
param m i = get_or m.params i []
