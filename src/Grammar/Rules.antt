-- ===== src/Grammar/Rules.antt =====
-- include/grammar/GrammarNode.hpp and src/grammar/Grammar.cpp: the flat tables of a grammar. A
-- node's `hi` is none for kUnbounded and its `capture` none for kNoCapture; a rule's root is none
-- for kNoRule. An index out of range, which the source does not look up, gives a fresh node.
use ft_irc.Prelude.{
  Bytes, bytes_eq, ℕ, suc, Option, none, some, List, [], ◌∷◌, if◌then◌else◌, length, get_or,
}
use ft_irc.Grammar.Chars.{lowered}

pub data Kind : Type 0 where
  reference literal octet_range sequence alternation repetition : Kind

pub record Node : Type 0 where
  pub kind : Kind
  pub lo : ℕ
  pub hi : Option ℕ
  pub first : ℕ
  pub count : ℕ
  pub literal : ℕ
  pub capture : Option ℕ

abbrev pub new_node : Node
new_node = record {
  kind = Kind.sequence;
  lo = 0;
  hi = some 0;
  first = 0;
  count = 0;
  literal = 0;
  capture = none;
}

pub record Grammar : Type 0 where
  pub nodes : List Node
  pub children : List ℕ
  pub literals : List Bytes
  pub capture_names : List Bytes
  pub rule_names : List Bytes
  pub rule_roots : List (Option ℕ)

abbrev pub empty_grammar : Grammar
empty_grammar = record {
  nodes = [];
  children = [];
  literals = [];
  capture_names = [];
  rule_names = [];
  rule_roots = [];
}

-- The loop that the lookups of a name share.
unfoldable pub name_index : Bytes → List Bytes → Option ℕ
name_index name [] = none
name_index name (n ∷ ns) =
    if bytes_eq n name
    then some 0
    else elim (name_index name ns) [ none ↦ none | some i ↦ some (suc i) ]

unfoldable pub rule_index : Grammar → Bytes → Option ℕ
rule_index g name = name_index (lowered name) g.rule_names

unfoldable pub capture_index : Grammar → Bytes → Option ℕ
capture_index g name = name_index name g.capture_names

abbrev pub rule_root : Grammar → ℕ → Option ℕ
rule_root g rule = get_or g.rule_roots rule none

abbrev pub rule_name : Grammar → ℕ → Bytes
rule_name g rule = get_or g.rule_names rule []

abbrev pub rule_count : Grammar → ℕ
rule_count g = length g.rule_names

abbrev pub node : Grammar → ℕ → Node
node g i = get_or g.nodes i new_node

abbrev pub child : Grammar → ℕ → ℕ
child g i = get_or g.children i 0

abbrev pub literal_text : Grammar → ℕ → Bytes
literal_text g i = get_or g.literals i []

abbrev pub capture_count : Grammar → ℕ
capture_count g = length g.capture_names
