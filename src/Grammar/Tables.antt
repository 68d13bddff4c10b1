-- ===== src/Grammar/Tables.antt =====
-- src/grammar/GrammarBuilder.cpp: internRule, internCapture, addNode and addChildren, which put
-- entries into the tables of the grammar and return their indices.
pub mod Valid
use ft_irc.Prelude.{
  Bytes, nat_key, bytes_key, ℕ, Bool, Option, none, some, List, [], ◌∷◌, ◌++◌, if◌then◌else◌,
  length,
}
use ft_irc.Grammar.Chars.{lowered}
use ft_irc.Grammar.Rules.{Grammar, Node, Kind, new_node, name_index}

-- An index, and the grammar that it is an index of.
pub record Entry : Type 0 where
  pub index : ℕ
  pub grammar : Grammar

unfoldable pub intern_rule : Grammar → Bytes → Entry
intern_rule g name =
    let key = lowered name in
    elim (name_index key g.rule_names) [
      | some i ↦ record { index = i; grammar = g }
      | none ↦ record {
        index = length g.rule_names;
        grammar = record g {
          rule_names = g.rule_names ++ key ∷ [];
          rule_roots = g.rule_roots ++ none ∷ [];
        };
      }
    ]

unfoldable pub intern_capture : Grammar → Bytes → Entry
intern_capture g name = elim (name_index name g.capture_names) [
  | some i ↦ record { index = i; grammar = g }
  | none ↦ record {
    index = length g.capture_names;
    grammar = record g { capture_names = g.capture_names ++ name ∷ [] };
  }
]

unfoldable pub add_node : Grammar → Node → Entry
add_node g n = record { index = length g.nodes; grammar = record g { nodes = g.nodes ++ n ∷ [] } }

unfoldable pub add_children : Grammar → List ℕ → Entry
add_children g kids = record {
  index = length g.children;
  grammar = record g { children = g.children ++ kids };
}

-- push_back on _literals, with the node.
unfoldable pub add_literal : Grammar → Bytes → Entry
add_literal g bytes =
    add_node (record g { literals = g.literals ++ bytes ∷ [] })
      (record new_node { kind = Kind.literal; literal = length g.literals })

unfoldable pub add_range : Grammar → ℕ → ℕ → Entry
add_range g low high =
    add_node g (record new_node { kind = Kind.octet_range; lo = low; hi = some high })

unfoldable pub add_repetition : Grammar → ℕ → Option ℕ → ℕ → Entry
add_repetition g low high kid =
    let kids = add_children g (kid ∷ []) in
    add_node kids.grammar (record new_node {
      kind = Kind.repetition;
      lo = low;
      hi = high;
      first = kids.index;
      count = 1;
    })

-- The end of the functions that collect parts: the only part, or a node over all of them.
unfoldable pub group : Kind → Grammar → List ℕ → Entry
group kind g (part ∷ []) = record { index = part; grammar = g }
group kind g parts =
    let kids = add_children g parts in
    add_node kids.grammar
      (record new_node { kind = kind; first = kids.index; count = length parts })

-- A reference to the rule, which captures what it derives or does not.
unfoldable pub add_reference : Grammar → Bytes → Bool → Entry
add_reference g name capture =
    let rule = intern_rule g name in
    let slot = intern_capture rule.grammar name in
    if capture
    then add_node slot.grammar
        (record new_node { kind = Kind.reference; lo = rule.index; capture = some slot.index })
    else add_node rule.grammar (record new_node { kind = Kind.reference; lo = rule.index })
