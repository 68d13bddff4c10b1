-- ===== src/Grammar/Tables/Valid.antt =====
-- The tables that src/grammar/GrammarBuilder.cpp fills: every index in them is one of an entry.
use ft_irc.Prelude.{
  Bytes, nat_key, bytes_key, ℕ, ◌+◌, ◌≤◌, ◌<◌, ◌≡◌, refl, inl, inr, Bool, true, false, Option, none,
  some, List, [], ◌∷◌, ◌++◌, arith, Option-cases, Option_ind, length, length-append, All,
  All-append, All-mono,
}
use ft_irc.Grammar.Rules.{Grammar, Node, Kind, name_index}
use ft_irc.Grammar.Chars.{lowered}
use ft_irc.Grammar.Tables.{
  intern_rule, intern_capture, add_node, add_children, add_literal, add_range, add_repetition,
  group, add_reference, Entry,
}

abbrev pub SlotOk : Grammar → Option ℕ → Type 0
SlotOk g none = Unit
SlotOk g (some slot) = slot < length g.capture_names

abbrev pub KindOk : Kind → Grammar → Node → Type 0
KindOk Kind.literal g n = n.literal < length g.literals
KindOk Kind.octet_range g n = (hi : ℕ) × (n.hi ≡ some hi) × (n.lo ≤ hi)
KindOk Kind.reference g n = (n.lo < length g.rule_names) × SlotOk g n.capture
KindOk Kind.sequence g n = (0 < n.count) × (n.first + n.count ≤ length g.children)
KindOk Kind.alternation g n = (0 < n.count) × (n.first + n.count ≤ length g.children)
KindOk Kind.repetition g n = (0 < n.count) × (n.first + n.count ≤ length g.children)

abbrev pub NodeOk : Grammar → Node → Type 0
NodeOk g n = KindOk n.kind g n

abbrev pub RootOk : Grammar → Option ℕ → Type 0
RootOk g none = Unit
RootOk g (some root) = root < length g.nodes

pub record GrammarOk (g : Grammar) : Type 0 where
  pub nodes_ok : All (NodeOk g) g.nodes
  pub children_ok : All (λ c. c < length g.nodes) g.children
  pub roots_ok : All (RootOk g) g.rule_roots
  pub paired : length g.rule_roots ≡ length g.rule_names

-- Every table of the one is at least as long as that of the other.
pub record Larger (g h : Grammar) : Type 0 where
  pub more_nodes : length g.nodes ≤ length h.nodes
  pub more_children : length g.children ≤ length h.children
  pub more_literals : length g.literals ≤ length h.literals
  pub more_rules : length g.rule_names ≤ length h.rule_names
  pub more_captures : length g.capture_names ≤ length h.capture_names

pub Larger-refl : (g : Grammar) → Larger g g
Larger-refl g = record {
  more_nodes = omega arith;
  more_children = omega arith;
  more_literals = omega arith;
  more_rules = omega arith;
  more_captures = omega arith;
}

pub Larger-trans : {f g h : Grammar} → Larger f g → Larger g h → Larger f h
Larger-trans a b = record {
  more_nodes = omega (arith, a.more_nodes, b.more_nodes);
  more_children = omega (arith, a.more_children, b.more_children);
  more_literals = omega (arith, a.more_literals, b.more_literals);
  more_rules = omega (arith, a.more_rules, b.more_rules);
  more_captures = omega (arith, a.more_captures, b.more_captures);
}

SlotOk-Larger : {g h : Grammar} (o : Option ℕ) → Larger g h → SlotOk g o → SlotOk h o
SlotOk-Larger none l p = tt
SlotOk-Larger (some slot) l p = omega (arith, l.more_captures)

pub KindOk-Larger : {g h : Grammar} (k : Kind) (n : Node) → Larger g h → KindOk k g n → KindOk k h n
KindOk-Larger Kind.literal n l p = omega (arith, l.more_literals)
KindOk-Larger Kind.octet_range n l p = p
KindOk-Larger Kind.reference n l p = (omega (arith, l.more_rules), SlotOk-Larger n.capture l p.1)
KindOk-Larger Kind.sequence n l p = (p.0, omega (arith, l.more_children))
KindOk-Larger Kind.alternation n l p = (p.0, omega (arith, l.more_children))
KindOk-Larger Kind.repetition n l p = (p.0, omega (arith, l.more_children))

pub RootOk-Larger : {g h : Grammar} (o : Option ℕ) → Larger g h → RootOk g o → RootOk h o
RootOk-Larger none l p = tt
RootOk-Larger (some root) l p = omega (arith, l.more_nodes)

-- An index into the nodes, with the tables in order.
pub record EntryOk (g : Grammar) (e : Entry) : Type 0 where
  pub valid : GrammarOk e.grammar
  pub larger : Larger g e.grammar
  pub inside : e.index < length e.grammar.nodes

pub EntryOk-after : {f g : Grammar} {e : Entry} → Larger f g → EntryOk g e → EntryOk f e
EntryOk-after l p = record { valid = p.valid; larger = Larger-trans l p.larger; inside = p.inside }

pub add_node-EntryOk :
    (g : Grammar) (n : Node) → GrammarOk g → NodeOk g n → EntryOk g (add_node g n)
unfolding add_node
add_node-EntryOk g n v p =
    let h = (add_node g n).grammar in
    let len = length-append g.nodes (n ∷ []) in
    let l : Larger g h = record {
      more_nodes = omega (arith, len);
      more_children = omega (arith, len);
      more_literals = omega (arith, len);
      more_rules = omega (arith, len);
      more_captures = omega (arith, len);
    } in
    record {
      valid = record {
        nodes_ok =
            All-append (NodeOk h) g.nodes (n ∷ [])
              (All-mono (NodeOk g) (NodeOk h) g.nodes (λ x. KindOk-Larger x.kind x l) v.nodes_ok)
              (KindOk-Larger n.kind n l p, tt);
        children_ok =
            All-mono (λ c. c < length g.nodes) (λ c. c < length h.nodes) g.children
              (λ x q. omega (arith, len)) v.children_ok;
        roots_ok = All-mono (RootOk g) (RootOk h) g.rule_roots (λ o. RootOk-Larger o l) v.roots_ok;
        paired = v.paired;
      };
      larger = l;
      inside = omega (arith, len);
    }

pub add_children-Ok :
    (g : Grammar) (kids : List ℕ)
    → GrammarOk g
    → All (λ c. c < length g.nodes) kids
    → GrammarOk (add_children g kids).grammar × Larger g (add_children g kids).grammar
unfolding add_children
add_children-Ok g kids v k =
    let h = (add_children g kids).grammar in
    let len = length-append g.children kids in
    let l : Larger g h = record {
      more_nodes = omega (arith, len);
      more_children = omega (arith, len);
      more_literals = omega (arith, len);
      more_rules = omega (arith, len);
      more_captures = omega (arith, len);
    } in
    (
      record {
        nodes_ok =
            All-mono (NodeOk g) (NodeOk h) g.nodes (λ x. KindOk-Larger x.kind x l) v.nodes_ok;
        children_ok = All-append (λ c. c < length g.nodes) g.children kids v.children_ok k;
        roots_ok = v.roots_ok;
        paired = v.paired;
      },
      l,
    )

pub name_index-bound :
    (name : Bytes) (names : List Bytes) (i : ℕ) → name_index name names ≡ some i → i < length names
unfolding name_index
name_index-bound name [] i e = cc
name_index-bound name (n ∷ names) i e = elim (Option-cases (name_index name names)) [
  | inl q ↦ ground arith
  | inr (j, q) ↦ ground (arith, name_index-bound name names j q)
]

-- The tables in order, and an index into one of them.
pub record Interned (g : Grammar) (e : Entry) (size : Grammar → ℕ) : Type 0 where
  pub valid : GrammarOk e.grammar
  pub larger : Larger g e.grammar
  pub inside : e.index < size e.grammar

pub intern_rule-Interned :
    (g : Grammar) (name : Bytes)
    → GrammarOk g
    → Interned g (intern_rule g name) (λ h. length h.rule_names)
unfolding intern_rule
intern_rule-Interned g name v =
    let key = lowered name in
    let len = length-append g.rule_names (key ∷ []) in
    let roots = length-append g.rule_roots (none ∷ []) in
    Option_ind (λ e. Interned g e (λ h. length h.rule_names)) (name_index key g.rule_names)
      (λ _.
        let h : Grammar = record g {
          rule_names = g.rule_names ++ key ∷ [];
          rule_roots = g.rule_roots ++ none ∷ [];
        } in
        let l : Larger g h = record {
          more_nodes = omega (arith, len);
          more_children = omega (arith, len);
          more_literals = omega (arith, len);
          more_rules = omega (arith, len);
          more_captures = omega (arith, len);
        } in
        record {
          valid = record {
            nodes_ok =
                All-mono (NodeOk g) (NodeOk h) g.nodes (λ x. KindOk-Larger x.kind x l) v.nodes_ok;
            children_ok = v.children_ok;
            roots_ok =
                All-append (RootOk h) g.rule_roots (none ∷ [])
                  (All-mono (RootOk g) (RootOk h) g.rule_roots (λ o. RootOk-Larger o l) v.roots_ok)
                  (tt, tt);
            paired = omega (arith, len, roots, v.paired);
          };
          larger = l;
          inside = omega (arith, len);
        })
      λ i found. record {
        valid = v;
        larger = Larger-refl g;
        inside = name_index-bound key g.rule_names i found;
      }

pub intern_capture-Interned :
    (g : Grammar) (name : Bytes)
    → GrammarOk g
    → Interned g (intern_capture g name) (λ h. length h.capture_names)
unfolding intern_capture
intern_capture-Interned g name v =
    let len = length-append g.capture_names (name ∷ []) in
    Option_ind (λ e. Interned g e (λ h. length h.capture_names)) (name_index name g.capture_names)
      (λ _.
        let h : Grammar = record g { capture_names = g.capture_names ++ name ∷ [] } in
        let l : Larger g h = record {
          more_nodes = omega (arith, len);
          more_children = omega (arith, len);
          more_literals = omega (arith, len);
          more_rules = omega (arith, len);
          more_captures = omega (arith, len);
        } in
        record {
          valid = record {
            nodes_ok =
                All-mono (NodeOk g) (NodeOk h) g.nodes (λ x. KindOk-Larger x.kind x l) v.nodes_ok;
            children_ok = v.children_ok;
            roots_ok =
                All-mono (RootOk g) (RootOk h) g.rule_roots (λ o. RootOk-Larger o l) v.roots_ok;
            paired = v.paired;
          };
          larger = l;
          inside = omega (arith, len);
        })
      λ i found. record {
        valid = v;
        larger = Larger-refl g;
        inside = name_index-bound name g.capture_names i found;
      }

pub add_literal-EntryOk :
    (g : Grammar) (bytes : Bytes) → GrammarOk g → EntryOk g (add_literal g bytes)
unfolding add_literal
add_literal-EntryOk g bytes v =
    let len = length-append g.literals (bytes ∷ []) in
    let h : Grammar = record g { literals = g.literals ++ bytes ∷ [] } in
    let l : Larger g h = record {
      more_nodes = omega (arith, len);
      more_children = omega (arith, len);
      more_literals = omega (arith, len);
      more_rules = omega (arith, len);
      more_captures = omega (arith, len);
    } in
    EntryOk-after l (
      add_node-EntryOk h _
        (record {
          nodes_ok =
              All-mono (NodeOk g) (NodeOk h) g.nodes (λ x. KindOk-Larger x.kind x l) v.nodes_ok;
          children_ok = v.children_ok;
          roots_ok =
              All-mono (RootOk g) (RootOk h) g.rule_roots (λ o. RootOk-Larger o l) v.roots_ok;
          paired = v.paired;
        })
        (omega (arith, len)))

pub add_range-EntryOk :
    (g : Grammar) (low high : ℕ) → GrammarOk g → low ≤ high → EntryOk g (add_range g low high)
unfolding add_range
add_range-EntryOk g low high v h = add_node-EntryOk g _ v (high, refl, h)

-- A node over children that are in the tables.
pub over_children-EntryOk :
    (g : Grammar) (kids : List ℕ) (n : Node)
    → GrammarOk g
    → All (λ c. c < length g.nodes) kids
    → (GrammarOk (add_children g kids).grammar → NodeOk (add_children g kids).grammar n)
    → EntryOk g (add_node (add_children g kids).grammar n)
over_children-EntryOk g kids n v k p =
    let (w, l) = add_children-Ok g kids v k in
    EntryOk-after l (add_node-EntryOk (add_children g kids).grammar n w (p w))

pub add_repetition-EntryOk :
    (g : Grammar) (low : ℕ) (high : Option ℕ) (kid : ℕ)
    → GrammarOk g
    → kid < length g.nodes
    → EntryOk g (add_repetition g low high kid)
unfolding add_repetition add_children
add_repetition-EntryOk g low high kid v h =
    over_children-EntryOk g (kid ∷ []) _ v (h, tt)
      λ _. (omega arith, omega (arith, length-append g.children (kid ∷ [])))

pub group-EntryOk :
    (kind : Kind) (g : Grammar) (parts : List ℕ)
    → ((h : Grammar) (n : Node)
        → n.kind ≡ kind
        → 0 < n.count
        → n.first + n.count ≤ length h.children
        → NodeOk h n)
    → GrammarOk g
    → All (λ c. c < length g.nodes) parts
    → 0 < length parts
    → EntryOk g (group kind g parts)
unfolding group add_children
group-EntryOk kind g [] p v k h = absurd (omega arith)
group-EntryOk kind g (part ∷ []) p v k h = record {
  valid = v;
  larger = Larger-refl g;
  inside = k.0;
}
group-EntryOk kind g (x ∷ y ∷ parts) p v k h =
    over_children-EntryOk g (x ∷ y ∷ parts) _ v k
      λ _. p _ _ refl (omega arith) (omega (arith, length-append g.children (x ∷ y ∷ parts)))

pub add_reference-EntryOk :
    (g : Grammar) (name : Bytes) (capture : Bool)
    → GrammarOk g
    → EntryOk g (add_reference g name capture)
unfolding add_reference
add_reference-EntryOk g name true v =
    let r = intern_rule-Interned g name v in
    let h = (intern_rule g name).grammar in
    let s = intern_capture-Interned h name r.valid in
    EntryOk-after (Larger-trans r.larger s.larger) (
      add_node-EntryOk (intern_capture h name).grammar _ s.valid
        (omega (arith, r.inside, s.larger.more_rules), s.inside))
add_reference-EntryOk g name false v =
    let r = intern_rule-Interned g name v in
    EntryOk-after r.larger (add_node-EntryOk (intern_rule g name).grammar _ r.valid (r.inside, tt))
