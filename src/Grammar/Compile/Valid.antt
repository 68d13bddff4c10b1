-- ===== src/Grammar/Compile/Valid.antt =====
-- parseRule and compile of src/grammar/GrammarBuilder.cpp: the grammar that compile returns has
-- its tables in order, and every rule in it is defined.
use ft_irc.Prelude.{
  Bytes, ℕ, zero, suc, ◌+◌, ◌≤◌, ◌<◌, ◌≡◌, refl, sym, subst, ◌⊎◌, inl, inr, Bool, true, false, none,
  some, List, [], ◌∷◌, arith, ◌==◌, if◌then◌else◌, ==_iff, Bool-cases, Option-cases, if_ind,
  Option_ind, length, get_or, drop, update_at, is_nil, All, All-mono,
}
use ft_irc.Grammar.Chars.{is_alpha, is_rule_char, skip_blanks}
use ft_irc.Grammar.Rules.{Grammar, Kind, empty_grammar, rule_root, rule_count}
use ft_irc.Grammar.Result.{
  require, Ends, Ends-bind, require-Ends, Result, failed, overflow, out_of_fuel, done,
}
use ft_irc.Grammar.Tables.{intern_rule, group}
use ft_irc.Grammar.Tables.Valid.{
  NodeOk, RootOk, KindOk-Larger, RootOk-Larger, intern_rule-Interned, group-EntryOk, GrammarOk,
  Larger,
}
use ft_irc.Grammar.Builder.{starts, starts_with, span, parse_alternation, Piece}
use ft_irc.Grammar.Builder.Valid.Leaves.{Read}
use ft_irc.Grammar.Builder.Valid.Loops.{alternation-NodeOk, parse_alternation-Reads}
use ft_irc.Grammar.Lines.{read, Line}
use ft_irc.Grammar.Validator.{undefined_rule, check_all_rules_defined, validate}
use ft_irc.Grammar.Compile.{
  set_root, define, parse_rule, check_grammar, after_rule, compile_lines, after_read, compile,
  compiled,
}

All-update_at :
    {A : Type 0} (P : A → Type 0) (i : ℕ) (x : A) (xs : List A)
    → P x
    → All P xs
    → All P (update_at i (λ _. x) xs)
All-update_at P i x [] p h = tt
All-update_at P zero x (y ∷ ys) p h = (p, h.1)
All-update_at P (suc i) x (y ∷ ys) p h = (h.0, All-update_at P i x ys p h.1)

length-update_at :
    {A : Type 0} (i : ℕ) (f : A → A) (xs : List A) → length (update_at i f xs) ≡ length xs
length-update_at i f [] = refl
length-update_at zero f (x ∷ xs) = refl
length-update_at (suc i) f (x ∷ xs) = omega (arith, length-update_at i f xs)

set_root-GrammarOk :
    (g : Grammar) (rule root : ℕ)
    → GrammarOk g
    → root < length g.nodes
    → GrammarOk (set_root g rule root)
set_root-GrammarOk g rule root v h =
    let f = set_root g rule root in
    let l : Larger g f = record {
      more_nodes = omega arith;
      more_children = omega arith;
      more_literals = omega arith;
      more_rules = omega arith;
      more_captures = omega arith;
    } in
    record {
      nodes_ok = All-mono (NodeOk g) (NodeOk f) g.nodes (λ x. KindOk-Larger x.kind x l) v.nodes_ok;
      children_ok = v.children_ok;
      roots_ok =
          All-update_at (RootOk f) rule (some root) g.rule_roots h
            (All-mono (RootOk g) (RootOk f) g.rule_roots (λ o. RootOk-Larger o l) v.roots_ok);
      paired = omega (arith, length-update_at rule (λ _. some root) g.rule_roots, v.paired);
    }

All-get :
    {A : Type 0} (P : A → Type 0) (xs : List A) (i : ℕ) (d : A) → P d → All P xs → P (get_or xs i d)
All-get P [] i d p h = p
All-get P (x ∷ xs) zero d p h = h.0
All-get P (x ∷ xs) (suc i) d p h = All-get P xs i d p h.1

-- The root of a rule is a node.
rule_root-inside :
    (g : Grammar) (rule root : ℕ)
    → All (RootOk g) g.rule_roots
    → rule_root g rule ≡ some root
    → root < length g.nodes
rule_root-inside g rule root v e =
    subst (RootOk g) e (All-get (RootOk g) g.rule_roots rule none tt v)

define-Ends :
    (incremental : Bool) (name : Bytes) (rule : ℕ) (body : Piece)
    → GrammarOk body.grammar
    → body.node < length body.grammar.nodes
    → Ends GrammarOk (define incremental name rule body)
unfolding define
define-Ends true name rule body v h =
    let g = body.grammar in
    Option_ind (Ends GrammarOk) (rule_root g rule) (λ _. tt)
      λ root q.
        let both =
          group-EntryOk Kind.alternation g (root ∷ body.node ∷ []) alternation-NodeOk v
            (rule_root-inside g rule root v.roots_ok q, (h, tt)) (omega arith) in
        set_root-GrammarOk (group Kind.alternation g (root ∷ body.node ∷ [])).grammar rule _
          both.valid both.inside
define-Ends false name rule body v h =
    Option_ind (Ends GrammarOk) (rule_root body.grammar rule)
      (λ _. set_root-GrammarOk body.grammar rule body.node v h) λ _ _. tt

pub parse_rule-Ends :
    (line : Bytes) (g : Grammar) → GrammarOk g → Ends GrammarOk (parse_rule line g)
unfolding parse_rule
parse_rule-Ends line g v =
    let named = skip_blanks line in
    let name = (span is_rule_char named).0 in
    let equals = skip_blanks (span is_rule_char named).1 in
    let incremental = starts b'/' (drop 1 equals) in
    let body_text = if incremental then drop 2 equals else drop 1 equals in
    let rule = intern_rule-Interned g name v in
    if_ind (Ends GrammarOk) (is_nil named) (λ _. v)
      λ _.
        Ends-bind (λ _. starts_with is_alpha named ≡ true) GrammarOk
          (require (starts_with is_alpha named) _) _ (require-Ends _ _)
          λ _ _.
            Ends-bind (λ _. starts b'=' equals ≡ true) GrammarOk (require (starts b'=' equals) _) _
              (require-Ends _ _)
              λ _ _.
                Ends-bind (Read (intern_rule g name).grammar body_text) GrammarOk
                  (parse_alternation (suc (length body_text)) (intern_rule g name).grammar
                    body_text)
                  _
                  (parse_alternation-Reads (suc (length body_text)) (intern_rule g name).grammar
                    body_text rule.valid (omega arith))
                  λ body r.
                    Ends-bind (λ _. is_nil (skip_blanks body.rest) ≡ true) GrammarOk
                      (require (is_nil (skip_blanks body.rest)) _) _ (require-Ends _ _)
                      λ _ _.
                        define-Ends incremental name (intern_rule g name).index body r.valid
                          r.inside

undefined_rule-none :
    (g : Grammar) (first count rule : ℕ)
    → undefined_rule g first count ≡ none
    → first ≤ rule
    → rule < first + count
    → (root : ℕ) × (rule_root g rule ≡ some root)
unfolding undefined_rule
undefined_rule-none g first zero rule e l h = absurd (omega arith)
undefined_rule-none g first (suc count) rule e l h = elim (Option-cases (rule_root g first)) [
  | inl q ↦ absurd (ground arith)
  | inr (root, q) ↦
      let later : undefined_rule g (suc first) count ≡ none = ground arith in
      elim (Bool-cases (rule == first)) [
        | inl same ↦
            (root, subst (λ r. rule_root g r ≡ some root) (sym ((==_iff rule first).0 same)) q)
        | inr other ↦
            undefined_rule-none g (suc first) count rule later (ground arith) (omega arith)
      ]
]

-- A grammar whose tables are in order and whose rules are all defined.
pub record Complete (g : Grammar) : Type 0 where
  pub valid : GrammarOk g
  pub defined :
      (rule : ℕ)
      → rule < rule_count g
      → (root : ℕ) × (rule_root g rule ≡ some root) × (root < length g.nodes)

check_grammar-Complete : (g h : Grammar) → GrammarOk g → check_grammar g ≡ compiled h → Complete h
unfolding check_grammar validate check_all_rules_defined
check_grammar-Complete g h v e = elim (Option-cases (check_all_rules_defined g)) [
  | inr (rule, q) ↦ absurd (ground arith)
  | inl q ↦
      let same : h ≡ g = ground arith in
      subst Complete (sym same) (record {
        valid = v;
        defined = λ rule l.
            let (root, r) =
              undefined_rule-none g 0 (rule_count g) rule q (omega arith) (omega arith) in
            (root, r, rule_root-inside g rule root v.roots_ok r);
      })
]

compile_lines-Complete :
    (ls : List Line) (g h : Grammar) → GrammarOk g → compile_lines ls g ≡ compiled h → Complete h
unfolding compile_lines
compile_lines-Complete [] g h v e = check_grammar-Complete g h v e
compile_lines-Complete (l ∷ ls) g h v e =
    after (λ f p q. compile_lines-Complete ls f h p q) (parse_rule l.content g)
      (parse_rule-Ends l.content g v) e
  where
    after :
        ((f : Grammar) → GrammarOk f → compile_lines ls f ≡ compiled h → Complete h)
        → (r : Result Grammar) → Ends GrammarOk r
        → after_rule l.number (compile_lines ls) r ≡ compiled h
        → Complete h
    after next (failed why) p q = absurd (ground arith)
    after next overflow p q = absurd (ground arith)
    after next out_of_fuel p q = absurd p
    after next (done f) p q = next f p q

-- In the grammar that compile returns every index is one of an entry: the children, literals,
-- rules and capture slots of the nodes, the nodes that are children and the roots of the rules;
-- every node over children has at least one, every octet range runs forward, and every rule has a
-- root.
pub compile-Complete :
    (grammar_text : Bytes) (g : Grammar) → compile grammar_text ≡ compiled g → Complete g
unfolding compile
compile-Complete grammar_text g e = after (read grammar_text) e
  where
    after : (r : ℕ ⊎ List Line) → after_read r ≡ compiled g → Complete g
    after (inl line) q = absurd (ground arith)
    after (inr lines) q =
        compile_lines-Complete lines empty_grammar g
          (record { nodes_ok = tt; children_ok = tt; roots_ok = tt; paired = refl }) q
