-- ===== src/Parsing/Binding.antt =====
-- src/Server.cpp: what initGrammar makes sure of. Every command of the table has a rule, every rule
-- that is bound has a handler, and a rule is bound to the command that it is named after.
use ft_irc.Prelude.{
  Bytes, bytes_eq_sound, text, bytes_eq, Map, nat_key, bytes_key, lookup, ℕ, suc, ◌≡◌, refl, sym,
  ap, subst, ◌∙◌, inl, inr, true, some, List, [], ◌∷◌, arith, Bool-cases, Option-cases, get_or,
  drop, is_nil, get_or-drop, All,
}
use ft_irc.Prelude.Maps.Laws.{lookup-insert}
use ft_irc.Grammar.Rules.{Grammar, rule_index, rule_name}
use ft_irc.Dispatch.{CommandEntry, commands, find_command}
use ft_irc.Parsing.{
  Matcher, command_rule, command_name, bind_rule, bind_rules, bind_command_rules, missing_handlers,
  missing_rules, verify_command_table, init_parser, Parser,
}

pub record Bound (p : Parser) : Type 0 where
  pub handled : All (λ e. (rule : ℕ) × (command_rule p e.name ≡ some rule)) commands
  pub known :
      (name : Bytes) (rule : ℕ)
      → command_rule p name ≡ some rule
      → (e : CommandEntry) × (find_command name ≡ some e)
  pub named :
      (name : Bytes) (rule : ℕ)
      → command_rule p name ≡ some rule
      → command_name (rule_name p.grammar rule) ≡ some name

missing_handlers-none :
    (rules : Map Bytes ℕ) (name : Bytes) (rule : ℕ)
    → is_nil (missing_handlers rules) ≡ true
    → lookup name rules ≡ some rule
    → (e : CommandEntry) × (find_command name ≡ some e)
unfolding missing_handlers lookup
missing_handlers-none [] name rule m h = cc
missing_handlers-none ((n, r) ∷ rules) name rule m h = elim (Option-cases (find_command n)) [
  | inl q ↦ absurd (ground arith)
  | inr (e, q) ↦
      let rest : is_nil (missing_handlers rules) ≡ true = ground arith in
      elim (Bool-cases (bytes_eq n name)) [
        | inl same ↦ (e, subst (λ k. find_command k ≡ some e) (bytes_eq_sound n name same) q)
        | inr other ↦ missing_handlers-none rules name rule rest (ground arith)
      ]
]

missing_rules-none :
    (rules : Map Bytes ℕ) (es : List CommandEntry)
    → is_nil (missing_rules rules es) ≡ true
    → All (λ e. (rule : ℕ) × (lookup e.name rules ≡ some rule)) es
unfolding missing_rules
missing_rules-none rules [] m = tt
missing_rules-none rules (e ∷ es) m = elim (Option-cases (lookup e.name rules)) [
  | inl q ↦ absurd (ground arith)
  | inr (rule, q) ↦ ((rule, q), missing_rules-none rules es (ground arith))
]

-- The rules that are bound are those of the names that have been read.
abbrev Named : List Bytes → Map Bytes ℕ → Type 0
Named all_names rules =
    (name : Bytes) (rule : ℕ)
    → lookup name rules ≡ some rule
    → command_name (get_or all_names rule []) ≡ some name

bind_rule-Named :
    (i : ℕ) (n : Bytes) (rules : Map Bytes ℕ) (all_names : List Bytes)
    → get_or all_names i [] ≡ n
    → Named all_names rules
    → Named all_names (bind_rule i n rules)
unfolding bind_rule
bind_rule-Named i n rules all_names here ok name rule h = elim (Option-cases (command_name n)) [
  | inl q ↦ ok name rule (rw (q, bind_rule) at h)
  | inr (nm, q) ↦
      let added = lookup-insert name nm i rules in
      elim (Bool-cases (bytes_eq nm name)) [
        | inl same ↦
            let at_i : rule ≡ i = ground (arith, added) in
            subst (λ r. command_name (get_or all_names r []) ≡ some name) (sym at_i)
              (ap command_name here ∙ q ∙ ap some (bytes_eq_sound nm name same))
        | inr other ↦ ok name rule (ground (arith, added))
      ]
]

bind_rules-Named :
    (i : ℕ) (names : List Bytes) (rules : Map Bytes ℕ) (all_names : List Bytes)
    → drop i all_names ≡ names
    → Named all_names rules
    → Named all_names (bind_rules i names rules)
unfolding bind_rules
bind_rules-Named i [] rules all_names d ok = ok
bind_rules-Named i (n ∷ names) rules all_names d ok =
    let (here, later) = get_or-drop i all_names n [] names d in
    bind_rules-Named (suc i) names (bind_rule i n rules) all_names later
      (bind_rule-Named i n rules all_names here ok)

-- If initGrammar returns, the grammar and the command table fit each other: every command of the
-- table has a rule, every command that a rule is bound to is in the table, and the rule that is
-- bound to a command is named after it, in any case, with -cmd behind it.
pub init_parser-Bound :
    (origin : Bytes) (g : Grammar) (matcher : Matcher) (p : Parser)
    → init_parser origin g matcher ≡ inr p
    → Bound p
unfolding init_parser verify_command_table command_rule bind_command_rules lookup
init_parser-Bound origin g matcher p h =
    let rules = bind_command_rules g in
    elim (Option-cases (rule_index g (text "message"))) [
      | inl q ↦ absurd (ground arith)
      | inr (rule, q) ↦ elim (Option-cases (verify_command_table origin rules)) [
        | inr (why, v) ↦ absurd (ground arith)
        | inl v ↦
            let same_rules : p.command_rules ≡ rules = ground arith in
            let same_grammar : p.grammar ≡ g = ground arith in
            let handlers : is_nil (missing_handlers rules) ≡ true = ground arith in
            let entries : is_nil (missing_rules rules commands) ≡ true = ground arith in
            record {
              handled =
                  subst (λ m. All (λ e. (rule : ℕ) × (lookup e.name m ≡ some rule)) commands)
                    (sym same_rules) (missing_rules-none rules commands entries);
              known = λ name r l.
                  missing_handlers-none rules name r handlers
                    (ap (lookup name) (sym same_rules) ∙ l);
              named = λ name r l.
                  subst (λ f. command_name (rule_name f r) ≡ some name) (sym same_grammar)
                    (bind_rules-Named 0 g.rule_names [] g.rule_names refl (λ n k e. cc) name r
                      (ap (lookup name) (sym same_rules) ∙ l));
            }
      ]
    ]
