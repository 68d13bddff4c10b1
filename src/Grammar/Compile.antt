-- ===== src/Grammar/Compile.antt =====
-- src/grammar/GrammarBuilder.cpp: parseRule and compile. The line number that `fail` puts before
-- its message stands beside the message.
pub mod Valid
use ft_irc.Prelude.{
  Bytes, text, ℕ, suc, ◌⊎◌, inl, inr, Bool, none, some, List, [], ◌∷◌, ◌++◌, if◌then◌else◌, length,
  drop, update_at, is_nil,
}
use ft_irc.Grammar.Chars.{is_alpha, is_rule_char, skip_blanks}
use ft_irc.Grammar.Rules.{Grammar, Kind, empty_grammar, rule_root, rule_name}
use ft_irc.Grammar.Result.{require, Result, failed, overflow, out_of_fuel, done, ◌>>=◌}
use ft_irc.Grammar.Tables.{intern_rule, group}
use ft_irc.Grammar.Builder.{starts, starts_with, span, number, parse_alternation, Piece}
use ft_irc.Grammar.Lines.{read, Line}
use ft_irc.Grammar.Validator.{fine, no_fuel, undefined, left_recursive, validate}

abbrev pub set_root : Grammar → ℕ → ℕ → Grammar
set_root g rule root = record g { rule_roots = update_at rule (λ _. some root) g.rule_roots }

-- The end of parseRule, when the body is read.
unfoldable pub define : Bool → Bytes → ℕ → Piece → Result Grammar
define incremental name rule body =
    let g = body.grammar in
    if incremental
    then elim (rule_root g rule) [
      | none ↦ failed (text "'" ++ (name ++ text " =/' before that rule was ever defined"))
      | some root ↦
          let both = group Kind.alternation g (root ∷ body.node ∷ []) in
          done (set_root both.grammar rule both.index)
    ]
    else elim (rule_root g rule) [
      | none ↦ done (set_root g rule body.node)
      | some _ ↦
          failed (text "rule '" ++ (name ++ text "' is defined twice (use '=/' to extend it)"))
    ]

unfoldable pub parse_rule : Bytes → Grammar → Result Grammar
parse_rule line g =
    let named = skip_blanks line in
    let (name, after) = span is_rule_char named in
    let equals = skip_blanks after in
    let incremental = starts b'/' (drop 1 equals) in
    let body_text = if incremental then drop 2 equals else drop 1 equals in
    let rule = intern_rule g name in
    if is_nil named then done g else (do
      _ ← require (starts_with is_alpha named) (text "a rule must begin with a rule name")
      _ ←
          require (starts b'=' equals)
            (text "expected '=' or '=/' after rule name '" ++ (name ++ text "'"))
      body ← parse_alternation (suc (length body_text)) rule.grammar body_text
      _ ←
          require (is_nil (skip_blanks body.rest))
            (text "trailing text after rule '" ++ (name ++ text "'"))
      define incremental name rule.index body)

pub data Compiled : Type 0 where
  rejected : ℕ → Bytes → Compiled
  unbounded unfinished : Compiled
  compiled : Grammar → Compiled

unfoldable pub check_grammar : Grammar → Compiled
check_grammar g = elim (validate g) [
  | fine ↦ compiled g
  | no_fuel ↦ unfinished
  | undefined rule ↦
      rejected 0 (text "rule '" ++ (rule_name g rule ++ text "' is referenced but never defined"))
  | left_recursive rule ↦
      rejected 0 (text "rule '" ++ (rule_name g rule ++ text "' is left-recursive"))
]

abbrev pub after_rule : ℕ → (Grammar → Compiled) → Result Grammar → Compiled
after_rule number next (failed why) = rejected number why
after_rule number next overflow = unbounded
after_rule number next out_of_fuel = unfinished
after_rule number next (done g) = next g

unfoldable pub compile_lines : List Line → Grammar → Compiled
compile_lines [] g = check_grammar g
compile_lines (l ∷ ls) g = after_rule l.number (compile_lines ls) (parse_rule l.content g)

abbrev pub after_read : ℕ ⊎ List Line → Compiled
after_read (inl line) = rejected line (text "'=' continuation with no rule name above it")
after_read (inr lines) = compile_lines lines empty_grammar

unfoldable pub compile : Bytes → Compiled
compile grammar_text = after_read (read grammar_text)
