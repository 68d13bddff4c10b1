-- ===== src/Parsing/Derived.antt =====
-- src/Server.cpp: with the interpreted matcher, a message of handleMessage comes of a derivation of
-- its line.
use ft_irc.Prelude.{
  Bytes, text, ℕ, ◌≡◌, refl, sym, ap, subst, ◌∙◌, ◌⊎◌, inl, inr, true, ◌||◌, Option, none, some,
  List, [], ◌∷◌, map, arith, if◌then◌else◌, Option-cases, length,
}
use ft_irc.Grammar.Rules.{Grammar, rule_root, capture_index}
use ft_irc.Grammar.MatchResult.{field_at, MatchResult}
use ft_irc.Grammar.Derivation.{Capture, Derives}
use ft_irc.Grammar.Tree.{tree_match}
use ft_irc.Grammar.Tree.Sound.Result.{tree_match-Derives, Holds}
use ft_irc.Message.{Message}
use ft_irc.Parsing.{
  uppered, first_token, command_rule, same_slot, params_from, fill_params, parse_line,
  match_command, parse, tree_matcher, Parser,
}

-- The texts of the captures that are neither the command nor the prefix.
abbrev pub kept_texts : Option ℕ → Option ℕ → List Capture → List Bytes
kept_texts command prefix [] = []
kept_texts command prefix ((slot, bytes) ∷ cs) =
    if same_slot slot command || same_slot slot prefix
    then kept_texts command prefix cs
    else bytes ∷ kept_texts command prefix cs

params_from-kept :
    (command prefix : Option ℕ) (cs : List Capture)
    → params_from command prefix (map (λ c. c.1) cs) (map (λ c. c.0) cs)
      ≡ kept_texts command prefix cs
unfolding params_from
params_from-kept command prefix [] = refl
params_from-kept command prefix ((slot, bytes) ∷ cs) =
    ground (arith, params_from-kept command prefix cs)

-- A rule that derives the whole line, with the parameters that its captures are.
pub record Derived (g : Grammar) (rule : ℕ) (raw : Bytes) (out : MatchResult) (params : List Bytes)
    : Type 0 where
  pub root : ℕ
  pub captures : List Capture
  pub root_of : rule_root g rule ≡ some root
  pub derivation : Derives g raw root 0 (length raw) captures
  pub holds : Holds g captures out
  pub params_of :
      params
      ≡ kept_texts (capture_index g (text "command")) (capture_index g (text "prefix")) captures

-- By the command's own rule, or by the rule `message`.
pub record ByRule (p : Parser) (raw : Bytes) (msg : Message) : Type 0 where
  pub rule : ℕ
  pub out : MatchResult
  pub which :
      ((msg.fields ≡ some out)
        × (msg.command ≡ first_token raw)
        × (command_rule p msg.command ≡ some rule))
      ⊎ ((msg.fields ≡ none)
          × (msg.command ≡ uppered (field_at out (text "command") 0))
          × (rule ≡ p.message_rule))
  pub derived : Derived p.grammar rule raw out msg.params

tree_matcher-Derived :
    (g : Grammar) (rule : ℕ) (raw : Bytes) (out : MatchResult)
    → tree_matcher g rule raw ≡ some out
    → Derived g rule raw out (fill_params g out)
unfolding tree_matcher fill_params
tree_matcher-Derived g rule raw out h =
    let ok : (tree_match g rule raw).matched ≡ true = ground arith in
    let same : (tree_match g rule raw).out ≡ out = ground arith in
    let (root, q, (cs, d, holds)) = tree_match-Derives g rule raw ok in
    let holds_out : Holds g cs out = subst (Holds g cs) same holds in
    record {
      root = root;
      captures = cs;
      root_of = q;
      derivation = d;
      holds = holds_out;
      params_of =
          rw (holds_out.in_order, holds_out.with_slots)
            (params_from-kept (capture_index g (text "command")) (capture_index g (text "prefix"))
              cs);
    }

match_command-found :
    (p : Parser) (raw : Bytes) (out : MatchResult)
    → match_command p raw ≡ some out
    → (rule : ℕ) × (command_rule p (first_token raw) ≡ some rule) × (p.matcher rule raw ≡ some out)
unfolding match_command
match_command-found p raw out h = elim (Option-cases (command_rule p (first_token raw))) [
  | inl n ↦ absurd (ground arith)
  | inr (rule, q) ↦ (rule, q, ground arith)
]

-- With the interpreted matcher, a line that handleMessage makes a message of is derived as a
-- whole from a rule of the grammar: from the rule that is bound to the message's command, which
-- is then the line's first word in upper case, or from the rule `message`, whose capture
-- `command` it then is in upper case. The parameters are the texts of the derivation's other
-- captures, in their order, without the prefix.
pub parse-ByRule :
    (p : Parser) (raw : Bytes) (msg : Message)
    → p.matcher ≡ tree_matcher p.grammar
    → parse p raw ≡ some msg
    → ByRule p raw msg
unfolding parse parse_line
parse-ByRule p raw msg m h = elim (Option-cases (match_command p raw)) [
  | inr (out, q) ↦
      let (rule, bound, found) = match_command-found p raw out q in
      let fields : msg.fields ≡ some out = ground arith in
      let name : msg.command ≡ first_token raw = ground arith in
      let params : msg.params ≡ fill_params p.grammar out = ground arith in
      record {
        rule = rule;
        out = out;
        which = inl (fields, name, ap (command_rule p) name ∙ bound);
        derived =
            subst (Derived p.grammar rule raw out) (sym params)
              (tree_matcher-Derived p.grammar rule raw out (ap (λ f. f rule raw) (sym m) ∙ found));
      }
  | inl q ↦ elim (Option-cases (p.matcher p.message_rule raw)) [
    | inl n ↦ absurd (ground arith)
    | inr (out, found) ↦
        let rule = p.message_rule in
        let fields : msg.fields ≡ none = ground arith in
        let name : msg.command ≡ uppered (field_at out (text "command") 0) = ground arith in
        let params : msg.params ≡ fill_params p.grammar out = ground arith in
        record {
          rule = rule;
          out = out;
          which = inr (fields, name, refl);
          derived =
              subst (Derived p.grammar rule raw out) (sym params) (
                tree_matcher-Derived p.grammar rule raw out (ap (λ f. f rule raw) (sym m) ∙ found));
        }
  ]
]
