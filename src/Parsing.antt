-- ===== src/Parsing.antt =====
-- src/Server.cpp: how a line becomes a message, and how the grammar's rules are bound to the
-- commands. A matcher is the virtual function match of include/grammar/IMatcher.hpp: the result,
-- where it returns true.
pub mod Binding
pub mod Derived
use ft_irc.Prelude.{
  Bytes, text, bytes_eq, Map, nat_key, bytes_key, lookup, insert, ℕ, suc, ◌+◌, ◌-◌, ◌⊎◌, inl, inr,
  Bool, false, not, ◌&&◌, ◌||◌, Option, none, some, List, [], ◌∷◌, ◌++◌, leb, ◌==◌, if◌then◌else◌,
  length, take, drop, is_nil,
}
use ft_irc.Grammar.Rules.{Grammar, rule_index, capture_index}
use ft_irc.Grammar.Tree.{tree_match}
use ft_irc.Grammar.MatchResult.{values_of, field_at, MatchResult}
use ft_irc.Message.{matched, has, Message}
use ft_irc.Dispatch.{CommandEntry, commands, find_command}

abbrev pub Matcher : Type 0
Matcher = ℕ → Bytes → Option MatchResult

-- The fields of Server that initGrammar sets.
pub record Parser : Type 0 where
  pub grammar : Grammar
  pub matcher : Matcher
  pub message_rule : ℕ
  pub command_rules : Map Bytes ℕ

-- The two loops that write a name in upper case.
abbrev pub upper : ℕ → ℕ
upper c = if leb b'a' c && leb c b'z' then c - b'a' + b'A' else c

abbrev pub uppered : Bytes → Bytes
uppered [] = []
uppered (c ∷ s) = upper c ∷ uppered s

-- The second loop of firstToken.
unfoldable pub token : Bytes → Bytes
token [] = []
token (c ∷ s) = if c == b' ' then [] else upper c ∷ token s

unfoldable pub first_token : Bytes → Bytes
first_token [] = []
first_token (c ∷ s) =
    let rest = first_token s in
    if c == b' ' then rest else (if c == b':' then [] else token (c ∷ s))

unfoldable pub command_rule : Parser → Bytes → Option ℕ
command_rule p command = lookup command p.command_rules

abbrev pub same_slot : ℕ → Option ℕ → Bool
same_slot owner none = false
same_slot owner (some slot) = owner == slot

-- The loop of fillParams, on the texts of the sequence and their owners. A text without an owner
-- counts as the owner -1, which is kept unless a slot is missing too.
unfoldable pub params_from : Option ℕ → Option ℕ → List Bytes → List ℕ → List Bytes
params_from command prefix [] owners = []
params_from command prefix (t ∷ ts) [] =
    let rest = params_from command prefix ts [] in
    elim command [ none ↦ rest | some _ ↦ elim prefix [ none ↦ rest | some _ ↦ t ∷ rest ] ]
params_from command prefix (t ∷ ts) (o ∷ os) =
    let rest = params_from command prefix ts os in
    if same_slot o command || same_slot o prefix then rest else t ∷ rest

unfoldable pub fill_params : Grammar → MatchResult → List Bytes
fill_params g fields =
    params_from (capture_index g (text "command")) (capture_index g (text "prefix")) fields.sequence
      fields.owners

-- The index of the last parameter, none for -1.
abbrev pub last_index : List Bytes → Option ℕ
last_index [] = none
last_index (p ∷ ps) = some (length ps)

unfoldable pub parse_line : Parser → Bytes → Option Message
parse_line p raw = elim (p.matcher p.message_rule raw) [
  | none ↦ none
  | some result ↦
      let params = fill_params p.grammar result in
      some (record {
        command = uppered (field_at result (text "command") 0);
        params = params;
        trailing_index =
            if is_nil (values_of result (text "trail")) then none else last_index params;
        fields = none;
      })
]

-- The match of a command's own rule, and parseLine where there is none.
unfoldable pub match_command : Parser → Bytes → Option MatchResult
match_command p raw =
    let name = first_token raw in
    if is_nil name
    then none
    else elim (command_rule p name) [ none ↦ none | some rule ↦ p.matcher rule raw ]

-- handleMessage up to its test for an empty command.
unfoldable pub parse : Parser → Bytes → Option Message
parse p raw = elim (match_command p raw) [
  | none ↦ parse_line p raw
  | some fields ↦ some (record {
    command = first_token raw;
    params = fill_params p.grammar fields;
    trailing_index = none;
    fields = some fields;
  })
]

abbrev pub suffix : Bytes
unfolding text
suffix = text "-cmd"

-- The name before the suffix, if the rule has one.
unfoldable pub command_name : Bytes → Option Bytes
command_name rule =
    if leb (length rule) (length suffix)
    then none
    else (if bytes_eq (drop (length rule - length suffix) rule) suffix
        then some (uppered (take (length rule - length suffix) rule))
        else none)

unfoldable pub bind_rule : ℕ → Bytes → Map Bytes ℕ → Map Bytes ℕ
bind_rule i rule rules = elim (command_name rule) [ none ↦ rules | some name ↦ insert name i rules ]

unfoldable pub bind_rules : ℕ → List Bytes → Map Bytes ℕ → Map Bytes ℕ
bind_rules i [] rules = rules
bind_rules i (rule ∷ names) rules = bind_rules (suc i) names (bind_rule i rule rules)

unfoldable pub bind_command_rules : Grammar → Map Bytes ℕ
bind_command_rules g = bind_rules 0 g.rule_names []

unfoldable pub missing_handlers : Map Bytes ℕ → List Bytes
missing_handlers [] = []
missing_handlers ((name, _) ∷ rules) = elim (find_command name) [
  | none ↦ name ∷ missing_handlers rules
  | some _ ↦ missing_handlers rules
]

unfoldable pub missing_rules : Map Bytes ℕ → List CommandEntry → List Bytes
missing_rules rules [] = []
missing_rules rules (e ∷ es) = elim (lookup e.name rules) [
  | none ↦ e.name ∷ missing_rules rules es
  | some _ ↦ missing_rules rules es
]

abbrev each_with : Bytes → List Bytes → Bytes
each_with after [] = []
each_with after (n ∷ ns) = text " " ++ (n ++ (after ++ each_with after ns))

-- The text of the exception that verifyCommandTable throws, none if it returns.
unfoldable pub verify_command_table : Bytes → Map Bytes ℕ → Option Bytes
verify_command_table origin rules =
    let handlers = missing_handlers rules in
    let entries = missing_rules rules commands in
    if is_nil handlers && is_nil entries
    then none
    else some (
        text "grammar from "
        ++ (origin
            ++ (text " does not match the command table:"
                ++ (each_with (text "-cmd has no handler;") handlers
                    ++ each_with (text " has no grammar rule;") entries))))

-- initGrammar behind the compilation of the grammar and the choice of the matcher.
unfoldable pub init_parser : Bytes → Grammar → Matcher → Bytes ⊎ Parser
init_parser origin g matcher = elim (rule_index g (text "message")) [
  | none ↦ inl (text "grammar defines no 'message' rule")
  | some rule ↦
      let rules = bind_command_rules g in
      elim (verify_command_table origin rules) [
        | some why ↦ inl why
        | none ↦
            inr (record {
              grammar = g;
              matcher = matcher;
              message_rule = rule;
              command_rules = rules;
            })
      ]
]

-- The matcher of the interpreted strategy.
unfoldable pub tree_matcher : Grammar → Matcher
tree_matcher g rule line = let r = tree_match g rule line in if r.matched then some r.out else none
