-- ===== src/Examples/Protocol.antt =====
-- A small grammar that src/grammar/GrammarBuilder.cpp compiles, and a line parsed by one.
use ft_irc.Grammar.Result.{Ends, Result, done}
use ft_irc.Grammar.Program.{empty_program, in_class, Program}
use ft_irc.Grammar.Emit.{
  emit, patch_y, bits_eq, class_index, emit_class, set_range, range_bits, set_folded, build_class,
  any_capture, has_capture, emit_body, emit_sequence, emit_loop, emit_repetition, emit_literal,
  emit_capture, emit_reference, emit_kind, emit_node, compile_rule,
}
use ft_irc.Grammar.Emit.Targets.{Closed, compile_rule-Closed}
use ft_irc.Grammar.Machine.{
  Slots, follow, add_thread, run_thread, run_threads, rounds, collect, program_for, compile_from,
  compile_all, run_program, pike_match, Thread, PikeMatch,
}
use ft_irc.Grammar.Machine.Inside.{AllPlaced}
use ft_irc.Grammar.Machine.Bounds.{
  Bounded, Current-Placed, run_program-Bounded, Current, started, moved,
}
use ft_irc.Grammar.Machine.Ends.{compile_all-compiled, pike_match-ends}
use ft_irc.Grammar.Builder.{parse_alternation}
use ft_irc.Grammar.Builder.Valid.Leaves.{Read}
use ft_irc.Grammar.Builder.Valid.Loops.{parse_alternation-Ends}
use ft_irc.Grammar.Walk.{push_capture}
use ft_irc.Dispatch.{find_command, find_entry, commands}
use ft_irc.Grammar.Tree.Octets.{in_range, is_single_octet, count_octets, octet_matches}
use ft_irc.Grammar.Validator.{
  validate, check_all_rules_defined, undefined_rule, check_no_left_recursion,
  collect_left_reachable, left_parts, is_nullable,
}
use ft_irc.Grammar.Tables.{
  group, add_repetition, add_node, add_children, add_range, intern_rule, add_reference,
  intern_capture, add_literal,
}
use ft_irc.Grammar.Builder.{
  span, parse_alternation, parse_concatenation, concatenation_loop, parse_repetition, repeat_bounds,
  number_from, parse_element, element_of, element_at, parse_numeric_value, value_pieces,
  upper_bound, alternation_loop, parse_literal, bracketed, parse_name,
}
use ft_irc.Grammar.Result.{require, to_int}
use ft_irc.Grammar.Chars.{
  trimmed, drop_blank_end, skip_blanks, is_blank, is_alpha, is_rule_char, is_digit, is_hex_digit,
  lowered, to_lower,
}
use ft_irc.Grammar.Lines.{
  read, read_lines, get_lines, read_line, strip_comment, strip_cr, read_body,
}
use ft_irc.Prelude.{
  Bytes, text, bytes_eq, bytes_lt, nat_key, bytes_key, lookup, insert, ℕ, ◌+◌, ◌≡◌, refl, inr, true,
  Option, none, some, List, [], ◌∷◌, ◌++◌, arith, length,
}
use ft_irc.Grammar.Rules.{
  Grammar, Kind, new_node, empty_grammar, rule_root, name_index, rule_index, capture_index,
}
use ft_irc.Grammar.MatchResult.{MatchResult, reset}
use ft_irc.Grammar.Compile.{
  Compiled, compile, compiled, compile_lines, parse_rule, define, check_grammar,
}
use ft_irc.Grammar.Compile.Valid.{Complete, compile-Complete}
use ft_irc.Grammar.Tree.{
  tree_match, match_from, match_node, match_kind, match_sequence, match_literal, match_continuation,
  match_range, match_reference, match_repetition, next_round, match_octets, give_back, adopt_if,
}
use ft_irc.Grammar.Tree.Sound.Result.{tree_match-Derives, Holds}
use ft_irc.Grammar.Derivation.{Capture, Derives, folded_prefix}
use ft_irc.Message.{Message}
use ft_irc.Parsing.{
  Parser, init_parser, tree_matcher, bind_command_rules, parse, verify_command_table,
  missing_handlers, bind_rules, bind_rule, command_name, missing_rules, match_command, first_token,
  token, command_rule, fill_params, params_from,
}
use ft_irc.Parsing.Binding.{Bound, init_parser-Bound}
use ft_irc.Parsing.Derived.{ByRule, parse-ByRule}

abbrev small_text : Bytes
unfolding text
small_text = text "word = 1*%x61-7A" ++ (10 ∷ text "message = \"A\" [ %x20 $word ]")

abbrev grammar_of : Compiled → Grammar
grammar_of (compiled g) = g
grammar_of other = empty_grammar

small : Grammar
unfolding compile
small = grammar_of (compile small_text)

small-compiled : compile small_text ≡ compiled small
unfolding compile read read_lines get_lines small_text read_line trimmed drop_blank_end skip_blanks
    strip_comment strip_cr is_blank read_body compile_lines parse_rule require is_alpha span
    is_rule_char is_digit parse_alternation parse_concatenation concatenation_loop parse_repetition
    repeat_bounds to_int number_from parse_element element_of element_at parse_numeric_value
    value_pieces is_hex_digit upper_bound alternation_loop define group add_repetition add_node
    add_children add_range intern_rule name_index parse_literal bracketed parse_name add_reference
    intern_capture add_literal bytes_eq lowered to_lower check_grammar validate
    check_all_rules_defined undefined_rule check_no_left_recursion collect_left_reachable left_parts
    is_nullable small
small-compiled = refl

compile-Complete_example : Complete small
compile-Complete_example = compile-Complete small_text small small-compiled

-- Every command has the rule `"QUIT" SPACE $word`.
abbrev command_rules : List Bytes
unfolding text
command_rules =
    text "cap-cmd"
    ∷ text "pass-cmd"
    ∷ text "nick-cmd"
    ∷ text "user-cmd"
    ∷ text "quit-cmd"
    ∷ text "pong-cmd"
    ∷ text "ping-cmd"
    ∷ text "join-cmd"
    ∷ text "part-cmd"
    ∷ text "privmsg-cmd"
    ∷ text "notice-cmd"
    ∷ text "kick-cmd"
    ∷ text "invite-cmd"
    ∷ text "topic-cmd"
    ∷ text "mode-cmd"
    ∷ text "who-cmd"
    ∷ text "whois-cmd"
    ∷ text "userhost-cmd"
    ∷ text "message"
    ∷ text "word"
    ∷ []

abbrev same_root : List Bytes → List (Option ℕ)
same_root [] = some 1 ∷ []
same_root (n ∷ []) = some 1 ∷ []
same_root (n ∷ m ∷ ns) = some 5 ∷ same_root (m ∷ ns)

abbrev quits : Grammar
unfolding text
quits = record {
  nodes =
      record new_node { kind = Kind.octet_range; lo = 97; hi = some 122 }
      ∷ record new_node { kind = Kind.repetition; lo = 1; hi = none; first = 0; count = 1 }
      ∷ record new_node { kind = Kind.literal; literal = 0 }
      ∷ record new_node { kind = Kind.octet_range; lo = 32; hi = some 32 }
      ∷ record new_node { kind = Kind.reference; lo = 19; capture = some 0 }
      ∷ record new_node { kind = Kind.sequence; first = 1; count = 3 }
      ∷ [];
  children = 0 ∷ 2 ∷ 3 ∷ 4 ∷ [];
  literals = text "QUIT" ∷ [];
  capture_names = text "word" ∷ [];
  rule_names = command_rules;
  rule_roots = same_root command_rules;
}

abbrev bye : Bytes
unfolding text
bye = text "quit bye"

tree_match-Derives_example :
    (root : ℕ) × (rule_root quits 4 ≡ some root)
    × ((cs : List Capture) × Derives quits bye root 0 8 cs
        × Holds quits cs (tree_match quits 4 bye).out)
unfolding tree_match quits match_from match_node match_kind match_sequence match_literal
    folded_prefix to_lower match_continuation match_range in_range match_reference match_repetition
    next_round is_single_octet match_octets count_octets octet_matches give_back
tree_match-Derives_example = tree_match-Derives quits 4 bye refl

parser : Parser
unfolding bind_command_rules
parser = record {
  grammar = quits;
  matcher = tree_matcher quits;
  message_rule = 18;
  command_rules = bind_command_rules quits;
}

parser-init : init_parser (text "test") quits (tree_matcher quits) ≡ inr parser
unfolding init_parser rule_index name_index quits bytes_eq lowered to_lower verify_command_table
    missing_handlers bind_command_rules bind_rules bind_rule command_name insert bytes_lt
    find_command find_entry commands missing_rules lookup parser
parser-init = refl

init_parser-Bound_example : Bound parser
init_parser-Bound_example =
    init_parser-Bound (text "test") quits (tree_matcher quits) parser parser-init

abbrev word_of : Bytes → MatchResult
word_of w = record (reset quits.capture_names) {
  values = (w ∷ []) ∷ [];
  sequence = w ∷ [];
  owners = 0 ∷ [];
}

abbrev said_bye : Message
unfolding text
said_bye = record {
  command = text "QUIT";
  params = text "bye" ∷ [];
  trailing_index = none;
  fields = some (word_of (text "bye"));
}

bye-parsed : parse parser bye ≡ some said_bye
unfolding parse match_command first_token bye token command_rule lookup parser bind_rules bind_rule
    command_name bytes_eq insert bytes_lt tree_matcher tree_match match_from match_node match_kind
    match_sequence match_literal folded_prefix to_lower match_continuation match_range in_range
    match_reference match_repetition next_round is_single_octet match_octets count_octets
    octet_matches give_back fill_params adopt_if params_from push_capture capture_index name_index
bye-parsed = refl

parse-ByRule_example : ByRule parser bye said_bye
unfolding tree_matcher parser
parse-ByRule_example = parse-ByRule parser bye said_bye refl bye-parsed

-- A part of a rule, with groups, alternatives, repetitions, a range and a capture.
abbrev nested : Bytes
unfolding text
nested = text "( \"A\" / 2*3%x41-5A / [ $word ] ) *word / 1%x30.31"

parse_alternation-Ends_example : Ends (Read small nested) (parse_alternation 60 small nested)
unfolding nested
parse_alternation-Ends_example =
    parse_alternation-Ends 60 small nested compile-Complete_example.valid (omega arith)

abbrev program_of : Result Program → Program
program_of (done p) = p
program_of other = empty_program

-- The program of `"QUIT" SPACE $word`.
abbrev quit_program : Program
quit_program = program_of (compile_rule quits 4)

quit_program-compiled : compile_rule quits 4 ≡ done quit_program
unfolding compile_rule quits emit_node is_single_octet emit_kind emit_sequence build_class
    emit_reference emit_capture emit_repetition emit_body has_capture any_capture emit_loop
quit_program-compiled = refl

compile_rule-Closed_example : Closed quit_program
compile_rule-Closed_example = compile_rule-Closed quits 4 quit_program quit_program-compiled

quit_program-found : program_for quits 4 ≡ some (some quit_program)
unfolding program_for
quit_program-found = ground (arith, quit_program-compiled)

pike_match-ends_example : (r : PikeMatch) × (pike_match quits 4 bye ≡ some r)
pike_match-ends_example = pike_match-ends quits 4 bye (some quit_program) quit_program-found

bye-by_machine :
    pike_match quits 4 bye ≡ some (record { matched = true; out = word_of (text "bye") })
unfolding text pike_match program_for compile_rule quits emit_node is_single_octet emit_kind
    emit_sequence build_class emit_reference emit_capture emit_repetition emit_body has_capture
    any_capture emit_loop emit emit_class class_index bits_eq set_range range_bits set_folded
    patch_y emit_literal run_program add_thread follow rounds run_threads collect in_class
    push_capture to_lower bye run_thread
bye-by_machine = refl

abbrev bye_slots : Slots
bye_slots = some 5 ∷ some 8 ∷ []

bye-ran : run_program quits quit_program bye ≡ some (some bye_slots)
unfolding text compile_rule quits emit_node is_single_octet emit_kind emit_sequence build_class
    emit_reference emit_capture emit_repetition emit_body has_capture any_capture emit_loop emit
    emit_class class_index bits_eq set_range range_bits set_folded patch_y emit_literal run_program
    add_thread follow rounds run_threads run_thread in_class to_lower bye
bye-ran = refl

run_program-Bounded_example : Bounded quit_program (length bye) bye_slots
run_program-Bounded_example =
    run_program-Bounded quits 4 quit_program bye bye_slots quit_program-compiled bye-ran

abbrev waiting : ℕ → List Thread
waiting pc = record { pc = pc; slots = none ∷ none ∷ [] } ∷ []

bye-started : Current quit_program bye 0 bye (waiting 0)
unfolding text compile_rule quits emit_node is_single_octet emit_kind emit_sequence build_class
    emit_reference emit_capture emit_repetition emit_body has_capture any_capture emit_loop emit
    emit_class class_index bits_eq set_range range_bits set_folded patch_y emit_literal run_program
    add_thread follow rounds run_threads run_thread in_class to_lower bye
bye-started = started (record { threads = waiting 0; seen = 0 ∷ [] }) refl

-- The line behind its first octet.
abbrev later : Bytes
unfolding text
later = text "uit bye"

bye-moved : Current quit_program bye 1 later (waiting 1)
unfolding text compile_rule quits emit_node is_single_octet emit_kind emit_sequence build_class
    emit_reference emit_capture emit_repetition emit_body has_capture any_capture emit_loop emit
    emit_class class_index bits_eq set_range range_bits set_folded patch_y emit_literal run_program
    add_thread follow rounds run_threads run_thread in_class to_lower bye
bye-moved =
    moved 0 b'q' later (waiting 0) (record { threads = waiting 1; seen = 1 ∷ [] }) bye-started refl

Current-Placed_example : AllPlaced quit_program 1 (waiting 1) × (1 + length later ≡ length bye)
Current-Placed_example =
    Current-Placed quits 4 quit_program bye 1 later (waiting 1) quit_program-compiled bye-moved

quits-compiled : compile_all quits ≡ some true
unfolding compile_all compile_from program_for text compile_rule quits emit_node is_single_octet
    emit_kind emit_sequence build_class emit_reference emit_capture emit_repetition emit_body
    has_capture any_capture emit_loop emit emit_class class_index bits_eq set_range range_bits
    set_folded patch_y emit_literal to_lower
quits-compiled = refl

compile_all-compiled_example :
    (p : Program) × (program_for quits 4 ≡ some (some p))
    × ((line : Bytes) → (r : PikeMatch) × (pike_match quits 4 line ≡ some r))
unfolding quits
compile_all-compiled_example = compile_all-compiled quits 4 5 quits-compiled (omega arith) refl
