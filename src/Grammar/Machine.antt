-- ===== src/Grammar/Machine.antt =====
-- src/grammar/compiled/ProgramMatcher.cpp: the machine that runs the threads of a program side by
-- side. The slots of a thread are the list that its index into `_arena` names, with none for -1; the
-- instructions that were seen in a generation are a list, which starts anew with each.
pub mod Ends
pub mod Bounds
pub mod Inside
use ft_irc.Prelude.{
  Bytes, ℕ, zero, suc, ◌+◌, ◌-◌, ◌*◌, Bool, true, false, Option, none, some, List, [], ◌∷◌, ◌++◌,
  ltb, if◌then◌else◌, length, get_or, update_at, is_nil,
}
use ft_irc.Grammar.Rules.{rule_root, rule_count, capture_count, Grammar, sequence}
use ft_irc.Grammar.MatchResult.{MatchResult, reset, no_values}
use ft_irc.Grammar.Derivation.{substr}
use ft_irc.Grammar.Result.{failed, overflow, out_of_fuel, done}
use ft_irc.Grammar.Validator.{listed}
use ft_irc.Grammar.Walk.{Found, push_capture}
use ft_irc.Grammar.Program.{at, in_class, Op, Instruction, Program, class, split, jump, save, match}
use ft_irc.Grammar.Emit.{compile_rule}

abbrev pub Slots : Type 0
Slots = List (Option ℕ)

pub record Thread : Type 0 where
  pub pc : ℕ
  pub slots : Slots

pub record Threads : Type 0 where
  pub threads : List Thread
  pub seen : List ℕ

abbrev pub no_threads : Threads
no_threads = record { threads = []; seen = [] }

abbrev pub see : ℕ → Threads → Threads
see pc l = record l { seen = pc ∷ l.seen }

abbrev pub push_thread : ℕ → Slots → Threads → Threads
push_thread pc slots l = record l { threads = l.threads ++ record { pc = pc; slots = slots } ∷ [] }

abbrev pub Adder : Type 0
Adder = ℕ → Slots → ℕ → Threads → Option Threads

-- The switch of addThread, once the instruction is marked.
unfoldable pub follow : Op → Adder → Instruction → Adder
follow Op.jump deeper ins pc slots pos l = deeper ins.x slots pos l
follow Op.split deeper ins pc slots pos l = elim (deeper ins.x slots pos l) [
  | none ↦ none
  | some m ↦ deeper ins.y slots pos m
]
follow Op.save deeper ins pc slots pos l =
    deeper (suc pc) (update_at ins.x (λ _. some pos) slots) pos l
follow Op.class deeper ins pc slots pos l = some (push_thread pc slots l)
follow Op.match deeper ins pc slots pos l = some (push_thread pc slots l)

module _ (p : Program) where
  -- none is the end of the fuel.
  unfoldable pub add_thread : ℕ → Adder
  add_thread zero pc slots pos l = none
  add_thread (suc fuel) pc slots pos l =
      let onward = follow (at p pc).op (add_thread fuel) (at p pc) pc slots pos in
      elim (listed pc l.seen) [ true ↦ some l | false ↦ onward (see pc l) ]

  abbrev pub thread_fuel : ℕ
  thread_fuel = suc (length p.code)

-- What a round gives: the threads of the next one, or the slots of a match.
pub data Round : Type 0 where
  going : Threads → Round
  found : Slots → Round
  stuck : Round

module _ (p : Program) where
  -- What a thread does at the position `pos` with the rest of the line, and the other threads.
  unfoldable pub run_thread :
      Op → Instruction → Thread → ℕ → Bytes → (Threads → Round) → Threads → Round
  run_thread Op.match ins t pos rest onward next =
      if is_nil rest then found t.slots else onward next
  run_thread Op.class ins t pos [] onward next = onward next
  run_thread Op.class ins t pos (c ∷ later) onward next = elim (in_class p ins.x c) [
    | false ↦ onward next
    | true ↦ elim (add_thread p (thread_fuel p) (suc t.pc) t.slots (suc pos) next) [
      | none ↦ stuck
      | some more ↦ onward more
    ]
  ]
  run_thread Op.jump ins t pos rest onward next = onward next
  run_thread Op.split ins t pos rest onward next = onward next
  run_thread Op.save ins t pos rest onward next = onward next

  -- The loop over the current threads.
  unfoldable pub run_threads : ℕ → Bytes → List Thread → Threads → Round
  run_threads pos rest [] next = going next
  run_threads pos rest (t ∷ ts) next =
      run_thread (at p t.pc).op (at p t.pc) t pos rest (run_threads pos rest ts) next

  -- The rounds, from `pos` on; none is the end of the fuel, and `some none` no match.
  unfoldable pub rounds : ℕ → Bytes → List Thread → Option (Option Slots)
  rounds pos [] current = elim (run_threads pos [] current no_threads) [
    | stuck ↦ none
    | found slots ↦ some (some slots)
    | going next ↦ some none
  ]
  rounds pos (c ∷ rest) current = elim (run_threads pos (c ∷ rest) current no_threads) [
    | stuck ↦ none
    | found slots ↦ some (some slots)
    | going next ↦ if is_nil next.threads then some none else rounds (suc pos) rest next.threads
  ]

abbrev pub unset : ℕ → Slots
unset zero = []
unset (suc n) = none ∷ none ∷ unset n

-- The loop over the slots of a match, from `slot` on.
unfoldable pub collect : Bytes → Slots → ℕ → List ℕ → Found → Found
collect line slots slot [] f = f
collect line slots slot (capture ∷ captures) f =
    let next = collect line slots (suc slot) captures in
    elim (get_or slots (slot * 2) none) [
      | none ↦ next f
      | some start ↦ elim (get_or slots (slot * 2 + 1) none) [
        | none ↦ next f
        | some stop ↦ next (
            if ltb stop start then f else push_capture capture (substr start (stop - start) line) f)
      ]
    ]

-- programFor compiles a rule once; a rule that does not compile has no program. The outer none
-- stands for a compilation that does not end.
unfoldable pub program_for : Grammar → ℕ → Option (Option Program)
program_for g rule = elim (compile_rule g rule) [
  | done p ↦ some (some p)
  | failed why ↦ some none
  | overflow ↦ none
  | out_of_fuel ↦ none
]

-- compileAll: every rule that has a root, from `rule` on, is compiled.
unfoldable pub compile_from : Grammar → ℕ → ℕ → Option Bool
compile_from g rule zero = some true
compile_from g rule (suc count) =
    let onward = compile_from g (suc rule) count in
    elim (rule_root g rule) [
      | none ↦ onward
      | some root ↦ elim (program_for g rule) [
        | none ↦ none
        | some none ↦ some false
        | some (some p) ↦ onward
      ]
    ]

unfoldable pub compile_all : Grammar → Option Bool
compile_all g = compile_from g 0 (rule_count g)

pub record PikeMatch : Type 0 where
  pub matched : Bool
  pub out : MatchResult

unfoldable pub run_program : Grammar → Program → Bytes → Option (Option Slots)
run_program g p line =
    elim (add_thread p (thread_fuel p) 0 (unset (length p.slot_capture)) 0 no_threads) [
      | none ↦ none
      | some start ↦ rounds p 0 line start.threads
    ]

unfoldable pub pike_match : Grammar → ℕ → Bytes → Option PikeMatch
pike_match g rule line =
    let empty = reset g.capture_names in
    elim (program_for g rule) [
      | none ↦ none
      | some none ↦ some (record { matched = false; out = empty })
      | some (some p) ↦ elim (run_program g p line) [
        | none ↦ none
        | some none ↦ some (record { matched = false; out = empty })
        | some (some slots) ↦
            let none_yet : Found = record {
              values = no_values (capture_count g);
              sequence = [];
              owners = [];
            } in
            let f = collect line slots 0 p.slot_capture none_yet in
            some (record {
              matched = true;
              out = record empty { values = f.values; sequence = f.sequence; owners = f.owners };
            })
      ]
    ]
