-- ===== src/Grammar/Emit.antt =====
-- src/grammar/compiled/ProgramCompiler.cpp. The rules that are being inlined, the vector
-- `_compiling`, are a list; a message is without the prefix of `fail`; isSingleOctet is the function of the interpreted matcher.
pub mod Grown
pub mod Targets
use ft_irc.Prelude.{
  Bytes, text, ℕ, zero, suc, ◌+◌, ◌-◌, ◌*◌, Bool, true, false, not, ◌&&◌, Option, none, some, List,
  [], ◌∷◌, ◌++◌, ltb, leb, if◌then◌else◌, length, update_at, is_nil,
}
use ft_irc.Grammar.Chars.{to_lower}
use ft_irc.Grammar.Rules.{Grammar, Kind, Node, node, child, rule_root, rule_name, literal_text}
use ft_irc.Grammar.Result.{Result, failed, out_of_fuel, done, ◌>>=◌}
use ft_irc.Grammar.Validator.{listed, walk_fuel}
use ft_irc.Grammar.Tree.Octets.{is_single_octet, octet_fuel}
use ft_irc.Grammar.Program.{Bits, no_bits, set_bit, empty_program, Op, Instruction, Program}

abbrev pub unroll_limit : ℕ
unroll_limit = 64

abbrev pub instruction : Op → ℕ → ℕ → Instruction
instruction op x y = record { op = op; x = x; y = y }

unfoldable pub emit : Op → ℕ → ℕ → Program → Program
emit op x y p = record p { code = p.code ++ instruction op x y ∷ [] }

-- The assignments to the targets of an instruction that was emitted before.
unfoldable pub patch_x : ℕ → ℕ → Program → Program
patch_x pc target p = record p { code = update_at pc (λ i. record i { x = target }) p.code }

unfoldable pub patch_y : ℕ → ℕ → Program → Program
patch_y pc target p = record p { code = update_at pc (λ i. record i { y = target }) p.code }

abbrev pub here : Program → ℕ
here p = length p.code

unfoldable pub bits_eq : Bits → Bits → Bool
bits_eq [] [] = true
bits_eq [] (y ∷ ys) = false
bits_eq (x ∷ xs) [] = false
bits_eq (true ∷ xs) (y ∷ ys) = y && bits_eq xs ys
bits_eq (false ∷ xs) (y ∷ ys) = not y && bits_eq xs ys

unfoldable pub class_index : Bits → List Bits → Option ℕ
class_index bits [] = none
class_index bits (c ∷ cs) =
    if bits_eq c bits
    then some 0
    else elim (class_index bits cs) [ none ↦ none | some i ↦ some (suc i) ]

-- addClass, and the instruction for the class.
unfoldable pub emit_class : Bits → Program → Program
emit_class bits p = elim (class_index bits p.classes) [
  | some i ↦ emit Op.class i 0 p
  | none ↦ emit Op.class (length p.classes) 0 (record p { classes = p.classes ++ bits ∷ [] })
]

-- The loop over the octets of a range, from `c` on.
unfoldable pub set_range : ℕ → ℕ → Bits → Bits
set_range c zero bits = bits
set_range c (suc n) bits = set_range (suc c) n (set_bit c bits)

unfoldable pub range_bits : Node → Bits → Bits
range_bits n bits = elim n.hi [ none ↦ bits | some hi ↦ set_range n.lo (suc hi - n.lo) bits ]

-- The character in lower and in upper case.
unfoldable pub set_folded : ℕ → Bits → Bits
set_folded c bits =
    let lower = to_lower c in
    let upper : ℕ = if leb b'a' lower && leb lower b'z' then lower - b'a' + b'A' else lower in
    set_bit upper (set_bit lower bits)

unfoldable pub build_children : (ℕ → Bits → Option Bits) → Grammar → ℕ → ℕ → Bits → Option Bits
build_children build g first zero bits = some bits
build_children build g first (suc count) bits = elim (build (child g first) bits) [
  | none ↦ none
  | some more ↦ build_children build g (suc first) count more
]

-- none for false.
unfoldable pub build_class : Grammar → ℕ → ℕ → Bits → Option Bits
build_class g zero i bits = none
build_class g (suc fuel) i bits =
    let n = node g i in
    let deeper = build_class g fuel in
    elim n.kind [
      | Kind.octet_range ↦ some (range_bits n bits)
      | Kind.literal ↦ elim (literal_text g n.literal) [
        | [] ↦ none
        | c ∷ rest ↦ if is_nil rest then some (set_folded c (set_bit c bits)) else none
      ]
      | Kind.reference ↦ elim (rule_root g n.lo) [ none ↦ none | some root ↦ deeper root bits ]
      | Kind.alternation ↦ build_children deeper g n.first n.count bits
      | _ ↦ none
    ]

unfoldable pub any_capture : (ℕ → Option Bool) → Grammar → ℕ → ℕ → Option Bool
any_capture test g first zero = some false
any_capture test g first (suc count) = elim (test (child g first)) [
  | none ↦ none
  | some true ↦ some true
  | some false ↦ any_capture test g (suc first) count
]

-- hasCapture goes through the references and has no guard against recursive rules; none is the end
-- of the fuel.
unfoldable pub has_capture : Grammar → ℕ → ℕ → Option Bool
has_capture g zero i = none
has_capture g (suc fuel) i =
    let n = node g i in
    let deeper = has_capture g fuel in
    let inside = any_capture deeper g n.first n.count in
    elim n.kind [
      | Kind.reference ↦ elim n.capture [
        | some _ ↦ some true
        | none ↦ elim (rule_root g n.lo) [ none ↦ some false | some root ↦ deeper root ]
      ]
      | _ ↦ inside
    ]

-- emitNode on a node, with the rules that are being inlined.
abbrev pub Emitter : Type 0
Emitter = ℕ → Program → Result Program

unfoldable pub emit_body : Emitter → ℕ → ℕ → Program → Result Program
emit_body deeper i zero p = done p
emit_body deeper i (suc times) p = deeper i p >>= emit_body deeper i times

unfoldable pub emit_sequence : Emitter → Grammar → ℕ → ℕ → Program → Result Program
emit_sequence deeper g first zero p = done p
emit_sequence deeper g first (suc count) p =
    deeper (child g first) p >>= emit_sequence deeper g (suc first) count

unfoldable pub patch_all_x : List ℕ → Program → Program
patch_all_x [] p = p
patch_all_x (pc ∷ pcs) p = patch_all_x pcs (patch_x pc (here p) p)

unfoldable pub patch_all_y : List ℕ → Program → Program
patch_all_y [] p = p
patch_all_y (pc ∷ pcs) p = patch_all_y pcs (patch_y pc (here p) p)

-- An instruction that may go on behind itself.
abbrev pub emit_split : Program → Program
emit_split p = emit Op.split (suc (here p)) 0 p

unfoldable pub emit_branches : Emitter → Grammar → ℕ → ℕ → List ℕ → Program → Result Program
emit_branches deeper g first zero jumps p = done (patch_all_x jumps p)
emit_branches deeper g first (suc zero) jumps p = do
  q ← deeper (child g first) p
  done (patch_all_x jumps q)
emit_branches deeper g first (suc (suc count)) jumps p = do
  q ← deeper (child g first) (emit_split p)
  let jumped = emit Op.jump 0 0 q
  emit_branches deeper g (suc first) (suc count) (jumps ++ here q ∷ [])
      (patch_y (here p) (here jumped) jumped)

unfoldable pub emit_optional : Emitter → ℕ → ℕ → List ℕ → Program → Result Program
emit_optional deeper i zero exits p = done (patch_all_y exits p)
emit_optional deeper i (suc optional) exits p = do
  q ← deeper i (emit_split p)
  emit_optional deeper i optional (exits ++ here p ∷ []) q

unfoldable pub emit_loop : Emitter → ℕ → Program → Result Program
emit_loop deeper i p = do
  q ← deeper i (emit_split p)
  let jumped = emit Op.jump (here p) 0 q
  done (patch_y (here p) (here jumped) jumped)

abbrev pub capture_in_loop : Bytes
unfolding text
capture_in_loop =
    text "a capture inside an unbounded repetition cannot be compiled: the loop reuses one slot "
    ++ (text "pair, so only the last match would survive. "
        ++ text "Give the repetition an upper bound so it can be unrolled.")

unfoldable pub emit_repetition : Emitter → Grammar → Node → Program → Result Program
emit_repetition deeper g n p =
    let inner = child g n.first in
    emit_body deeper inner n.lo p >>= λ q. elim n.hi [
      | none ↦ elim (has_capture g (walk_fuel g) inner) [
        | none ↦ out_of_fuel
        | some true ↦ failed capture_in_loop
        | some false ↦ emit_loop deeper inner q
      ]
      | some hi ↦
          if ltb hi n.lo
          then failed (text "repetition range runs backwards")
          else (if ltb unroll_limit (hi - n.lo)
              then failed (text "bounded repetition too large to unroll")
              else emit_optional deeper inner (hi - n.lo) [] q)
    ]

unfoldable pub emit_literal : Bytes → Program → Program
emit_literal [] p = p
emit_literal (c ∷ s) p = emit_literal s (emit_class (set_folded c no_bits) p)

-- A capture takes the next pair of slots.
unfoldable pub emit_capture : Emitter → ℕ → ℕ → Program → Result Program
emit_capture deeper root capture p =
    let slot = length p.slot_capture in
    let opened = record p { slot_capture = p.slot_capture ++ capture ∷ [] } in
    do q ← deeper root (emit Op.save (slot * 2) 0 opened); done (emit Op.save (slot * 2 + 1) 0 q)

unfoldable pub emit_reference : Emitter → Grammar → List ℕ → Node → Program → Result Program
emit_reference inlined g compiling n p = elim (rule_root g n.lo) [
  | none ↦ failed (text "undefined rule reference")
  | some root ↦
      if listed n.lo compiling
      then failed (
          text "rule '"
          ++ (rule_name g n.lo
              ++ text
                  "' is recursive; the compiled strategy inlines rules and cannot express recursion"))
      else elim n.capture [
        | none ↦ inlined root p
        | some capture ↦ emit_capture inlined root capture p
      ]
]

-- The switch of emitNode. `inlined` is emitNode with the node's rule among those being inlined.
unfoldable pub emit_kind :
    Kind → Emitter → Emitter → Grammar → List ℕ → Node → Program → Result Program
emit_kind Kind.octet_range deeper inlined g compiling n p =
    done (emit_class (range_bits n no_bits) p)
emit_kind Kind.literal deeper inlined g compiling n p =
    done (emit_literal (literal_text g n.literal) p)
emit_kind Kind.reference deeper inlined g compiling n p = emit_reference inlined g compiling n p
emit_kind Kind.sequence deeper inlined g compiling n p = emit_sequence deeper g n.first n.count p
emit_kind Kind.alternation deeper inlined g compiling n p =
    emit_branches deeper g n.first n.count [] p
emit_kind Kind.repetition deeper inlined g compiling n p = emit_repetition deeper g n p

abbrev pub octet_class : Grammar → ℕ → Option Bits
octet_class g i =
    if is_single_octet g (octet_fuel g) i then build_class g (octet_fuel g) i no_bits else none

unfoldable pub emit_node : Grammar → ℕ → List ℕ → Emitter
emit_node g zero compiling i p = out_of_fuel
emit_node g (suc fuel) compiling i p =
    let n = node g i in
    let deeper = emit_node g fuel compiling in
    let inlined = emit_node g fuel (n.lo ∷ compiling) in
    elim (octet_class g i) [
      | some bits ↦ done (emit_class bits p)
      | none ↦ emit_kind n.kind deeper inlined g compiling n p
    ]

unfoldable pub compile_rule : Grammar → ℕ → Result Program
compile_rule g rule = elim (rule_root g rule) [
  | none ↦ failed (text "no such rule")
  | some root ↦ emit_node g (walk_fuel g) [] root empty_program >>= λ p. done (emit Op.match 0 0 p)
]
