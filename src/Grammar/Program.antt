-- ===== src/Grammar/Program.antt =====
-- src/grammar/compiled/Program.cpp: a compiled rule. The 32 bytes of a class are its 256 bits.
use ft_irc.Prelude.{ℕ, zero, suc, Bool, true, false, List, [], ◌∷◌, get_or, update_at}

pub data Op : Type 0 where
  class split jump save match : Op

pub record Instruction : Type 0 where
  pub op : Op
  pub x : ℕ
  pub y : ℕ

abbrev pub Bits : Type 0
Bits = List Bool

abbrev pub no_bits_of : ℕ → Bits
no_bits_of zero = []
no_bits_of (suc n) = false ∷ no_bits_of n

abbrev pub no_bits : Bits
no_bits = no_bits_of 256

-- setBit of src/grammar/compiled/ProgramCompiler.cpp. A bit beyond the class, which the source
-- writes behind its array, is not set.
abbrev pub set_bit : ℕ → Bits → Bits
set_bit c bits = update_at c (λ _. true) bits

pub record Program : Type 0 where
  pub code : List Instruction
  pub classes : List Bits
  pub slot_capture : List ℕ

abbrev pub empty_program : Program
empty_program = record { code = []; classes = []; slot_capture = [] }

-- Program::at, which is asked for an instruction of the program.
abbrev pub at : Program → ℕ → Instruction
at p pc = get_or p.code pc (record { op = Op.match; x = 0; y = 0 })

unfoldable pub in_class : Program → ℕ → ℕ → Bool
in_class p index c = get_or (get_or p.classes index []) c false
