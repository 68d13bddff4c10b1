-- ===== src/Commands/ModeLines.antt =====
-- src/CommandOperator.cpp: `ModeChange`, `renderModeLines` and `paramsRequiredFrom`.
pub mod Packing
pub mod Reading
use ft_irc.Prelude.{
  Bytes, text, bytes_eq, ℕ, ◌+◌, ◌-◌, Bool, true, false, not, ◌&&◌, ◌||◌, Option, none, some, List,
  [], ◌∷◌, ◌++◌, map, ltb, ◌==◌, if◌then◌else◌, length, is_nil, any,
}
use ft_irc.Limits.{max_msglen}

pub record ModeChange : Type 0 where
  pub adding : Bool
  pub letter : ℕ
  pub arg : Bytes

-- The text of a line under construction, and the number of changes in it. `sign` is none until the
-- line has one.
pub record ModeLine : Type 0 where
  pub modes : Bytes
  pub args : Bytes
  pub sign : Option Bool
  pub taken : ℕ

abbrev pub empty_line : ModeLine
empty_line = record { modes = []; args = []; sign = none; taken = 0 }

abbrev pub same_sign : Bool → Option Bool → Bool
same_sign b none = false
same_sign true (some s) = s
same_sign false (some s) = not s

-- The line with one more change.
unfoldable pub extend_line : ModeChange → ModeLine → ModeLine
extend_line mc l = record {
  modes =
      l.modes
      ++ (if same_sign mc.adding l.sign then [] else (if mc.adding then text "+" else text "-"))
      ++ (mc.letter ∷ []);
  args =
      if is_nil mc.arg
      then l.args
      else (l.args ++ (if is_nil l.args then [] else text " ")) ++ mc.arg;
  sign = some mc.adding;
  taken = l.taken + 1;
}

-- The bytes of a line behind a head of `head` bytes.
unfoldable pub line_length : ℕ → ModeLine → ℕ
line_length head l = head + length l.modes + (if is_nil l.args then 0 else 1 + length l.args)

unfoldable pub render_line : Bytes → ModeLine → Bytes
render_line head l = (head ++ l.modes) ++ (if is_nil l.args then [] else text " " ++ l.args)

abbrev pub line_budget : ℕ
line_budget = max_msglen - 2

-- Both loops of renderModeLines: a change that no longer fits begins the next line, where it is
-- taken whatever its length.
unfoldable pub pack_changes : ℕ → List ModeChange → ModeLine → List ModeLine
pack_changes head [] l = l ∷ []
pack_changes head (mc ∷ rest) l =
    let more = pack_changes head rest (extend_line mc l) in
    let again = l ∷ pack_changes head rest (extend_line mc empty_line) in
    if ltb 0 l.taken && ltb line_budget (line_length head (extend_line mc l)) then again else more

unfoldable pub pack_lines : ℕ → List ModeChange → List ModeLine
pack_lines head [] = []
pack_lines head (mc ∷ rest) = pack_changes head (mc ∷ rest) empty_line

unfoldable pub render_mode_lines : Bytes → List ModeChange → List Bytes
render_mode_lines head applied = map (render_line head) (pack_lines (length head) applied)

-- The parameters that the letters of a mode string still ask for, from a sign on.
unfoldable pub params_required : Bool → Bytes → ℕ
params_required adding [] = 0
params_required adding (c ∷ cs) =
    (if c == b'+' || c == b'-'
      then 0
      else (if c == b'o' then 1 else (if (c == b'k' || c == b'l') && adding then 1 else 0)))
    + params_required (if c == b'+' then true else (if c == b'-' then false else adding)) cs

-- alreadyReported
unfoldable pub already_reported : List Bytes → Bytes → Bool
already_reported seen what = any (λ w. bytes_eq w what) seen

-- Whether a mode string begins as it must.
abbrev pub starts_with_sign : Bytes → Bool
starts_with_sign [] = false
starts_with_sign (c ∷ cs) = c == b'+' || c == b'-'
