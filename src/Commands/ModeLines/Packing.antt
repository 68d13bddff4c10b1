-- ===== src/Commands/ModeLines/Packing.antt =====
-- src/CommandOperator.cpp: what `renderModeLines` makes of a list of changes.
use ft_irc.Prelude.{
  Bytes, text, ℕ, ◌≤◌, ◌≡◌, refl, ap, ◌∙◌, ◌⊎◌, inl, inr, Bool, true, false, ◌&&◌, Option, none,
  some, List, [], ◌∷◌, ◌++◌, append_assoc, arith, ltb, ◌==◌, if◌then◌else◌, if_ind, length, is_nil,
  length-append, All, All-mono,
}
use ft_irc.Commands.ModeLines.{
  empty_line, same_sign, extend_line, line_length, render_line, line_budget, pack_changes,
  pack_lines, ModeChange, ModeLine,
}

-- The letters of a line's mode string, each with the sign in force.
abbrev pub read_modes : Bool → Bytes → List (Bool × ℕ)
read_modes adding [] = []
read_modes adding (c ∷ cs) =
    if c == b'+'
    then read_modes true cs
    else (if c == b'-' then read_modes false cs else (adding, c) ∷ read_modes adding cs)

-- The sign that is in force at the end.
abbrev pub last_sign : Bytes → Bool → Bool
last_sign [] adding = adding
last_sign (c ∷ cs) adding =
    last_sign cs (if c == b'+' then true else (if c == b'-' then false else adding))

abbrev pub changes_of : List ModeChange → List (Bool × ℕ)
changes_of [] = []
changes_of (mc ∷ mcs) = (mc.adding, mc.letter) ∷ changes_of mcs

-- A letter that is not a sign.
abbrev pub IsLetter : ModeChange → Type 0
IsLetter mc = ((mc.letter == b'+') ≡ false) × ((mc.letter == b'-') ≡ false)

-- A line within the budget, or of one change only.
abbrev pub Fits : ℕ → ModeLine → Type 0
Fits head l = (l.taken ≡ 1) ⊎ (line_length head l ≤ line_budget)

read_modes-append :
    (xs : Bytes) (adding : Bool) (ys : Bytes)
    → read_modes adding (xs ++ ys) ≡ read_modes adding xs ++ read_modes (last_sign xs adding) ys
read_modes-append [] adding ys = refl
read_modes-append (c ∷ xs) adding ys = ground (
  arith,
  read_modes-append xs true ys,
  read_modes-append xs false ys,
  read_modes-append xs adding ys,
)

last_sign-append :
    (xs : Bytes) (adding : Bool) (ys : Bytes)
    → last_sign (xs ++ ys) adding ≡ last_sign ys (last_sign xs adding)
last_sign-append [] adding ys = refl
last_sign-append (c ∷ xs) adding ys = last_sign-append xs _ ys

-- What a change adds to the mode string of a line.
abbrev pub addition : ModeChange → Option Bool → Bytes
addition mc sign =
    (if same_sign mc.adding sign then [] else (if mc.adding then text "+" else text "-"))
    ++ (mc.letter ∷ [])

-- The sign that a line remembers is the one in force at its end.
abbrev Signed : Option Bool → Bool → Type 0
Signed none before = Unit
Signed (some s) before = before ≡ s

addition-read :
    (mc : ModeChange) (adding : Bool) (sign : Option Bool) (before : Bool)
    → mc.adding ≡ adding
    → IsLetter mc
    → Signed sign before
    → (read_modes before (addition mc sign) ≡ ((mc.adding, mc.letter) ∷ []))
      × (last_sign (addition mc sign) before ≡ mc.adding)
unfolding text
addition-read mc true none before e h k = (ground (arith, h), ground (arith, h))
addition-read mc true (some true) before e h k = (ground (arith, h), ground (arith, h))
addition-read mc true (some false) before e h k = (ground (arith, h), ground (arith, h))
addition-read mc false none before e h k = (ground (arith, h), ground (arith, h))
addition-read mc false (some true) before e h k = (ground (arith, h), ground (arith, h))
addition-read mc false (some false) before e h k = (ground (arith, h), ground (arith, h))

pub extend-modes :
    (mc : ModeChange) (l : ModeLine) → (extend_line mc l).modes ≡ l.modes ++ addition mc l.sign
unfolding extend_line
extend-modes mc l = append_assoc l.modes _ (mc.letter ∷ [])

abbrev pub IsSigned : ModeLine → Type 0
IsSigned l = Signed l.sign (last_sign l.modes true)

pub extend-IsSigned :
    (mc : ModeChange) (l : ModeLine) → IsLetter mc → IsSigned l → IsSigned (extend_line mc l)
unfolding extend_line
extend-IsSigned mc l h k =
    ap (λ (m : Bytes). last_sign m true) (extend-modes mc l)
    ∙ last_sign-append l.modes true (addition mc l.sign)
    ∙ (addition-read mc mc.adding l.sign (last_sign l.modes true) refl h k).1

pub extend-read :
    (mc : ModeChange) (l : ModeLine)
    → IsLetter mc
    → IsSigned l
    → read_modes true (extend_line mc l).modes
      ≡ read_modes true l.modes ++ ((mc.adding, mc.letter) ∷ [])
extend-read mc l h k =
    ap (read_modes true) (extend-modes mc l)
    ∙ read_modes-append l.modes true (addition mc l.sign)
    ∙ ap (◌++◌ (read_modes true l.modes))
        (addition-read mc mc.adding l.sign (last_sign l.modes true) refl h k).0

extend-Fits :
    (head : ℕ) (mc : ModeChange) (l : ModeLine)
    → (l.taken ≡ 0) ⊎ (line_length head (extend_line mc l) ≤ line_budget)
    → Fits head (extend_line mc l)
unfolding extend_line
extend-Fits head mc l (inl empty) = inl (omega (arith, empty))
extend-Fits head mc l (inr fits) = inr fits

pack_changes-Fits :
    (head : ℕ) (changes : List ModeChange) (l : ModeLine)
    → (l.taken ≡ 0) ⊎ Fits head l
    → (l.taken ≡ 0 → is_nil changes ≡ false)
    → All (Fits head) (pack_changes head changes l)
unfolding pack_changes extend_line
pack_changes-Fits head [] l (inl empty) h = cc (h empty)
pack_changes-Fits head [] l (inr fits) h = (fits, tt)
pack_changes-Fits head (mc ∷ rest) l k h =
    let used : (m : ModeLine) → (extend_line mc m).taken ≡ 0 → is_nil rest ≡ false =
      λ m e. absurd (omega (arith, e)) in
    if_ind (All (Fits head))
      (ltb 0 l.taken && ltb line_budget (line_length head (extend_line mc l)))
      (λ full. (
        elim k [ inl empty ↦ absurd (ground (arith, full, empty)) | inr fits ↦ fits ],
        pack_changes-Fits head rest (extend_line mc empty_line)
            (inr (extend-Fits head mc empty_line (inl refl))) (used empty_line),
      ))
      (λ room.
        pack_changes-Fits head rest (extend_line mc l)
          (inr (extend-Fits head mc l (ground (arith, room)))) (used l))

length-render_line :
    (head : Bytes) (l : ModeLine) → length (render_line head l) ≡ line_length (length head) l
unfolding render_line line_length text
length-render_line head l =
    if_ind (λ (tail : Bytes). length ((head ++ l.modes) ++ tail) ≡ line_length (length head) l)
      (is_nil l.args)
      (λ e. ground (arith, e, length-append (head ++ l.modes) [], length-append head l.modes))
      (λ e.
        ground
          (arith, e, length-append (head ++ l.modes) (b' ' ∷ l.args), length-append head l.modes))

-- A rendered MODE line is within the 510 bytes that a message has, or it reports one change only.
pub pack_lines-Fits :
    (head : Bytes) (changes : List ModeChange)
    → All
        (λ (l : ModeLine). (l.taken ≡ 1) ⊎ (length (render_line head l) ≤ line_budget))
        (pack_lines (length head) changes)
unfolding pack_lines
pack_lines-Fits head [] = tt
pack_lines-Fits head (mc ∷ rest) =
    All-mono (Fits (length head))
      (λ (l : ModeLine). (l.taken ≡ 1) ⊎ (length (render_line head l) ≤ line_budget))
      (pack_changes (length head) (mc ∷ rest) empty_line)
      (λ l fits. rw (length-render_line head l) fits)
      (pack_changes-Fits (length head) (mc ∷ rest) empty_line (inl refl) (λ _. refl))
