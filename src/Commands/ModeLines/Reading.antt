-- ===== src/Commands/ModeLines/Reading.antt =====
-- src/CommandOperator.cpp: how a client reads the lines of renderModeLines.
use mathlib.Core.List.{append-nil}
use ft_irc.Prelude.{
  Bytes, text, ℕ, ◌≡◌, refl, sym, ap, ap₂, subst, ◌∙◌, Bool, true, false, not, ◌&&◌, Option, List,
  [], ◌∷◌, ◌++◌, map, append_assoc, arith, ltb, ◌==◌, if◌then◌else◌, if_ind, length, drop, is_nil,
  All, All-append,
}
use ft_irc.Channel.Names.Packing.{glue, spaced, glue-nil, spaced-append}
use ft_irc.Commands.ModeLines.{
  empty_line, same_sign, extend_line, line_length, render_line, line_budget, pack_changes,
  pack_lines, render_mode_lines, ModeChange, ModeLine,
}
use ft_irc.Commands.ModeLines.Packing.{
  read_modes, changes_of, IsLetter, addition, extend-modes, IsSigned, extend-IsSigned, extend-read,
}

abbrev onto : ℕ → List Bytes → List Bytes
onto c [] = (c ∷ []) ∷ []
onto c (w ∷ ws) = (c ∷ w) ∷ ws

-- The parts of a text between its spaces.
abbrev pub words : Bytes → List Bytes
words [] = [] ∷ []
words (c ∷ cs) = if c == 32 then [] ∷ words cs else onto c (words cs)

abbrev pub change : Bool → ℕ → Bytes → ModeChange
change adding letter arg = record { adding = adding; letter = letter; arg = arg }

-- The changes, each with the next word for its parameter if it takes one.
abbrev pub attach : (Bool → ℕ → Bool) → List (Bool × ℕ) → List Bytes → List ModeChange
attach takes [] ws = []
attach takes ((adding, letter) ∷ ms) [] = change adding letter [] ∷ attach takes ms []
attach takes ((adding, letter) ∷ ms) (w ∷ ws) =
    if takes adding letter
    then change adding letter w ∷ attach takes ms ws
    else change adding letter [] ∷ attach takes ms (w ∷ ws)

-- A line behind its head: the first word has the modes, the others are their parameters.
abbrev pub read_words : (Bool → ℕ → Bool) → List Bytes → List ModeChange
read_words takes [] = []
read_words takes (modes ∷ args) = attach takes (read_modes true modes) args

abbrev pub read_mode_lines : (Bool → ℕ → Bool) → ℕ → List Bytes → List ModeChange
read_mode_lines takes head [] = []
read_mode_lines takes head (line ∷ lines) =
    read_words takes (words (drop head line)) ++ read_mode_lines takes head lines

abbrev pub NoSpace : Bytes → Type 0
NoSpace w = All (λ c. (c == 32) ≡ false) w

-- The letter is a letter, and the change has a parameter, of one word, exactly if its mode takes
-- one.
abbrev pub IsReadable : (Bool → ℕ → Bool) → ModeChange → Type 0
IsReadable takes mc =
    IsLetter mc
    × ((mc.letter == 32) ≡ false)
    × NoSpace mc.arg
    × (takes mc.adding mc.letter ≡ not (is_nil mc.arg))

words-one : (w : Bytes) → NoSpace w → words w ≡ w ∷ []
words-one [] h = refl
words-one (c ∷ w) h = ground (arith, h.0, words-one w h.1)

words-append : (w rest : Bytes) → NoSpace w → words (w ++ (32 ∷ rest)) ≡ w ∷ words rest
words-append [] rest h = refl
words-append (c ∷ w) rest h = ground (arith, h.0, words-append w rest h.1)

-- What stands behind the modes.
abbrev tail : Bytes → Bytes
tail [] = []
tail (c ∷ cs) = 32 ∷ c ∷ cs

glue-tail : (x : ℕ) (a b : Bytes) → glue (x ∷ a) b ≡ (x ∷ a) ++ tail b
glue-tail x a [] = sym (append-nil (x ∷ a))
glue-tail x a (y ∷ b) = refl

IsWord : Bytes → Type 0
IsWord w = (is_nil w ≡ false) × NoSpace w

words-tail :
    (w : Bytes) (ws : List Bytes)
    → NoSpace w
    → All IsWord ws
    → words (w ++ tail (spaced ws)) ≡ w ∷ ws
unfolding IsWord
words-tail w [] h k = ap words (append-nil w) ∙ words-one w h
words-tail w ([] ∷ ws) h k = cc k.0.0
words-tail w ((x ∷ v) ∷ ws) h k =
    let rest = (x ∷ v) ++ tail (spaced ws) in
    let same : tail (glue (x ∷ v) (spaced ws)) ≡ 32 ∷ rest = ap tail (glue-tail x v (spaced ws)) in
    ap (λ t. words (w ++ t)) same
    ∙ words-append w rest h
    ∙ ap (◌∷◌ w) (words-tail (x ∷ v) ws k.0.1 k.1)

abbrev args_of : List ModeChange → List Bytes
args_of [] = []
args_of (mc ∷ mcs) = if is_nil mc.arg then args_of mcs else mc.arg ∷ args_of mcs

args_of-append :
    (cs : List ModeChange) (mc : ModeChange)
    → args_of (cs ++ (mc ∷ [])) ≡ args_of cs ++ (if is_nil mc.arg then [] else mc.arg ∷ [])
args_of-append [] mc = refl
args_of-append (c ∷ cs) mc = ground (arith, args_of-append cs mc)

changes_of-append :
    (cs : List ModeChange) (mc : ModeChange)
    → changes_of (cs ++ (mc ∷ [])) ≡ changes_of cs ++ ((mc.adding, mc.letter) ∷ [])
changes_of-append [] mc = refl
changes_of-append (c ∷ cs) mc = ap (◌∷◌ (c.adding, c.letter)) (changes_of-append cs mc)

-- What a line holds when a parameter is added to it.
glue-arg :
    (args arg : Bytes)
    → (if is_nil arg then args else (args ++ (if is_nil args then [] else text " ")) ++ arg)
      ≡ glue args arg
unfolding text
glue-arg args [] = sym (glue-nil args)
glue-arg [] (x ∷ arg) = refl
glue-arg (y ∷ args) (x ∷ arg) = append_assoc (y ∷ args) (32 ∷ []) (x ∷ arg)

spaced-arg :
    (ws : List Bytes) (arg : Bytes)
    → glue (spaced ws) arg ≡ spaced (ws ++ (if is_nil arg then [] else arg ∷ []))
spaced-arg ws [] = glue-nil (spaced ws) ∙ sym (ap spaced (append-nil ws))
spaced-arg ws (x ∷ arg) = sym (spaced-append ws (x ∷ arg))

addition-NoSpace :
    (mc : ModeChange) (sign : Option Bool) → (mc.letter == 32) ≡ false → NoSpace (addition mc sign)
unfolding text
addition-NoSpace mc sign h =
    All-append (λ c. (c == 32) ≡ false)
      (if same_sign mc.adding sign then [] else (if mc.adding then text "+" else text "-"))
      (mc.letter ∷ [])
      (if_ind NoSpace (same_sign mc.adding sign) (λ _. tt)
        λ _. if_ind NoSpace mc.adding (λ _. (refl, tt)) (λ _. (refl, tt)))
      (h, tt)

drop-whole : (xs ys : Bytes) → drop (length xs) (xs ++ ys) ≡ ys
drop-whole [] ys = refl
drop-whole (x ∷ xs) ys = drop-whole xs ys

args-tail : (args : Bytes) → (if is_nil args then [] else text " " ++ args) ≡ tail args
unfolding text
args-tail [] = refl
args-tail (c ∷ cs) = refl

line-body :
    (head : Bytes) (l : ModeLine) → drop (length head) (render_line head l) ≡ l.modes ++ tail l.args
unfolding render_line
line-body head l =
    ap (drop (length head)) (append_assoc head l.modes _)
    ∙ drop-whole head _
    ∙ ap (◌++◌ l.modes) (args-tail l.args)

module _ (takes : Bool → ℕ → Bool) where
  args_of-IsWord : (cs : List ModeChange) → All (IsReadable takes) cs → All IsWord (args_of cs)
  unfolding IsWord
  args_of-IsWord [] h = tt
  args_of-IsWord (mc ∷ cs) h =
      if_ind (All IsWord) (is_nil mc.arg) (λ _. args_of-IsWord cs h.1)
        λ e. ((e, h.0.2), args_of-IsWord cs h.1)

  attach-none :
      (adding : Bool) (letter : ℕ) (ms : List (Bool × ℕ)) (ws : List Bytes)
      → takes adding letter ≡ false
      → attach takes ((adding, letter) ∷ ms) ws ≡ change adding letter [] ∷ attach takes ms ws
  attach-none adding letter ms [] e = refl
  attach-none adding letter ms (w ∷ ws) e = ground (arith, e)

  attach-next :
      (adding : Bool) (letter : ℕ) (arg : Bytes) (ms : List (Bool × ℕ)) (ws : List Bytes)
      → takes adding letter ≡ not (is_nil arg)
      → attach takes ((adding, letter) ∷ ms) (if is_nil arg then ws else arg ∷ ws)
        ≡ change adding letter arg ∷ attach takes ms ws
  attach-next adding letter [] ms ws e = attach-none adding letter ms ws e
  attach-next adding letter (x ∷ arg) ms ws e = ground (arith, e)

  attach-changes :
      (cs : List ModeChange)
      → All (IsReadable takes) cs
      → attach takes (changes_of cs) (args_of cs) ≡ cs
  attach-changes [] h = refl
  attach-changes (mc ∷ cs) h =
      attach-next mc.adding mc.letter mc.arg (changes_of cs) (args_of cs) h.0.3
      ∙ ap (◌∷◌ mc) (attach-changes cs h.1)

  -- The line reports the changes.
  record Says (l : ModeLine) (cs : List ModeChange) : Type 0 where
    modes_read : read_modes true l.modes ≡ changes_of cs
    args_joined : l.args ≡ spaced (args_of cs)
    signed : IsSigned l
    plain : NoSpace l.modes
    readable : All (IsReadable takes) cs

  Says-nothing : Says empty_line []
  Says-nothing = record {
    modes_read = refl;
    args_joined = refl;
    signed = tt;
    plain = tt;
    readable = tt;
  }

  extend-args :
      (mc : ModeChange) (l : ModeLine) (cs : List ModeChange)
      → l.args ≡ spaced (args_of cs)
      → (extend_line mc l).args ≡ spaced (args_of (cs ++ (mc ∷ [])))
  unfolding extend_line
  extend-args mc l cs e =
      glue-arg l.args mc.arg
      ∙ ap (λ (a : Bytes). glue a mc.arg) e
      ∙ spaced-arg (args_of cs) mc.arg
      ∙ sym (ap spaced (args_of-append cs mc))

  extend-NoSpace :
      (mc : ModeChange) (l : ModeLine)
      → (mc.letter == 32) ≡ false
      → NoSpace l.modes
      → NoSpace (extend_line mc l).modes
  extend-NoSpace mc l h k = subst NoSpace (sym (extend-modes mc l)) (
      All-append (λ c. (c == 32) ≡ false) l.modes (addition mc l.sign) k
        (addition-NoSpace mc l.sign h))

  extend-Says :
      (mc : ModeChange) (l : ModeLine) (cs : List ModeChange)
      → IsReadable takes mc
      → Says l cs
      → Says (extend_line mc l) (cs ++ (mc ∷ []))
  extend-Says mc l cs h k = record {
    modes_read =
        extend-read mc l h.0 k.signed
        ∙ ap (λ ms. ms ++ ((mc.adding, mc.letter) ∷ [])) k.modes_read
        ∙ sym (changes_of-append cs mc);
    args_joined = extend-args mc l cs k.args_joined;
    signed = extend-IsSigned mc l h.0 k.signed;
    plain = extend-NoSpace mc l h.1 k.plain;
    readable = All-append (IsReadable takes) cs (mc ∷ []) k.readable (h, tt);
  }

  line-read :
      (head : Bytes) (l : ModeLine) (cs : List ModeChange)
      → Says l cs
      → read_words takes (words (drop (length head) (render_line head l))) ≡ cs
  unfolding render_line text
  line-read head l cs k =
      ap (λ t. read_words takes (words t)) (line-body head l)
      ∙ ap (λ (a : Bytes). read_words takes (words (l.modes ++ tail a))) k.args_joined
      ∙ ap (read_words takes)
          (words-tail l.modes (args_of cs) k.plain (args_of-IsWord cs k.readable))
      ∙ ap (λ ms. attach takes ms (args_of cs)) k.modes_read
      ∙ attach-changes cs k.readable

  pack_changes-read :
      (head : Bytes) (cs rest : List ModeChange) (l : ModeLine)
      → Says l cs
      → All (IsReadable takes) rest
      → read_mode_lines takes
          (length head)
          (map (render_line head) (pack_changes (length head) rest l))
        ≡ cs ++ rest
  unfolding pack_changes
  pack_changes-read head cs [] l k h = ap (λ x. x ++ []) (line-read head l cs k)
  pack_changes-read head cs (mc ∷ rest) l k h =
      let R = λ (ls : List ModeLine).
        read_mode_lines takes (length head) (map (render_line head) ls) ≡ cs ++ (mc ∷ rest) in
      if_ind R (ltb 0 l.taken && ltb line_budget (line_length (length head) (extend_line mc l)))
        (λ _. ap₂ ◌++◌ (line-read head l cs k) (
          pack_changes-read head (mc ∷ []) rest (extend_line mc empty_line)
            (extend-Says mc empty_line [] h.0 Says-nothing) h.1))
        (λ _.
          pack_changes-read head (cs ++ (mc ∷ [])) rest (extend_line mc l)
            (extend-Says mc l cs h.0 k) h.1
          ∙ append_assoc cs (mc ∷ []) rest)

-- Read back, the lines of renderModeLines give the list of changes, all once, in order, each with
-- its sign, its letter and its parameter, however they are distributed over lines. A reader takes
-- each line behind its head, the first word for the modes and the others for the parameters of
-- those that take one. The condition is that no letter is a sign or a space, no parameter has a
-- space in it, and a change has a parameter exactly if its mode takes one.
pub render_mode_lines-read :
    (takes : Bool → ℕ → Bool) (head : Bytes) (applied : List ModeChange)
    → All (IsReadable takes) applied
    → read_mode_lines takes (length head) (render_mode_lines head applied) ≡ applied
unfolding render_mode_lines pack_lines
render_mode_lines-read takes head [] h = refl
render_mode_lines-read takes head (mc ∷ rest) h =
    pack_changes-read takes head [] (mc ∷ rest) empty_line (Says-nothing takes) h
