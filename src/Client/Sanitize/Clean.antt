-- ===== src/Client/Sanitize/Clean.antt =====
-- src/Client.cpp: the lines that `Client::extractMessages` hands on.
use ft_irc.Client.{extract_messages, Client}
use ft_irc.Libcpp.{SocketLib, SocketLaws}
use ft_irc.Prelude.{
  Bytes, ℕ, zero, suc, ◌+◌, ◌≤◌, ◌<◌, ◌≡◌, refl, sym, ap, ◌∙◌, inl, inr, true, false, not, none,
  some, List, [], ◌∷◌, ◌++◌, arith, ltb, ◌==◌, if◌then◌else◌, Option-cases, if_ind, Option_ind,
  length, take, drop, is_nil, keep_if, All, All-append,
}
use ft_irc.Client.Sanitize.{strip_nul, find_byte, split_from, split_on_cr, extract}

-- A line that the parser may be given: not empty, and with neither NUL nor CR in it.
abbrev pub IsClean : Bytes → Type 0
IsClean line = (is_nil line ≡ false) × (find_byte 0 line ≡ none) × (find_byte 13 line ≡ none)

-- The parts between the CRs, by a recursion on the line.
abbrev pub parts : Bytes → Bytes × List Bytes
parts [] = ([], [])
parts (c ∷ cs) =
    let later = parts cs in if c == 13 then ([], later.0 ∷ later.1) else (c ∷ later.0, later.1)

abbrev pub nonempty_parts : Bytes → List Bytes
nonempty_parts line = keep_if (λ part. not (is_nil part)) ((parts line).0 ∷ (parts line).1)

find_byte-none : (line : Bytes) → find_byte 13 line ≡ none → parts line ≡ (line, [])
unfolding find_byte
find_byte-none [] e = refl
find_byte-none (c ∷ cs) e = ground (arith, find_byte-none cs)

find_byte-some :
    (line : Bytes) (i : ℕ)
    → find_byte 13 line ≡ some i
    → parts line ≡ (take i line, (parts (drop (suc i) line)).0 ∷ (parts (drop (suc i) line)).1)
unfolding find_byte
find_byte-some [] i e = cc
find_byte-some (c ∷ cs) zero e = ground arith
find_byte-some (c ∷ cs) (suc i) e = ground (arith, find_byte-some cs i)

-- What is behind the first CR is shorter than the line.
drop-shorter :
    (line : Bytes) (i : ℕ)
    → find_byte 13 line ≡ some i
    → length (drop (suc i) line) + 1 ≤ length line
unfolding find_byte
drop-shorter [] i e = cc
drop-shorter (c ∷ cs) zero e = ground arith
drop-shorter (c ∷ cs) (suc i) e = ground (arith, drop-shorter cs i)

first-part :
    (line : Bytes) (i : ℕ) (rest : List Bytes)
    → find_byte 13 line ≡ some i
    → (if ltb 0 i then take i line ∷ [] else []) ++ keep_if (λ part. not (is_nil part)) rest
      ≡ keep_if (λ part. not (is_nil part)) (take i line ∷ rest)
unfolding find_byte
first-part [] i rest e = cc
first-part (c ∷ cs) zero rest e = refl
first-part (c ∷ cs) (suc i) rest e =
    let longer : ltb 0 (suc i) ≡ true = ground arith in rw longer refl

split_from-parts :
    (fuel : ℕ) (line : Bytes) → length line < fuel → split_from fuel line ≡ nonempty_parts line
unfolding split_from
split_from-parts zero line h = absurd (omega arith)
split_from-parts (suc fuel) line h = elim (Option-cases (find_byte 13 line)) [
  | inl e ↦ ground (arith, find_byte-none line e)
  | inr (i, e) ↦
      let later = drop (suc i) line in
      let short : length later < fuel = omega (arith, drop-shorter line i e, h) in
      let step : split_from (suc fuel) line
          ≡ (if ltb 0 i then take i line ∷ [] else []) ++ split_from fuel later =
        rw (e, split_from) in
      step
      ∙ ap (λ (l : List Bytes). (if ltb 0 i then take i line ∷ [] else []) ++ l)
          (split_from-parts fuel later short)
      ∙ first-part line i ((parts later).0 ∷ (parts later).1) e
      ∙ ap (λ (p : Bytes × List Bytes). keep_if (λ part. not (is_nil part)) (p.0 ∷ p.1))
          (sym (find_byte-some line i e))
]

pub split_on_cr-parts : (line : Bytes) → split_on_cr line ≡ nonempty_parts line
unfolding split_on_cr
split_on_cr-parts line = split_from-parts (length line + 1) line (omega arith)

strip_nul-clean : (line : Bytes) → find_byte 0 (strip_nul line) ≡ none
unfolding strip_nul find_byte
strip_nul-clean [] = refl
strip_nul-clean (c ∷ cs) = ground (arith, strip_nul-clean cs)

-- No part holds a CR, nor a byte that the line does not hold.
abbrev NoBreak : Bytes → Type 0
NoBreak line = (find_byte 0 line ≡ none) × (find_byte 13 line ≡ none)

parts-NoBreak :
    (line : Bytes) → find_byte 0 line ≡ none → NoBreak (parts line).0 × All NoBreak (parts line).1
unfolding find_byte
parts-NoBreak [] e = ((refl, refl), tt)
parts-NoBreak (c ∷ cs) e =
    let later : find_byte 0 cs ≡ none = ground arith in
    let (first, rest) = parts-NoBreak cs later in
    if_ind (λ (p : Bytes × List Bytes). NoBreak p.0 × All NoBreak p.1) (c == 13)
      (λ _. ((refl, refl), (first, rest)))
      (λ other. ((ground (arith, first.0), ground (arith, first.1)), rest))

keep_if-IsClean :
    (l : List Bytes) → All NoBreak l → All IsClean (keep_if (λ part. not (is_nil part)) l)
keep_if-IsClean [] h = tt
keep_if-IsClean ([] ∷ l) h = keep_if-IsClean l h.1
keep_if-IsClean ((c ∷ cs) ∷ l) h = ((refl, h.0.0, h.0.1), keep_if-IsClean l h.1)

split-IsClean : (line : Bytes) → All IsClean (split_on_cr (strip_nul line))
split-IsClean line =
    let clean = parts-NoBreak (strip_nul line) (strip_nul-clean line) in
    rw (split_on_cr-parts (strip_nul line))
      (keep_if-IsClean ((parts (strip_nul line)).0 ∷ (parts (strip_nul line)).1) clean)

module _ {Io : Type 0} ⦃sock : SocketLib Io⦄ where
  extract-IsClean : (fuel : ℕ) (io : Io) → All IsClean (extract fuel io).0
  unfolding extract
  extract-IsClean zero io = tt
  extract-IsClean (suc fuel) io =
      Option_ind (λ (r : List Bytes × Io). All IsClean r.0) (sock.next_line io) (λ _. tt)
        λ taken _.
          All-append IsClean (split_on_cr (strip_nul taken.0)) (extract fuel taken.1).0
            (split-IsClean taken.0) (extract-IsClean fuel taken.1)

  extract-drained :
      (laws : SocketLaws sock) (fuel : ℕ) (io : Io)
      → sock.buffered io < fuel
      → sock.next_line (extract fuel io).1 ≡ none
  unfolding extract
  extract-drained laws zero io h = absurd (omega arith)
  extract-drained laws (suc fuel) io h = elim (Option-cases (sock.next_line io)) [
    | inl e ↦ ground (arith, e)
    | inr ((line, rest), e) ↦
        ground (arith, e, laws.next_line_shrinks io line rest e, extract-drained laws fuel rest)
  ]

  -- Every line that extractMessages returns is not empty and holds neither NUL nor CR, whatever
  -- the client sent.
  pub extract_messages-IsClean : (c : Client Io) → All IsClean (extract_messages c).0
  unfolding extract_messages
  extract_messages-IsClean c = extract-IsClean (sock.buffered c.io + 1) c.io

  -- extractMessages takes every complete line out of the buffer: its loop ends because there is
  -- no further line and not for want of fuel, where taking a line shortens the buffer.
  pub extract_messages-drained :
      (laws : SocketLaws sock) (c : Client Io) → sock.next_line (extract_messages c).1.io ≡ none
  unfolding extract_messages
  extract_messages-drained laws c = extract-drained laws (sock.buffered c.io + 1) c.io (omega arith)
