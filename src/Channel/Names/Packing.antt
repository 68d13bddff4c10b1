-- ===== src/Channel/Names/Packing.antt =====
-- src/Channel.cpp: what `Channel::getNamesChunks` makes of the entries.
use ft_irc.Prelude.{
  Bytes, text, ℕ, ◌+◌, ◌≤◌, ◌≡◌, refl, sym, ap, ◌∙◌, ◌⊎◌, inl, inr, true, false, not, ◌&&◌, List,
  [], ◌∷◌, ◌++◌, append_assoc, arith, ltb, if_ind, length, is_nil, length-append, All, All-append,
}
use ft_irc.Channel.Names.{add_entry, names_loop, finish_chunks, names_chunks}

-- Two texts with a space between them, if neither is empty.
abbrev pub glue : Bytes → Bytes → Bytes
glue [] b = b
glue (x ∷ a) [] = x ∷ a
glue (x ∷ a) (y ∷ b) = (x ∷ a) ++ (32 ∷ y ∷ b)

abbrev pub spaced : List Bytes → Bytes
spaced [] = []
spaced (w ∷ ws) = glue w (spaced ws)

pub glue-nil : (a : Bytes) → glue a [] ≡ a
glue-nil [] = refl
glue-nil (x ∷ a) = refl

glue_assoc : (a b c : Bytes) → glue (glue a b) c ≡ glue a (glue b c)
glue_assoc [] b c = refl
glue_assoc (x ∷ a) [] c = refl
glue_assoc (x ∷ a) (y ∷ b) [] = refl
glue_assoc (x ∷ a) (y ∷ b) (z ∷ c) = append_assoc (x ∷ a) (32 ∷ y ∷ b) (32 ∷ z ∷ c)

pub spaced-append : (ws : List Bytes) (w : Bytes) → spaced (ws ++ (w ∷ [])) ≡ glue (spaced ws) w
spaced-append [] w = glue-nil w
spaced-append (v ∷ ws) w = ap (glue v) (spaced-append ws w) ∙ sym (glue_assoc v (spaced ws) w)

-- An entry is not empty: it has a nickname in it.
abbrev pub IsEntry : Bytes → Type 0
IsEntry e = is_nil e ≡ false

-- What the two variables of the loop hold.
abbrev held : List Bytes × Bytes → Bytes
held (chunks, cur) = glue (spaced chunks) cur

add_entry-held :
    (budget : ℕ) (e : Bytes) (acc : List Bytes × Bytes)
    → IsEntry e
    → held (add_entry budget e acc) ≡ glue (held acc) e
unfolding add_entry text
add_entry-held budget [] acc h = cc
add_entry-held budget (x ∷ e) (chunks, []) h =
    ap (λ (t : Bytes). glue t (x ∷ e)) (sym (glue-nil (spaced chunks)))
add_entry-held budget (x ∷ e) (chunks, y ∷ cur) h =
    if_ind (λ (r : List Bytes × Bytes). held r ≡ glue (glue (spaced chunks) (y ∷ cur)) (x ∷ e))
      (not (is_nil (y ∷ cur)) && ltb budget (length (y ∷ cur) + 1 + length (x ∷ e)))
      (λ _. ap (λ (t : Bytes). glue t (x ∷ e)) (spaced-append chunks (y ∷ cur)))
      (λ _.
        ap (glue (spaced chunks)) (append_assoc (y ∷ cur) (32 ∷ []) (x ∷ e))
        ∙ sym (glue_assoc (spaced chunks) (y ∷ cur) (x ∷ e)))

names_loop-held :
    (budget : ℕ) (es : List Bytes) (acc : List Bytes × Bytes)
    → All IsEntry es
    → held (names_loop budget es acc) ≡ glue (held acc) (spaced es)
unfolding names_loop
names_loop-held budget [] acc h = sym (glue-nil (held acc))
names_loop-held budget (e ∷ es) acc h =
    names_loop-held budget es (add_entry budget e acc) h.1
    ∙ ap (λ (t : Bytes). glue t (spaced es)) (add_entry-held budget e acc h.0)
    ∙ glue_assoc (held acc) e (spaced es)

finish-held : (acc : List Bytes × Bytes) → spaced (finish_chunks acc) ≡ held acc
finish-held (chunks, []) = sym (glue-nil (spaced chunks))
finish-held (chunks, x ∷ cur) = spaced-append chunks (x ∷ cur)

nil-spaced : (ws : List Bytes) → is_nil ws ≡ true → [] ≡ spaced ws
nil-spaced [] e = refl
nil-spaced (w ∷ ws) e = cc

-- No name is lost, split or reordered in the reply to NAMES: with a space between two of them the
-- chunks read as the entries do, where no entry is empty.
pub names_chunks-spaced :
    (budget : ℕ) (entries : List Bytes)
    → All IsEntry entries
    → spaced (names_chunks budget entries) ≡ spaced entries
unfolding names_chunks
names_chunks-spaced budget entries h =
    let chunks = finish_chunks (names_loop budget entries ([], [])) in
    let same : spaced chunks ≡ spaced entries =
      finish-held (names_loop budget entries ([], []))
      ∙ names_loop-held budget entries ([], []) h in
    if_ind (λ (r : List Bytes). spaced r ≡ spaced entries) (is_nil chunks)
      (λ none. nil-spaced chunks none ∙ same) (λ _. same)

module _ (budget : ℕ) (Q : Bytes → Type 0) where
  abbrev pub Fits : Bytes → Type 0
  Fits chunk = (length chunk ≤ budget) ⊎ Q chunk

  abbrev AllFit : List Bytes × Bytes → Type 0
  AllFit (chunks, cur) = All Fits chunks × Fits cur

  add_entry-Fits :
      (e : Bytes) (acc : List Bytes × Bytes) → Q e → AllFit acc → AllFit (add_entry budget e acc)
  unfolding add_entry text
  add_entry-Fits e (chunks, []) q h = (h.0, inr q)
  add_entry-Fits e (chunks, y ∷ cur) q h =
      if_ind AllFit (not (is_nil (y ∷ cur)) && ltb budget (length (y ∷ cur) + 1 + length e))
        (λ _. (All-append Fits chunks ((y ∷ cur) ∷ []) h.0 (h.1, tt), inr q))
        (λ room. (
          h.0,
          inl (
              ground (
                arith,
                room,
                length-append ((y ∷ cur) ++ (32 ∷ [])) e,
                length-append (y ∷ cur) (32 ∷ []),
              )),
        ))

  names_loop-Fits :
      (es : List Bytes) (acc : List Bytes × Bytes)
      → All Q es
      → AllFit acc
      → AllFit (names_loop budget es acc)
  unfolding names_loop
  names_loop-Fits [] acc q h = h
  names_loop-Fits (e ∷ es) acc q h =
      names_loop-Fits es (add_entry budget e acc) q.1 (add_entry-Fits e acc q.0 h)

  finish-Fits : (acc : List Bytes × Bytes) → AllFit acc → All Fits (finish_chunks acc)
  finish-Fits (chunks, []) h = h.0
  finish-Fits (chunks, y ∷ cur) h = All-append Fits chunks ((y ∷ cur) ∷ []) h.0 (h.1, tt)

  -- A chunk of the reply to NAMES is within the budget, or it has any property that all the
  -- entries have: it is one of them.
  pub names_chunks-Fits :
      (entries : List Bytes) → All Q entries → All Fits (names_chunks budget entries)
  unfolding names_chunks
  names_chunks-Fits entries q =
      let chunks = finish_chunks (names_loop budget entries ([], [])) in
      if_ind (All Fits) (is_nil chunks) (λ _. (inl (omega arith), tt))
        (λ _.
          finish-Fits (names_loop budget entries ([], []))
            (names_loop-Fits entries ([], []) q (tt, inl (omega arith))))
