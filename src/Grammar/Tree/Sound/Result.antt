-- ===== src/Grammar/Tree/Sound/Result.antt =====
-- match of src/grammar/interpreted/TreeMatcher.cpp: what the caller gets.
use mathlib.Core.List.{append-nil}
use ft_irc.Prelude.{
  Bytes, ℕ, zero, suc, ◌<◌, ◌≡◌, refl, sym, ap, subst, ◌∙◌, inl, inr, Bool, true, false, some, List,
  [], ◌∷◌, ◌++◌, map, append_assoc, arith, ◌==◌, if◌then◌else◌, Option-cases, length, get_or,
  update_at,
}
use ft_irc.Grammar.Rules.{Grammar, rule_root, capture_count}
use ft_irc.Grammar.MatchResult.{no_values, reset, MatchResult}
use ft_irc.Grammar.Derivation.{Capture, Derives}
use ft_irc.Grammar.Walk.{push_capture, Found, Walk, run_node}
use ft_irc.Grammar.Tree.{max_depth, match_node, nothing_found, adopt_if, match_from, tree_match}
use ft_irc.Grammar.Tree.Sound.Nodes.{match_node-Outcome}
use ft_irc.Grammar.Tree.Follow.{note_all, Follows, Outcome}

abbrev pub texts_of : ℕ → List Capture → List Bytes
texts_of slot [] = []
texts_of slot ((s, bytes) ∷ cs) = if s == slot then bytes ∷ texts_of slot cs else texts_of slot cs

-- The result holds the captures: in their order, with their slots, and slot by slot.
pub record Holds (g : Grammar) (cs : List Capture) (out : MatchResult) : Type 0 where
  pub names : out.captures ≡ g.capture_names
  pub in_order : out.sequence ≡ map (λ c. c.1) cs
  pub with_slots : out.owners ≡ map (λ c. c.0) cs
  pub by_slot : (slot : ℕ) → slot < capture_count g → get_or out.values slot [] ≡ texts_of slot cs

note_all-sequence :
    (cs : List Capture) (f : Found)
    → ((note_all cs f).sequence ≡ f.sequence ++ map (λ c. c.1) cs)
      × ((note_all cs f).owners ≡ f.owners ++ map (λ c. c.0) cs)
unfolding push_capture
note_all-sequence [] f = (sym (append-nil f.sequence), sym (append-nil f.owners))
note_all-sequence ((slot, bytes) ∷ cs) f =
    let (s, o) = note_all-sequence cs (push_capture slot bytes f) in
    (simp (s, append_assoc), simp (o, append_assoc))

module _ {A : Type 0} where
  get-update_at :
      (i j : ℕ) (x : A) (vs : List (List A))
      → j < length vs
      → get_or (update_at i (λ l. l ++ x ∷ []) vs) j []
        ≡ (if i == j then get_or vs j [] ++ x ∷ [] else get_or vs j [])
  get-update_at i j x [] h = absurd (omega arith)
  get-update_at zero zero x (v ∷ vs) h = refl
  get-update_at zero (suc j) x (v ∷ vs) h = ground arith
  get-update_at (suc i) zero x (v ∷ vs) h = ground arith
  get-update_at (suc i) (suc j) x (v ∷ vs) h = ground (arith, get-update_at i j x vs (omega arith))

  length-update_at : (i : ℕ) (f : A → A) (vs : List A) → length (update_at i f vs) ≡ length vs
  length-update_at i f [] = refl
  length-update_at zero f (v ∷ vs) = refl
  length-update_at (suc i) f (v ∷ vs) = omega (arith, length-update_at i f vs)

note_all-values :
    (cs : List Capture) (f : Found) (slot : ℕ)
    → slot < length f.values
    → get_or (note_all cs f).values slot [] ≡ get_or f.values slot [] ++ texts_of slot cs
unfolding push_capture
note_all-values [] f slot h = sym (append-nil (get_or f.values slot []))
note_all-values ((s, bytes) ∷ cs) f slot h =
    let longer : length (push_capture s bytes f).values ≡ length f.values =
      length-update_at s (λ l. l ++ bytes ∷ []) f.values in
    let here = get-update_at s slot bytes f.values h in
    let later = note_all-values cs (push_capture s bytes f) slot (omega arith) in
    ground
      (arith, later, here, append_assoc (get_or f.values slot []) (bytes ∷ []) (texts_of slot cs))

no_values-empty : (n slot : ℕ) → (get_or (no_values n) slot [] ≡ []) × (length (no_values n) ≡ n)
no_values-empty zero slot = (refl, refl)
no_values-empty (suc n) zero = (refl, omega (arith, (no_values-empty n 0).1))
no_values-empty (suc n) (suc slot) =
    ((no_values-empty n slot).0, omega (arith, (no_values-empty n slot).1))

module _ (g : Grammar) (rule : ℕ) (line : Bytes) where
  noted-Holds :
      (cs : List Capture) (found : Found)
      → found ≡ note_all cs (nothing_found g)
      → Holds g cs (record (reset g.capture_names) {
        values = found.values;
        sequence = found.sequence;
        owners = found.owners;
      })
  noted-Holds cs found e =
      let (s, o) = note_all-sequence cs (nothing_found g) in
      record {
        names = refl;
        in_order = ap (λ f. f.sequence) e ∙ s;
        with_slots = ap (λ f. f.owners) e ∙ o;
        by_slot = λ slot h.
            ap (λ f. get_or f.values slot []) e
            ∙ note_all-values cs (nothing_found g) slot
                (omega (arith, (no_values-empty (capture_count g) 0).1))
            ∙ ap (λ v. v ++ texts_of slot cs) (no_values-empty (capture_count g) slot).0;
      }

  adopted-Holds :
      (root : ℕ) (r : Bool × Walk)
      → Outcome (Follows g line (run_node root ∷ []) 0) (nothing_found g) r
      → r.0 ≡ true
      → (cs : List Capture) × Derives g line root 0 (length line) cs
        × Holds g cs (adopt_if r (reset g.capture_names))
  unfolding adopt_if
  adopted-Holds root (false, w) o e = cc
  adopted-Holds root (true, w) (cs, t, f) e =
      let whole : cs ≡ t.inner =
        t.split ∙ ap (λ ds. t.inner ++ ds) t.after.1 ∙ append-nil t.inner in
      (
        cs,
        subst (λ j. Derives g line root 0 j cs) t.after.0
            (subst (λ ds. Derives g line root 0 t.stop ds) (sym whole) t.part),
        noted-Holds cs w.found f,
      )

  match_from-Derives :
      (root : ℕ)
      → (match_from g line root).matched ≡ true
      → (cs : List Capture) × Derives g line root 0 (length line) cs
        × Holds g cs (match_from g line root).out
  unfolding match_from
  match_from-Derives root e =
      let walk : Walk = record { found = nothing_found g; steps = 0; exhausted = false } in
      adopted-Holds root (match_node g line max_depth root 0 [] walk)
        (match_node-Outcome g line max_depth root 0 [] walk refl) e

  -- A match of the interpreted matcher is a derivation: if match returns true, the rule has a
  -- root that derives the whole line, and the result holds the captures of that derivation in
  -- order, with their slots and slot by slot, so that nothing of a branch that was given up
  -- stays in it.
  pub tree_match-Derives :
      (tree_match g rule line).matched ≡ true
      → (root : ℕ) × (rule_root g rule ≡ some root)
        × ((cs : List Capture) × Derives g line root 0 (length line) cs
            × Holds g cs (tree_match g rule line).out)
  unfolding tree_match
  tree_match-Derives e = elim (Option-cases (rule_root g rule)) [
    | inl q ↦ absurd (ground arith)
    | inr (root, q) ↦
        let same : tree_match g rule line ≡ match_from g line root = rw (q, tree_match) in
        (
          root,
          q,
          subst
              (λ t. (cs : List Capture) × Derives g line root 0 (length line) cs × Holds g cs t.out)
              (sym same) (match_from-Derives root (ap (λ t. t.matched) (sym same) ∙ e)),
        )
  ]
