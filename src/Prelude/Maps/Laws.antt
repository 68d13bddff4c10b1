-- ===== src/Prelude/Maps/Laws.antt =====
-- The laws of maps and sets, in the form that has no side condition.

use mathlib.Core.Path.{◌≡◌, refl, subst₂, ◌∙◌}
use mathlib.Core.Logic.{inl, inr}
use mathlib.Core.Bool.{true, false}
use mathlib.Core.Option.{none, some}
use mathlib.Core.List.{List, [], ◌∷◌}
use native.Mathlib.Omega.{arith}
use ft_irc.Prelude.Tests.{if◌then◌else◌, Bool-cases, Option-cases, if_ind}
use ft_irc.Prelude.Maps.{
  Key, Map, lookup, insert, erase, adjust, contains, include, exclude, has_key,
}

module _ {K : Type 0} ⦃key : Key K⦄ where
  pub contains-include :
      (j k : K) (s : List K)
      → contains j (include k s) ≡ (if key.eq k j then true else contains j s)
  unfolding contains include
  contains-include j k [] = refl
  contains-include j k (i ∷ s) = ground (
    arith,
    contains-include j k s,
    key.eq_sound i k,
    key.eq_sound i j,
    key.eq_sound k j,
    key.eq_self k,
  )

  pub contains-exclude :
      (j k : K) (s : List K)
      → contains j (exclude k s) ≡ (if key.eq k j then false else contains j s)
  unfolding contains exclude
  contains-exclude j k [] = ground arith
  contains-exclude j k (i ∷ s) = ground (
    arith,
    contains-exclude j k s,
    key.eq_sound i k,
    key.eq_sound i j,
    key.eq_sound k j,
    key.eq_self k,
  )

module _ {K V : Type 0} ⦃key : Key K⦄ where
  pub lookup-insert :
      (j k : K) (v : V) (m : Map K V)
      → lookup j (insert k v m) ≡ (if key.eq k j then some v else lookup j m)
  unfolding lookup insert
  lookup-insert j k v [] = refl
  lookup-insert j k v ((i, w) ∷ m) = ground (
    arith,
    lookup-insert j k v m,
    key.eq_sound i k,
    key.eq_sound i j,
    key.eq_sound k j,
    key.eq_self k,
  )

  pub lookup-erase :
      (j k : K) (m : Map K V) → lookup j (erase k m) ≡ (if key.eq k j then none else lookup j m)
  unfolding lookup erase
  lookup-erase j k [] = ground arith
  lookup-erase j k ((i, w) ∷ m) = ground (
    arith,
    lookup-erase j k m,
    key.eq_sound i k,
    key.eq_sound i j,
    key.eq_sound k j,
    key.eq_self k,
  )

  pub lookup-adjust :
      (j k : K) (f : V → V) (m : Map K V)
      → lookup j (adjust k f m)
        ≡ elim (lookup j m) [ none ↦ none | some v ↦ some (if key.eq k j then f v else v) ]
  unfolding lookup adjust
  lookup-adjust j k f [] = refl
  lookup-adjust j k f ((i, w) ∷ m) = ground (
    arith,
    lookup-adjust j k f m,
    key.eq_sound i k,
    key.eq_sound i j,
    key.eq_sound k j,
    key.eq_self k,
  )

-- Every entry of a map has a property.
abbrev pub Each : {K V : Type 0} → (K → V → Type 0) → Map K V → Type 0
Each P [] = Unit
Each P ((k, v) ∷ m) = P k v × Each P m

module _ {K V : Type 0} ⦃key : Key K⦄ where
  pub Each-insert :
      (P : K → V → Type 0) (k : K) (v : V) (m : Map K V) → P k v → Each P m → Each P (insert k v m)
  unfolding insert
  Each-insert P k v [] p e = (p, tt)
  Each-insert P k v ((i, w) ∷ m) p e =
      if_ind (Each P) (key.eq i k) (λ _. (p, e.1))
        λ _. if_ind (Each P) (key.lt k i) (λ _. (p, e)) (λ _. (e.0, Each-insert P k v m p e.1))

  pub Each-erase : (P : K → V → Type 0) (k : K) (m : Map K V) → Each P m → Each P (erase k m)
  unfolding erase
  Each-erase P k [] e = tt
  Each-erase P k ((i, w) ∷ m) e =
      if_ind (Each P) (key.eq i k) (λ _. Each-erase P k m e.1) (λ _. (e.0, Each-erase P k m e.1))

  -- `some v` was stored under `k`.
  pub Each-lookup :
      (P : K → V → Type 0) (k : K) (m : Map K V) {v : V} → Each P m → lookup k m ≡ some v → P k v
  unfolding lookup
  Each-lookup P k [] e h = cc
  Each-lookup P k ((i, w) ∷ m) {v} e h = elim (Bool-cases (key.eq i k)) [
    | inl same ↦ subst₂ P (key.eq_sound i k same) (ground arith) e.0
    | inr other ↦ Each-lookup P k m e.1 (rw (other, lookup) at h)
  ]

  pub Each-adjust :
      (P : K → V → Type 0) (k : K) (f : V → V) (m : Map K V)
      → ((j : K) (v : V) → P j v → P j (f v))
      → Each P m
      → Each P (adjust k f m)
  unfolding adjust
  Each-adjust P k f [] h e = tt
  Each-adjust P k f ((i, w) ∷ m) h e =
      (if_ind (P i) (key.eq i k) (λ _. h i w e.0) (λ _. e.0), Each-adjust P k f m h e.1)

module _ {K V : Type 0} where
  pub Each-mono :
      (P Q : K → V → Type 0) (m : Map K V) → ((k : K) (v : V) → P k v → Q k v) → Each P m → Each Q m
  Each-mono P Q [] h e = tt
  Each-mono P Q ((i, w) ∷ m) h e = (h i w e.0, Each-mono P Q m h e.1)

module _ {K V : Type 0} ⦃key : Key K⦄ where
  -- No key stands twice.
  abbrev pub Distinct : Map K V → Type 0
  Distinct [] = Unit
  Distinct ((k, v) ∷ m) = (has_key k m ≡ false) × Distinct m

  pub lookup-none : (k : K) (m : Map K V) → has_key k m ≡ false → lookup k m ≡ none
  unfolding lookup has_key
  lookup-none k [] h = refl
  lookup-none k ((i, w) ∷ m) h = ground (arith, lookup-none k m)

  pub has_key-adjust : (j k : K) (f : V → V) (m : Map K V) → has_key j (adjust k f m) ≡ has_key j m
  unfolding has_key adjust
  has_key-adjust j k f [] = refl
  has_key-adjust j k f ((i, w) ∷ m) = ground (arith, has_key-adjust j k f m)

  pub has_key-erase :
      (j k : K) (m : Map K V) → has_key j (erase k m) ≡ (if key.eq k j then false else has_key j m)
  unfolding has_key erase
  has_key-erase j k [] = ground arith
  has_key-erase j k ((i, w) ∷ m) = ground (
    arith,
    has_key-erase j k m,
    key.eq_sound i k,
    key.eq_sound i j,
    key.eq_sound k j,
    key.eq_self k,
  )

  pub adjust-Distinct : (k : K) (f : V → V) (m : Map K V) → Distinct m → Distinct (adjust k f m)
  unfolding adjust
  adjust-Distinct k f [] d = tt
  adjust-Distinct k f ((i, w) ∷ m) d = (has_key-adjust i k f m ∙ d.0, adjust-Distinct k f m d.1)

  pub erase-Distinct : (k : K) (m : Map K V) → Distinct m → Distinct (erase k m)
  unfolding erase
  erase-Distinct k [] d = tt
  erase-Distinct k ((i, w) ∷ m) d =
      if_ind Distinct (key.eq i k) (λ _. erase-Distinct k m d.1)
        (λ _. (ground (arith, has_key-erase i k m, d.0), erase-Distinct k m d.1))

  pub adjust-inv :
      (j k : K) (f : V → V) (m : Map K V) {w : V}
      → lookup j (adjust k f m) ≡ some w
      → (v : V) × (lookup j m ≡ some v) × (w ≡ (if key.eq k j then f v else v))
  adjust-inv j k f m e = elim (Option-cases (lookup j m)) [
    | inl h ↦ cc (lookup-adjust j k f m)
    | inr (v, h) ↦ (v, h, ground (arith, lookup-adjust j k f m))
  ]

  pub erase-inv :
      (j k : K) (m : Map K V) {w : V} → lookup j (erase k m) ≡ some w → lookup j m ≡ some w
  erase-inv j k m e = ground (arith, lookup-erase j k m)
