-- ===== src/Prelude/Maps/Fresh.antt =====
-- Writing a map under a key that it does not hold.
use mathlib.Core.Path.{◌≡◌, refl}
use mathlib.Core.Bool.{true, false}
use mathlib.Core.Option.{none}
use mathlib.Core.List.{[], ◌∷◌}
use native.Mathlib.Omega.{arith}
use ft_irc.Prelude.Tests.{if◌then◌else◌, if_ind}
use ft_irc.Prelude.Maps.{Key, Map, lookup, insert, has_key}
use ft_irc.Prelude.Maps.Laws.{Distinct}

module _ {K V : Type 0} ⦃key : Key K⦄ where
  has_key-insert :
      (j k : K) (v : V) (m : Map K V)
      → has_key j (insert k v m) ≡ (if key.eq k j then true else has_key j m)
  unfolding has_key insert
  has_key-insert j k v [] = refl
  has_key-insert j k v ((i, w) ∷ m) = ground (
    arith,
    has_key-insert j k v m,
    key.eq_sound i k,
    key.eq_sound i j,
    key.eq_sound k j,
    key.eq_self k,
  )

  pub lookup-none-has_key : (k : K) (m : Map K V) → lookup k m ≡ none → has_key k m ≡ false
  unfolding lookup has_key
  lookup-none-has_key k [] h = refl
  lookup-none-has_key k ((i, w) ∷ m) h = ground (arith, lookup-none-has_key k m)

  pub insert-Distinct :
      (k : K) (v : V) (m : Map K V) → lookup k m ≡ none → Distinct m → Distinct (insert k v m)
  unfolding insert lookup has_key
  insert-Distinct k v [] h d = (refl, tt)
  insert-Distinct k v ((i, w) ∷ m) h d =
      let fresh = lookup-none-has_key k ((i, w) ∷ m) h in
      if_ind Distinct (key.eq i k) (λ same. cc)
        λ other.
          if_ind Distinct (key.lt k i) (λ _. (fresh, d))
            λ _. (
              ground (arith, has_key-insert i k v m, key.eq_sound k i, key.eq_self k, d.0),
              insert-Distinct k v m (rw (other, lookup) at h) d.1,
            )
