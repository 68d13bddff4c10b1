-- ===== src/Prelude/Maps.antt =====
-- std::map and std::set: ordered association lists over keys with `==` and `<`.
pub mod Laws
pub mod Fresh
use Prim.Native.Nat.{ℕ}
use mathlib.Core.Path.{◌≡◌}
use mathlib.Core.Bool.{Bool, true, false}
use mathlib.Core.Option.{Option, none, some}
use mathlib.Core.List.{List, [], ◌∷◌}
use ft_irc.Prelude.Tests.{◌==◌, ltb, ==_iff, ==_self, if◌then◌else◌}
use ft_irc.Prelude.Strings.{Bytes, bytes_eq, bytes_lt, bytes_eq_sound, bytes_eq_self}

pub record Key (K : Type 0) : Type 0 where
  pub eq : K → K → Bool
  pub lt : K → K → Bool
  pub eq_sound : (a b : K) → eq a b ≡ true → a ≡ b
  pub eq_self : (a : K) → eq a a ≡ true

abbrev pub fd_eq_sound : (a b : ℕ) → (a == b) ≡ true → a ≡ b
fd_eq_sound a b = (==_iff a b).0

instance abbrev pub nat_key : Key ℕ
nat_key = record { eq = ◌==◌; lt = ltb; eq_sound = fd_eq_sound; eq_self = ==_self }

instance abbrev pub bytes_key : Key Bytes
bytes_key = record {
  eq = bytes_eq;
  lt = bytes_lt;
  eq_sound = bytes_eq_sound;
  eq_self = bytes_eq_self;
}

abbrev pub Map : Type 0 → Type 0 → Type 0
Map K V = List (K × V)

module _ {K V : Type 0} ⦃key : Key K⦄ where
  unfoldable pub lookup : K → Map K V → Option V
  lookup k [] = none
  lookup k ((j, v) ∷ m) = if key.eq j k then some v else lookup k m

  -- m[k] = v
  unfoldable pub insert : K → V → Map K V → Map K V
  insert k v [] = (k, v) ∷ []
  insert k v ((j, w) ∷ m) =
      if key.eq j k
      then (k, v) ∷ m
      else (if key.lt k j then (k, v) ∷ (j, w) ∷ m else (j, w) ∷ insert k v m)

  -- m.erase(k)
  unfoldable pub erase : K → Map K V → Map K V
  erase k [] = []
  erase k ((j, v) ∷ m) = if key.eq j k then erase k m else (j, v) ∷ erase k m

  -- A write through the pointer that is stored under `k`.
  unfoldable pub adjust : K → (V → V) → Map K V → Map K V
  adjust k f [] = []
  adjust k f ((j, v) ∷ m) = (j, (if key.eq j k then f v else v)) ∷ adjust k f m

  -- m[k] exists
  unfoldable pub has_key : K → Map K V → Bool
  has_key k [] = false
  has_key k ((j, v) ∷ m) = if key.eq j k then true else has_key k m

module _ {K : Type 0} ⦃key : Key K⦄ where
  -- std::set
  unfoldable pub contains : K → List K → Bool
  contains k [] = false
  contains k (j ∷ s) = if key.eq j k then true else contains k s

  unfoldable pub include : K → List K → List K
  include k [] = k ∷ []
  include k (j ∷ s) =
      if key.eq j k then k ∷ s else (if key.lt k j then k ∷ j ∷ s else j ∷ include k s)

  unfoldable pub exclude : K → List K → List K
  exclude k [] = []
  exclude k (j ∷ s) = if key.eq j k then exclude k s else j ∷ exclude k s
