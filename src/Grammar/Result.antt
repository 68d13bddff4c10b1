-- ===== src/Grammar/Result.antt =====
-- How a function of src/grammar/GrammarBuilder.cpp ends: with false and a message, or with true. A
-- number of 2^31 or more, which strtol and the conversion to int would wrap, and a loop whose fuel
-- ran out are cases of their own.
use ft_irc.Prelude.{Bytes, ℕ, ◌≡◌, refl, Bool, true, false, leb, if◌then◌else◌, if_ind}

pub data Result {ℓ} (A : Type ℓ) : Type ℓ where
  failed : Bytes → Result A
  overflow : Result A
  out_of_fuel : Result A
  done : A → Result A

infixl 5 ◌>>=◌
abbrev pub ◌>>=◌ {ℓ κ} : {A : Type ℓ} {B : Type κ} → Result A → (A → Result B) → Result B
failed why >>= f = failed why
overflow >>= f = overflow
out_of_fuel >>= f = out_of_fuel
done a >>= f = f a

abbrev pub int_max : ℕ
int_max = 2147483647

-- static_cast<int>(std::strtol(...))
unfoldable pub to_int : ℕ → Result ℕ
to_int v = if leb v int_max then done v else overflow

unfoldable pub require : Bool → Bytes → Result Bool
require true why = done true
require false why = failed why

-- Within its fuel the function failed, met a number that is too large, or gave a value with the
-- property.
abbrev pub Ends {ℓ} : {A : Type ℓ} → (A → Type 0) → Result A → Type 0
Ends Holds out_of_fuel = ⊥
Ends Holds (done value) = Holds value
Ends Holds (failed why) = Unit
Ends Holds overflow = Unit

module _ {Value Answer : Type 0} (Holds : Value → Type 0) (Then : Answer → Type 0) where
  pub Ends-bind :
      (first : Result Value) (next : Value → Result Answer)
      → Ends Holds first
      → ((value : Value) → Holds value → Ends Then (next value))
      → Ends Then (first >>= next)
  Ends-bind out_of_fuel next ended step = absurd ended
  Ends-bind (done value) next ended step = step value ended
  Ends-bind (failed why) next ended step = tt
  Ends-bind overflow next ended step = tt

pub require-Ends : (b : Bool) (why : Bytes) → Ends (λ _. b ≡ true) (require b why)
unfolding require
require-Ends true why = refl
require-Ends false why = tt

pub to_int-Ends : (v : ℕ) → Ends (λ n. n ≡ v) (to_int v)
unfolding to_int
to_int-Ends v = if_ind (Ends (λ n. n ≡ v)) (leb v int_max) (λ _. refl) (λ _. tt)
