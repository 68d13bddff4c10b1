-- ===== src/Grammar/Tree/Sound/Restored.antt =====
-- ContCloseCapture of src/grammar/interpreted/TreeMatcher.cpp: the resizes undo the push_backs.
use ft_irc.Prelude.{
  Bytes, ℕ, zero, suc, ◌≡◌, refl, ap, List, [], ◌∷◌, ◌++◌, arith, length, get_or, take, update_at,
  length-append,
}
use ft_irc.Grammar.Walk.{push_capture, pop_capture, Found}

module _ {ℓ} {A : Type ℓ} where
  take-append : (xs ys : List A) → take (length xs) (xs ++ ys) ≡ xs
  take-append [] ys = refl
  take-append (x ∷ xs) ys = ap (◌∷◌ x) (take-append xs ys)

  update_at-undone :
      (slot : ℕ) (x : A) (vs : List (List A))
      → update_at slot (take (length (get_or vs slot []))) (update_at slot (λ l. l ++ x ∷ []) vs)
        ≡ vs
  update_at-undone slot x [] = refl
  update_at-undone zero x (v ∷ vs) = ap (λ u. u ∷ vs) (take-append v (x ∷ []))
  update_at-undone (suc slot) x (v ∷ vs) = ap (◌∷◌ v) (update_at-undone slot x vs)

-- The owners are as many as the captures of the sequence.
abbrev pub Paired : Found → Type 0
Paired f = length f.owners ≡ length f.sequence

pub push_capture-Paired :
    (slot : ℕ) (bytes : Bytes) (f : Found) → Paired f → Paired (push_capture slot bytes f)
unfolding push_capture
push_capture-Paired slot bytes f h =
    omega (arith, length-append f.owners (slot ∷ []), length-append f.sequence (bytes ∷ []))

pub pop-push :
    (slot : ℕ) (bytes : Bytes) (f : Found)
    → Paired f
    → pop_capture slot f (push_capture slot bytes f) ≡ f
unfolding push_capture pop_capture
pop-push slot bytes f h =
    let undone : take (length f.sequence) (f.owners ++ slot ∷ []) ≡ f.owners =
      rw (← h) (take-append f.owners (slot ∷ [])) in
    λ i. record {
      values = update_at-undone slot bytes f.values i;
      sequence = take-append f.sequence (bytes ∷ []) i;
      owners = undone i;
    }
