-- ===== src/Prelude/Ordered.antt =====
-- What `sort_by` returns, for an order that is total: each element comes before all that follow it.
use mathlib.Core.Path.{◌≡◌}
use mathlib.Core.Logic.{inl, inr}
use mathlib.Core.Bool.{Bool, true, false}
use mathlib.Core.List.{List, [], ◌∷◌}
use forkd.Prelude.Tests.{Bool-cases}
use forkd.Prelude.Lists.{All, insert_by, sort_by}

abbrev pub IsOrdered {ℓ} : {A : Type ℓ} → (A → A → Bool) → List A → Type 0
IsOrdered le [] = Unit
IsOrdered le (x ∷ xs) = All (λ y. le x y ≡ true) xs × IsOrdered le xs

module _ {ℓ} {A : Type ℓ} (le : A → A → Bool) (total : (x y : A) → le x y ≡ false → le y x ≡ true)
    (trans : (x y z : A) → le x y ≡ true → le y z ≡ true → le x z ≡ true) where
  All-below :
      (x y : A) (xs : List A)
      → le x y ≡ true
      → All (λ z. le y z ≡ true) xs
      → All (λ z. le x z ≡ true) xs
  All-below x y [] h a = tt
  All-below x y (z ∷ zs) h (k, a) = (trans x y z h k, All-below x y zs h a)

  All-insert_by :
      (w x : A) (xs : List A)
      → le w x ≡ true
      → All (λ z. le w z ≡ true) xs
      → All (λ z. le w z ≡ true) (insert_by le x xs)
  unfolding insert_by
  All-insert_by w x [] h a = (h, tt)
  All-insert_by w x (y ∷ ys) h (k, a) = elim (Bool-cases (le x y)) [
    | inl e ↦ rw e (h, (k, a))
    | inr e ↦ rw e (k, All-insert_by w x ys h a)
  ]

  insert_by-IsOrdered : (x : A) (xs : List A) → IsOrdered le xs → IsOrdered le (insert_by le x xs)
  unfolding insert_by
  insert_by-IsOrdered x [] o = (tt, tt)
  insert_by-IsOrdered x (y ∷ ys) (a, o) = elim (Bool-cases (le x y)) [
    | inl e ↦ rw e ((e, All-below x y ys e a), (a, o))
    | inr e ↦ rw e (All-insert_by y x ys (total x y e) a, insert_by-IsOrdered x ys o)
  ]

  pub sort_by-IsOrdered : (xs : List A) → IsOrdered le (sort_by le xs)
  unfolding sort_by
  sort_by-IsOrdered [] = tt
  sort_by-IsOrdered (x ∷ xs) = insert_by-IsOrdered x (sort_by le xs) (sort_by-IsOrdered xs)
