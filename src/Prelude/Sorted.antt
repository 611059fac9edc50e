-- ===== src/Prelude/Sorted.antt =====
-- A list that `sort_by` returns rises in every key that the order looks at first.
use Prim.Native.Nat.{ℕ, ◌≤◌}
use mathlib.Core.Path.{◌≡◌}
use mathlib.Core.Logic.{inl, inr}
use mathlib.Core.Bool.{Bool, true, false}
use mathlib.Core.List.{List, [], ◌∷◌}
use native.Mathlib.Omega.{arith}
use forkd.Prelude.Tests.{Bool-cases}
use forkd.Prelude.Lists.{insert_by, sort_by}

-- Every key is at least the bound and the key before it.
abbrev pub Rising {ℓ} : {A : Type ℓ} → (A → ℕ) → ℕ → List A → Type 0
Rising key b [] = Unit
Rising key b (x ∷ xs) = (b ≤ key x) × Rising key (key x) xs

module _ {ℓ} {A : Type ℓ} (le : A → A → Bool) (key : A → ℕ)
    (up : (x y : A) → le x y ≡ true → key x ≤ key y)
    (down : (x y : A) → le x y ≡ false → key y ≤ key x) where
  insert_by-Rising :
      (b : ℕ) (x : A) (xs : List A) → b ≤ key x → Rising key b xs → Rising key b (insert_by le x xs)
  unfolding insert_by
  insert_by-Rising b x [] h r = (h, tt)
  insert_by-Rising b x (y ∷ ys) h r = elim (Bool-cases (le x y)) [
    | inl e ↦ rw e (h, (up x y e, r.1))
    | inr e ↦ rw e (r.0, insert_by-Rising (key y) x ys (down x y e) r.1)
  ]

  pub sort_by-Rising : (xs : List A) → Rising key 0 (sort_by le xs)
  unfolding sort_by
  sort_by-Rising [] = tt
  sort_by-Rising (x ∷ xs) = insert_by-Rising 0 x (sort_by le xs) (omega arith) (sort_by-Rising xs)
