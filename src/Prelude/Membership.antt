-- ===== src/Prelude/Membership.antt =====
-- Membership under the operations on lists.
use mathlib.Core.Path.{◌≡◌, refl, sym, ap, subst, ◌∙◌}
use mathlib.Core.Logic.{inl, inr}
use mathlib.Core.Bool.{Bool, true}
use mathlib.Core.List.{List, [], ◌∷◌, Memᴰ}
use native.Mathlib.Omega.{arith}
use forkd.Prelude.Tests.{Bool-cases, if◌then◌else◌}
use forkd.Prelude.Lists.{all, any, retain, update_where, insert_by, sort_by}

-- What membership says of the list before an update, of a filter and of a test of all.
module _ {ℓ} {A : Type ℓ} where
  pub mem-update_where :
      (p : A → Bool) (f : A → A) (y : A) (xs : List A)
      → Memᴰ y (update_where p f xs)
      → (x : A) × Memᴰ x xs × (y ≡ (if p x then f x else x))
  unfolding update_where
  mem-update_where p f y [] h = elim h [ ]
  mem-update_where p f y (x ∷ xs) (Memᴰ.head e) = (x, Memᴰ.head refl, e)
  mem-update_where p f y (x ∷ xs) (Memᴰ.tail h) =
      let (z, m, e) = mem-update_where p f y xs h in (z, Memᴰ.tail m, e)

  pub all-retain :
      (p q : A → Bool) (y : A) (xs : List A)
      → all p (retain q xs) ≡ true
      → Memᴰ y xs
      → q y ≡ true
      → p y ≡ true
  unfolding all retain
  all-retain p q y [] h m e = elim m [ ]
  all-retain p q y (x ∷ xs) h (Memᴰ.head i) e =
      let qx : q x ≡ true = ap q (sym i) ∙ e in ap p i ∙ ground arith
  all-retain p q y (x ∷ xs) h (Memᴰ.tail m) e = all-retain p q y xs (ground arith) m e

  pub any-mem : (p : A → Bool) (xs : List A) → any p xs ≡ true → (x : A) × Memᴰ x xs × (p x ≡ true)
  unfolding any
  any-mem p [] h = cc
  any-mem p (x ∷ xs) h = elim (Bool-cases (p x)) [
    | inl e ↦ (x, Memᴰ.head refl, e)
    | inr e ↦ let (y, m, f) = any-mem p xs (ground arith) in (y, Memᴰ.tail m, f)
  ]

  pub mem-any : (p : A → Bool) (y : A) (xs : List A) → Memᴰ y xs → p y ≡ true → any p xs ≡ true
  unfolding any
  mem-any p y [] m h = elim m [ ]
  mem-any p y (x ∷ xs) (Memᴰ.head i) h = let px : p x ≡ true = ap p (sym i) ∙ h in ground arith
  mem-any p y (x ∷ xs) (Memᴰ.tail m) h = ground (arith, mem-any p y xs m h)

  pub mem-retain :
      (p : A → Bool) (y : A) (xs : List A) → Memᴰ y (retain p xs) → Memᴰ y xs × (p y ≡ true)
  unfolding retain
  mem-retain p y [] m = elim m [ ]
  mem-retain p y (x ∷ xs) m = elim (Bool-cases (p x)) [
    | inl e ↦
        kept e (subst (λ b. Memᴰ y (if b then x ∷ retain p xs else retain p xs)) e m)
          (λ t. mem-retain p y xs t)
    | inr e ↦
        let (m', e') =
          mem-retain p y xs
            (subst (λ b. Memᴰ y (if b then x ∷ retain p xs else retain p xs)) e m) in
        (Memᴰ.tail m', e')
  ]
    where
      kept :
          p x ≡ true
          → Memᴰ y (x ∷ retain p xs)
          → (Memᴰ y (retain p xs) → Memᴰ y xs × (p y ≡ true))
          → Memᴰ y (x ∷ xs) × (p y ≡ true)
      kept e (Memᴰ.head i) ih = (Memᴰ.head i, ap p i ∙ e)
      kept e (Memᴰ.tail t) ih = let (m', e') = ih t in (Memᴰ.tail m', e')

  pub retain-mem :
      (p : A → Bool) (y : A) (xs : List A) → Memᴰ y xs → p y ≡ true → Memᴰ y (retain p xs)
  unfolding retain
  retain-mem p y [] m h = elim m [ ]
  retain-mem p y (x ∷ xs) (Memᴰ.head i) h =
      let px : p x ≡ true = ap p (sym i) ∙ h in rw px (Memᴰ.head i)
  retain-mem p y (x ∷ xs) (Memᴰ.tail m) h = elim (Bool-cases (p x)) [
    | inl e ↦ rw e (Memᴰ.tail (retain-mem p y xs m h))
    | inr e ↦ rw e (retain-mem p y xs m h)
  ]

  insert_by-mem :
      (le : A → A → Bool) (x y : A) (ys : List A) → Memᴰ y (x ∷ ys) → Memᴰ y (insert_by le x ys)
  unfolding insert_by
  insert_by-mem le x y [] m = m
  insert_by-mem le x y (z ∷ zs) m = elim (Bool-cases (le x z)) [
    | inl e ↦ rw e m
    | inr e ↦ rw e (later m (λ t. insert_by-mem le x y zs t))
  ]
    where
      later :
          Memᴰ y (x ∷ z ∷ zs)
          → (Memᴰ y (x ∷ zs) → Memᴰ y (insert_by le x zs))
          → Memᴰ y (z ∷ insert_by le x zs)
      later (Memᴰ.head i) ih = Memᴰ.tail (ih (Memᴰ.head i))
      later (Memᴰ.tail (Memᴰ.head i)) ih = Memᴰ.head i
      later (Memᴰ.tail (Memᴰ.tail t)) ih = Memᴰ.tail (ih (Memᴰ.tail t))

  pub sort_by-mem : (le : A → A → Bool) (y : A) (xs : List A) → Memᴰ y xs → Memᴰ y (sort_by le xs)
  unfolding sort_by
  sort_by-mem le y [] m = elim m [ ]
  sort_by-mem le y (x ∷ xs) (Memᴰ.head i) = insert_by-mem le x y _ (Memᴰ.head i)
  sort_by-mem le y (x ∷ xs) (Memᴰ.tail m) =
      insert_by-mem le x y _ (Memᴰ.tail (sort_by-mem le y xs m))

  mem-insert_by :
      (le : A → A → Bool) (x y : A) (ys : List A) → Memᴰ y (insert_by le x ys) → Memᴰ y (x ∷ ys)
  unfolding insert_by
  mem-insert_by le x y [] m = m
  mem-insert_by le x y (z ∷ zs) m = elim (Bool-cases (le x z)) [
    | inl e ↦ subst (λ b. Memᴰ y (if b then x ∷ z ∷ zs else z ∷ insert_by le x zs)) e m
    | inr e ↦
        earlier (subst (λ b. Memᴰ y (if b then x ∷ z ∷ zs else z ∷ insert_by le x zs)) e m)
          (λ t. mem-insert_by le x y zs t)
  ]
    where
      swapped : Memᴰ y (x ∷ zs) → Memᴰ y (x ∷ z ∷ zs)
      swapped (Memᴰ.head i) = Memᴰ.head i
      swapped (Memᴰ.tail t) = Memᴰ.tail (Memᴰ.tail t)

      earlier :
          Memᴰ y (z ∷ insert_by le x zs)
          → (Memᴰ y (insert_by le x zs) → Memᴰ y (x ∷ zs))
          → Memᴰ y (x ∷ z ∷ zs)
      earlier (Memᴰ.head i) ih = Memᴰ.tail (Memᴰ.head i)
      earlier (Memᴰ.tail t) ih = swapped (ih t)

  pub mem-sort_by : (le : A → A → Bool) (y : A) (xs : List A) → Memᴰ y (sort_by le xs) → Memᴰ y xs
  unfolding sort_by
  mem-sort_by le y [] m = elim m [ ]
  mem-sort_by le y (x ∷ xs) m =
      front (mem-insert_by le x y (sort_by le xs) m) (λ t. mem-sort_by le y xs t)
    where
      front : Memᴰ y (x ∷ sort_by le xs) → (Memᴰ y (sort_by le xs) → Memᴰ y xs) → Memᴰ y (x ∷ xs)
      front (Memᴰ.head i) ih = Memᴰ.head i
      front (Memᴰ.tail t) ih = Memᴰ.tail (ih t)
