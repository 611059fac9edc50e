-- ===== src/Master/E2b/Newest.antt =====
-- crates/sandstorm-core/src/master/e2b.rs (`list_v2`): the order of a listing, and what is left of it after a cursor.
use forkd.Prelude.{
  ◌≡◌, ◌≢◌, refl, sym, ap, ◌∙◌, inl, inr, Bool, true, false, not, List, [], ◌∷◌, ◌++◌, All, arith,
  retain, insert_by, sort_by, Bool-cases, IsOrdered, text_le_total, text_le_trans, text_le_antisymm,
}
use forkd.Master.E2b.{Listed, newest_first, is_after}

pub newest_first_total : (a b : Listed) → newest_first a b ≡ false → newest_first b a ≡ true
unfolding newest_first
newest_first_total a b h = ground (arith, text_le_total a.1.id b.1.id)

pub newest_first_trans :
    (a b c : Listed) → newest_first a b ≡ true → newest_first b c ≡ true → newest_first a c ≡ true
unfolding newest_first
newest_first_trans a b c h k = ground (arith, text_le_trans a.1.id b.1.id c.1.id)

after-not : (a b : Listed) → is_after (b.1.created_at, b.1.id) a ≡ not (newest_first a b)
unfolding newest_first is_after
after-not a b = ground arith

newest_first_self : (a : Listed) → newest_first a a ≡ true
newest_first_self a = elim (Bool-cases (newest_first a a)) [
  | inl e ↦ e
  | inr e ↦ newest_first_total a a e
]

newest_first_strict :
    (a b : Listed) → newest_first a b ≡ true → a.1.id ≢ b.1.id → newest_first b a ≡ false
unfolding newest_first
newest_first_strict a b h n = elim (Bool-cases (newest_first b a)) [
  | inr e ↦ e
  | inl e ↦ absurd (n (ground (arith, text_le_antisymm a.1.id b.1.id)))
]

-- No two have one id.
abbrev pub Distinct : List Listed → Type 0
Distinct [] = Unit
Distinct (x ∷ xs) = All (λ y. x.1.id ≢ y.1.id) xs × Distinct xs

abbrev Others : Listed → List Listed → Type 0
Others w xs = All (λ y. w.1.id ≢ y.1.id) xs

Others-retain :
    (w : Listed) (p : Listed → Bool) (xs : List Listed) → Others w xs → Others w (retain p xs)
unfolding retain
Others-retain w p [] a = tt
Others-retain w p (x ∷ xs) (h, a) = elim (Bool-cases (p x)) [
  | inl e ↦ rw e (h, Others-retain w p xs a)
  | inr e ↦ rw e (Others-retain w p xs a)
]

pub Distinct-retain : (p : Listed → Bool) (xs : List Listed) → Distinct xs → Distinct (retain p xs)
unfolding retain
Distinct-retain p [] d = tt
Distinct-retain p (x ∷ xs) (a, d) = elim (Bool-cases (p x)) [
  | inl e ↦ rw e (Others-retain x p xs a, Distinct-retain p xs d)
  | inr e ↦ rw e (Distinct-retain p xs d)
]

Others-insert :
    (w x : Listed) (xs : List Listed)
    → w.1.id ≢ x.1.id
    → Others w xs
    → Others w (insert_by newest_first x xs)
unfolding insert_by
Others-insert w x [] h a = (h, tt)
Others-insert w x (y ∷ ys) h (k, a) = elim (Bool-cases (newest_first x y)) [
  | inl e ↦ rw e (h, (k, a))
  | inr e ↦ rw e (k, Others-insert w x ys h a)
]

Distinct-insert :
    (x : Listed) (xs : List Listed)
    → All (λ y. x.1.id ≢ y.1.id) xs
    → Distinct xs
    → Distinct (insert_by newest_first x xs)
unfolding insert_by
Distinct-insert x [] a d = (tt, tt)
Distinct-insert x (y ∷ ys) (n, a) (b, d) = elim (Bool-cases (newest_first x y)) [
  | inl e ↦ rw e ((n, a), (b, d))
  | inr e ↦ rw e (Others-insert y x ys (λ q. n (sym q)) b, Distinct-insert x ys a d)
]

Others-sort : (w : Listed) (xs : List Listed) → Others w xs → Others w (sort_by newest_first xs)
unfolding sort_by
Others-sort w [] a = tt
Others-sort w (x ∷ xs) (h, a) = Others-insert w x (sort_by newest_first xs) h (Others-sort w xs a)

pub Distinct-sort : (xs : List Listed) → Distinct xs → Distinct (sort_by newest_first xs)
unfolding sort_by
Distinct-sort [] d = tt
Distinct-sort (x ∷ xs) (a, d) =
    Distinct-insert x (sort_by newest_first xs) (Others-sort x xs a) (Distinct-sort xs d)

kept-All :
    (y : Listed) (zs : List Listed)
    → All (λ z. newest_first y z ≡ true) zs
    → All (λ z. y.1.id ≢ z.1.id) zs
    → retain (is_after (y.1.created_at, y.1.id)) zs ≡ zs
unfolding retain
kept-All y [] a d = refl
kept-All y (z ∷ zs) (h, a) (n, d) =
    let e : is_after (y.1.created_at, y.1.id) z ≡ true =
      after-not z y ∙ ap not (newest_first_strict y z h n) in
    rw e (ap (λ l. z ∷ l) (kept-All y zs a d))

-- What is after an element of a list in that order is what follows it.
pub after_element :
    (xs : List Listed) (y : Listed) (zs : List Listed)
    → IsOrdered newest_first (xs ++ (y ∷ zs))
    → Distinct (xs ++ (y ∷ zs))
    → retain (is_after (y.1.created_at, y.1.id)) (xs ++ (y ∷ zs)) ≡ zs
unfolding retain
after_element [] y zs (a, o) (b, d) =
    let e : is_after (y.1.created_at, y.1.id) y ≡ false =
      after-not y y ∙ ap not (newest_first_self y) in
    rw e (kept-All y zs a b)
after_element (x ∷ xs) y zs (a, o) (b, d) =
    let e : is_after (y.1.created_at, y.1.id) x ≡ false = after-not x y ∙ ap not (in_front xs a) in
    rw e (after_element xs y zs o d)
  where
    in_front :
        (ws : List Listed)
        → All (λ z. newest_first x z ≡ true) (ws ++ (y ∷ zs))
        → newest_first x y ≡ true
    in_front [] (h, t) = h
    in_front (w ∷ ws) (h, t) = in_front ws t
