-- ===== src/Store/Slots/Lowest.antt =====
-- crates/sandstorm-core/src/state.rs: laws of `allocate_slot`.
use forkd.Prelude.{
  ℕ, suc, ◌≤◌, ◌<◌, ◌≡◌, refl, ◌⊎◌, inl, inr, String, Bool, true, false, ◌&&◌, Option, none, some,
  List, [], ◌∷◌, arith, ltb, leb, same, ◌==◌, any, Bool-cases, Option-cases, All, ap, sym, ◌∙◌,
  sort_by, insert_by, any-sort_by,
}
use forkd.Store.{Sandbox, Store}
use forkd.Store.Slots.{used, first_gap, allocate_slot, u32_max, up_to}

-- A row of the node that holds this value of the column.
abbrev pub holds : (Sandbox → Option ℕ) → String → ℕ → Sandbox → Bool
holds column node_id v s = elim (column s) [
  | none ↦ false
  | some u ↦ same s.node_id node_id && u == v
]

abbrev pub is_taken : Store → (Sandbox → Option ℕ) → String → ℕ → Bool
is_taken st column node_id v = any (holds column node_id v) st.sandboxes

has : ℕ → List ℕ → Bool
has v us = any (λ u. u == v) us

-- Every element is at least the bound and the element before it.
abbrev Rising : ℕ → List ℕ → Type 0
Rising b [] = Unit
Rising b (u ∷ us) = (b ≤ u) × Rising u us

Rising-lower : (a b : ℕ) (us : List ℕ) → a ≤ b → Rising b us → Rising a us
Rising-lower a b [] h r = tt
Rising-lower a b (u ∷ us) h r = (omega arith, r.1)

abbrev number_le : ℕ → ℕ → Bool
number_le a b = leb a b

insert_by-Rising :
    (b x : ℕ) (us : List ℕ) → b ≤ x → Rising b us → Rising b (insert_by number_le x us)
unfolding insert_by
insert_by-Rising b x [] h r = (h, tt)
insert_by-Rising b x (u ∷ us) h r = elim (Bool-cases (leb x u)) [
  | inl e ↦ rw e (h, (ground arith, r.1))
  | inr e ↦ rw e (r.0, insert_by-Rising u x us (ground arith) r.1)
]

sort-Rising : (b : ℕ) (us : List ℕ) → All (λ u. b ≤ u) us → Rising b (sort_by number_le us)
unfolding sort_by
sort-Rising b [] h = tt
sort-Rising b (u ∷ us) h = insert_by-Rising b u (sort_by number_le us) h.0 (sort-Rising b us h.1)

module _ (column : Sandbox → Option ℕ) (node_id : String) (lo hi : ℕ) where
  used-All : (ss : List Sandbox) → All (λ u. lo ≤ u) (used column node_id lo hi ss)
  unfolding used
  used-All [] = tt
  used-All (s ∷ ss) = ground (arith, used-All ss)

  -- Within the bounds, the list holds what the rows hold.
  has-used :
      (v : ℕ) (ss : List Sandbox)
      → lo ≤ v
      → v ≤ hi
      → has v (used column node_id lo hi ss) ≡ any (holds column node_id v) ss
  unfolding used has any
  has-used v [] h k = refl
  has-used v (s ∷ ss) h k = ground (arith, has-used v ss h k)

has-below : (b v : ℕ) (us : List ℕ) → Rising b us → v < b → has v us ≡ false
unfolding has any
has-below b v [] r h = refl
has-below b v (u ∷ us) r h = ground (arith, has-below u v us r.1)

-- What the walk returns, from a state where all below `want` has been seen to be taken.
first_gap-some :
    (b want v : ℕ) (us : List ℕ)
    → b ≤ want
    → want ≤ suc b
    → Rising b us
    → first_gap want us ≡ some v
    → (want ≤ v) × (has v us ≡ false) × ((w : ℕ) → want ≤ w → w < v → has w us ≡ true)
unfolding first_gap has any
first_gap-some b want v [] h k r e = (ground arith, refl, λ w p q. ground arith)
first_gap-some b want v (u ∷ us) h k r e = elim (Bool-cases (ltb want u)) [
  | inl gap ↦
      let same_v : want ≡ v = ground arith in
      (omega arith, ground (arith, has-below u v us r.1), λ w p q. absurd (omega arith))
  | inr next ↦
      let small : u < u32_max = ground arith in
      let (least, free, taken) =
        first_gap-some u (suc u) v us (omega arith) (omega arith) r.1 (ground arith) in
      (ground arith, ground arith, λ w p q. ground (arith, taken w))
]

first_gap-none :
    (b want w : ℕ) (us : List ℕ)
    → b ≤ want
    → want ≤ suc b
    → Rising b us
    → first_gap want us ≡ none
    → want ≤ w
    → w ≤ u32_max
    → has w us ≡ true
unfolding first_gap has any
first_gap-none b want w [] h k r e p q = cc
first_gap-none b want w (u ∷ us) h k r e p q =
    ground (arith, first_gap-none u (suc u) w us (omega arith) (omega arith) r.1)

module _ (st : Store) (column : Sandbox → Option ℕ) (node_id : String) (lo hi : ℕ) where
  abbrev sorted : List ℕ
  sorted = sort_by number_le (used column node_id lo hi st.sandboxes)

  sorted-Rising : Rising lo sorted
  sorted-Rising = sort-Rising lo _ (used-All column node_id lo hi st.sandboxes)

  has-sorted : (v : ℕ) → lo ≤ v → v ≤ hi → has v sorted ≡ is_taken st column node_id v
  unfolding has
  has-sorted v h k =
      any-sort_by (λ u. u == v) number_le (used column node_id lo hi st.sandboxes)
      ∙ has-used column node_id lo hi v st.sandboxes h k

  -- A slot that is handed out lies in the range, no sandbox of the node holds it, and every lower
  -- slot of the range is held.
  pub allocate_slot_lowest :
      (v : ℕ)
      → allocate_slot st column node_id lo hi ≡ some v
      → (lo ≤ v)
        × (v ≤ hi)
        × (is_taken st column node_id v ≡ false)
        × ((w : ℕ) → lo ≤ w → w < v → is_taken st column node_id w ≡ true)
  unfolding allocate_slot
  allocate_slot_lowest v e =
      let (found, fits) = allocated (first_gap lo sorted) e in
      let (least, free, taken) =
        first_gap-some lo lo v sorted (omega arith) (omega arith) sorted-Rising found in
      (
        least,
        fits,
        (sym (has-sorted v least fits) ∙ free),
        λ w p q. sym (has-sorted w p (omega arith)) ∙ taken w p q,
      )
    where
      allocated : (o : Option ℕ) → up_to hi o ≡ some v → (o ≡ some v) × (v ≤ hi)
      allocated none h = cc
      allocated (some w) h = ground arith

  -- When the end of the range fits 32 bits, no slot is handed out only if sandboxes of the node hold every
  -- slot of the range.
  pub allocate_slot_exhausted :
      (w : ℕ)
      → hi ≤ u32_max
      → allocate_slot st column node_id lo hi ≡ none
      → lo ≤ w
      → w ≤ hi
      → is_taken st column node_id w ≡ true
  unfolding allocate_slot
  allocate_slot_exhausted w b e p q =
      sym (has-sorted w p q) ∙ go (Option-cases (first_gap lo sorted))
    where
      refused : (v : ℕ) → up_to hi (some v) ≡ none → hi < v
      refused v h = ground arith

      go :
          (first_gap lo sorted ≡ none) ⊎ ((v : ℕ) × (first_gap lo sorted ≡ some v))
          → has w sorted ≡ true
      go (inl n) =
          first_gap-none lo lo w sorted (omega arith) (omega arith) sorted-Rising n p (omega arith)
      go (inr (v, f)) =
          let over : hi < v = refused v (ap (up_to hi) (sym f) ∙ e) in
          (first_gap-some lo lo v sorted (omega arith) (omega arith) sorted-Rising f).2 w p
            (omega arith)
