-- ===== src/Master/Placement/Loop.antt =====
-- crates/sandstorm-core/src/master/api.rs: the loop of `pick_node_where`.
use mathlib.Core.Option.{some-injective}
use forkd.Prelude.{
  ℕ, ◌≤◌, ◌≡◌, ◌≢◌, refl, sym, ap, ◌∙◌, ◌⊎◌, inl, inr, String, Option, none, some, List, [], ◌∷◌,
  ◌++◌ as list_append, Memᴰ, arith, ltb, if◌then◌else◌, Option-cases, Bool-cases,
}
use forkd.Store.{Node}
use forkd.Master.{MasterState}
use forkd.Master.Placement.{Refusal, picked, load_of, passed_over, beats, pick_loop, pick_result}

pub pick_result-picked :
    (b : Option (Node × ℕ)) (rs : List (String × Refusal)) (n : Node)
    → pick_result (b, rs) ≡ picked n
    → (l : ℕ) × (b ≡ some (n, l))
unfolding pick_result
pick_result-picked none [] n e = cc
pick_result-picked none (r ∷ rs) n e = cc
pick_result-picked (some (x, k)) rs n e = (k, ground arith)

pub pick_result-other :
    (b : Option (Node × ℕ)) (rs : List (String × Refusal))
    → ((n : Node) → pick_result (b, rs) ≢ picked n)
    → b ≡ none
unfolding pick_result
pick_result-other none rs h = refl
pick_result-other (some (x, k)) rs h = absurd (h x refl)

module _ {V : Type 0} (st : MasterState V) (now : ℕ) (extra : List (String × ℕ)) (batch : ℕ) where
  abbrev pub load : Node → ℕ
  load = load_of st now extra batch

  abbrev pub passed : Node → Option Refusal
  passed = passed_over st now extra batch

  abbrev pub loop :
      List Node
      → Option (Node × ℕ)
      → List (String × Refusal)
      → Option (Node × ℕ) × List (String × Refusal)
  loop = pick_loop st now extra batch

  some≢none : {w : Refusal} → some w ≢ none
  some≢none e = cc

  nil-best :
      (best : Option (Node × ℕ)) (refused : List (String × Refusal))
      → best ≡ (loop [] best refused).0
  unfolding pick_loop
  nil-best best refused = refl

  -- What the loop has when it ends with a node: where it is from, and that nothing beats it.
  pub record IsBest (ns : List Node) (best : Option (Node × ℕ)) (n : Node) (l : ℕ) : Type 0 where
    pub origin : (best ≡ some (n, l)) ⊎ (Memᴰ n ns × (passed n ≡ none) × (l ≡ load n))
    pub least : (m : Node) → Memᴰ m ns → passed m ≡ none → l ≤ load m
    pub held : (b : Node × ℕ) → best ≡ some b → l ≤ b.1

  loop-over :
      (x : Node) (xs : List Node) (best : Option (Node × ℕ)) (refused : List (String × Refusal))
      (why : Refusal)
      → passed x ≡ some why
      → loop (x ∷ xs) best refused ≡ loop xs best (list_append refused ((x.id, why) ∷ []))
  unfolding pick_loop
  loop-over x xs best refused why p = rw (p, pick_loop) refl

  abbrev better : Node → Option (Node × ℕ) → Option (Node × ℕ)
  better x best = if beats (load x) best then some (x, load x) else best

  loop-taken :
      (x : Node) (xs : List Node) (best : Option (Node × ℕ)) (refused : List (String × Refusal))
      → passed x ≡ none
      → loop (x ∷ xs) best refused ≡ loop xs (better x best) refused
  unfolding pick_loop
  loop-taken x xs best refused p = rw (p, pick_loop) refl

  held-better :
      (x : Node) (best : Option (Node × ℕ)) (l : ℕ)
      → ((b : Node × ℕ) → better x best ≡ some b → l ≤ b.1)
      → (l ≤ load x) × ((b : Node × ℕ) → best ≡ some b → l ≤ b.1)
  held-better x none l h = (h (x, load x) refl, λ b e. cc)
  held-better x (some (y, k)) l h = elim (Bool-cases (ltb (load x) k)) [
    | inl e ↦ let le : l ≤ load x = h (x, load x) (rw e refl) in (le, λ b q. ground arith)
    | inr e ↦ let le : l ≤ k = h (y, k) (rw e refl) in (ground arith, λ b q. ground arith)
  ]

  origin-better :
      (x n : Node) (best : Option (Node × ℕ)) (l : ℕ)
      → better x best ≡ some (n, l)
      → (best ≡ some (n, l)) ⊎ ((n ≡ x) × (l ≡ load x))
  origin-better x n none l e = inr (ground arith)
  origin-better x n (some (y, k)) l e = elim (Bool-cases (ltb (load x) k)) [
    | inl b ↦
        let q : some (x, load x) ≡ some (n, l) = (rw b at e) in
        inr (
          sym (ap (λ (t : Node × ℕ). t.0) (some-injective _ _ q)),
          sym (ap (λ (t : Node × ℕ). t.1) (some-injective _ _ q)),
        )
    | inr b ↦ inl (rw b at e)
  ]

  pub loop-IsBest :
      (ns : List Node) (best : Option (Node × ℕ)) (refused : List (String × Refusal)) (n : Node)
      (l : ℕ)
      → (loop ns best refused).0 ≡ some (n, l)
      → IsBest ns best n l
  loop-IsBest [] best refused n l e = record {
    origin = inl (nil-best best refused ∙ e);
    least = λ m h. elim h [ ];
    held = λ b h. pair_le b (some-injective _ _ (sym h ∙ nil-best best refused ∙ e));
  }
    where
      pair_le : (b : Node × ℕ) → b ≡ (n, l) → l ≤ b.1
      pair_le b q = ground arith
  loop-IsBest (x ∷ xs) best refused n l e = elim (Option-cases (passed x)) [
    | inr (why, p) ↦ over why p (
        loop-IsBest xs best (list_append refused ((x.id, why) ∷ [])) n l (
          ap (λ (t : Option (Node × ℕ) × List (String × Refusal)). t.0)
            (sym (loop-over x xs best refused why p))
          ∙ e))
    | inl p ↦ taken p (
        loop-IsBest xs (better x best) refused n l (
          ap (λ (t : Option (Node × ℕ) × List (String × Refusal)). t.0)
            (sym (loop-taken x xs best refused p))
          ∙ e))
  ]
    where
      later :
          (b : Option (Node × ℕ))
          → (b ≡ some (n, l)) ⊎ (Memᴰ n xs × (passed n ≡ none) × (l ≡ load n))
          → (b ≡ some (n, l)) ⊎ (Memᴰ n (x ∷ xs) × (passed n ≡ none) × (l ≡ load n))
      later b (inl o) = inl o
      later b (inr (m, q, r)) = inr (Memᴰ.tail m, q, r)

      over : (why : Refusal) → passed x ≡ some why → IsBest xs best n l → IsBest (x ∷ xs) best n l
      over why p r = record { origin = later best r.origin; least = least'; held = r.held }
        where
          least' : (m : Node) → Memᴰ m (x ∷ xs) → passed m ≡ none → l ≤ load m
          least' m (Memᴰ.head i) q = absurd (some≢none (sym p ∙ ap passed (sym i) ∙ q))
          least' m (Memᴰ.tail t) q = r.least m t q

      taken : passed x ≡ none → IsBest xs (better x best) n l → IsBest (x ∷ xs) best n l
      taken p r = record {
        origin = from r.origin;
        least = least';
        held = (held-better x best l r.held).1;
      }
        where
          from :
              (better x best ≡ some (n, l)) ⊎ (Memᴰ n xs × (passed n ≡ none) × (l ≡ load n))
              → (best ≡ some (n, l)) ⊎ (Memᴰ n (x ∷ xs) × (passed n ≡ none) × (l ≡ load n))
          from (inr (m, q, v)) = inr (Memᴰ.tail m, q, v)
          from (inl o) = elim (origin-better x n best l o) [
            | inl b ↦ inl b
            | inr (i, v) ↦ inr (Memᴰ.head i, ap passed i ∙ p, v ∙ ap load (sym i))
          ]

          least' : (m : Node) → Memᴰ m (x ∷ xs) → passed m ≡ none → l ≤ load m
          least' m (Memᴰ.head i) q = rw i (held-better x best l r.held).0
          least' m (Memᴰ.tail t) q = r.least m t q

  -- Without a best node, the loop ends with none only if it has passed over all.
  pub loop-none :
      (ns : List Node) (best : Option (Node × ℕ)) (refused : List (String × Refusal))
      → (loop ns best refused).0 ≡ none
      → (best ≡ none) × ((m : Node) → Memᴰ m ns → passed m ≢ none)
  loop-none [] best refused e = (nil-best best refused ∙ e, λ m h. elim h [ ])
  loop-none (x ∷ xs) best refused e = elim (Option-cases (passed x)) [
    | inr (why, p) ↦ over why p (
        loop-none xs best (list_append refused ((x.id, why) ∷ [])) (
          ap (λ (t : Option (Node × ℕ) × List (String × Refusal)). t.0)
            (sym (loop-over x xs best refused why p))
          ∙ e))
    | inl p ↦ absurd (
        never best
          (loop-none xs (better x best) refused (
            ap (λ (t : Option (Node × ℕ) × List (String × Refusal)). t.0)
              (sym (loop-taken x xs best refused p))
            ∙ e)).0)
  ]
    where
      never : (b : Option (Node × ℕ)) → better x b ≢ none
      never b h = ground arith

      over :
          (why : Refusal)
          → passed x ≡ some why
          → (best ≡ none) × ((m : Node) → Memᴰ m xs → passed m ≢ none)
          → (best ≡ none) × ((m : Node) → Memᴰ m (x ∷ xs) → passed m ≢ none)
      over why p r = (r.0, all)
        where
          all : (m : Node) → Memᴰ m (x ∷ xs) → passed m ≢ none
          all m (Memᴰ.head i) q = some≢none (sym p ∙ ap passed (sym i) ∙ q)
          all m (Memᴰ.tail t) q = r.1 m t q
