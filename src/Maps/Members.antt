-- ===== src/Maps/Members.antt =====
-- The entries of an association list after an operation.
use forkd.Prelude.{
  ◌≡◌, ◌≢◌, refl, sym, ap, ◌∙◌, ◌⊎◌, inl, inr, String, not, none, some, List, [], ◌∷◌, Memᴰ, arith,
  same, same-cases, same_iff,
}
use mathlib.Core.Option.{some-injective}
use forkd.Prelude.{mem-retain, retain-mem}
use forkd.Maps.{get, put, remove}

module _ {ℓ} {A : Type ℓ} where
  pub get-mem : (k : String) (v : A) (m : List (String × A)) → get k m ≡ some v → Memᴰ (k, v) m
  unfolding get
  get-mem k v [] q = absurd (cc q)
  get-mem k v ((j, w) ∷ m) q = elim (same-cases j k) [
    | inl (e, p) ↦
        let h : w ≡ v = some-injective w v (rw (get, e) at q) in
        Memᴰ.head (ap (λ u. (k, u)) (sym h) ∙ ap (λ i. (i, w)) (sym p))
    | inr (e, n) ↦ Memᴰ.tail (get-mem k v m (rw (get, e) at q))
  ]

  pub mem-get-ne-none :
      (k : String) (v : A) (m : List (String × A)) → Memᴰ (k, v) m → get k m ≢ none
  unfolding get
  mem-get-ne-none k v [] h q = elim h [ ]
  mem-get-ne-none k v ((j, w) ∷ m) h q = elim (same-cases j k) [
    | inl (e, p) ↦ absurd (ground (arith, rw (get, e) at q))
    | inr (e, n) ↦ in_rest h n (λ t. mem-get-ne-none k v m t (rw (get, e) at q))
  ]
    where
      in_rest : Memᴰ (k, v) ((j, w) ∷ m) → j ≢ k → (Memᴰ (k, v) m → ⊥) → ⊥
      in_rest (Memᴰ.head i) n rest = n (sym (ap (λ t. t.0) i))
      in_rest (Memᴰ.tail t) n rest = rest t

  pub mem-put :
      (k j : String) (v w : A) (m : List (String × A))
      → Memᴰ (j, w) (put k v m)
      → ((j ≡ k) × (w ≡ v)) ⊎ ((j ≢ k) × Memᴰ (j, w) m)
  unfolding put remove
  mem-put k j v w m (Memᴰ.head i) = inl (ap (λ t. t.0) i, ap (λ t. t.1) i)
  mem-put k j v w m (Memᴰ.tail t) =
      let (h, n) = mem-retain (λ e. not (same e.0 k)) (j, w) m t in
      inr (λ p. ground (arith, same_iff j k), h)

  pub put-mem_self : (k : String) (v : A) (m : List (String × A)) → Memᴰ (k, v) (put k v m)
  unfolding put
  put-mem_self k v m = Memᴰ.head refl

  pub put-mem :
      (k j : String) (v w : A) (m : List (String × A))
      → j ≢ k
      → Memᴰ (j, w) m
      → Memᴰ (j, w) (put k v m)
  unfolding put remove
  put-mem k j v w m n h =
      Memᴰ.tail (retain-mem (λ e. not (same e.0 k)) (j, w) m h (ground (arith, same_iff j k)))
