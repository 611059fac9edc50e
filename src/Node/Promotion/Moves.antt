-- ===== src/Node/Promotion/Moves.antt =====
-- crates/sandstorm-core/src/node/mod.rs (`promote_reading`, `evict_one`): the steps that a promotion is
-- made of, as a relation between moments.
use forkd.Prelude.{
  ℕ, suc, zero, ◌+◌, ◌≤◌, ◌≡◌, ◌≢◌, refl, sym, ap, ◌∙◌, String, true, false, Option, none, some,
  List, [], ◌∷◌, arith, Bool-cases, Option-cases, Either-cases, same-cases, inl, inr, ◌⊎◌, ◌&&◌,
  any, same, same_iff, subst,
}
use forkd.Tier.{Tier, hot, frozen, snapshot, detached, tier_eq}
use forkd.Proto.{ObservedSandbox}
use forkd.Node.Admission.{holding_back_at}
use forkd.Node.Wakeups.{Demand, Wakeups, victims, put_away, may_go}
use forkd.Node.Wakeups.Victims.{any-victims}
use forkd.Node.Promotion.{
  Moment, Host, Promoted, Room, evict_loop, evict_one, promote_loop, promote, set_hot,
  pressure_poll, max_evictions, put_one_away, nothing_to_go, no_view, may_evict, may_wait, is_hot,
  to_hot, out_of_reach, brought_up, failed,
}
use forkd.Node.Promotion.Rounds.{Room-cases, may_evict-lt}

some_inj {ℓ} : {A : Type ℓ} {a b : A} → some a ≡ some b → a ≡ b
some_inj {a = a} p = ap (λ o. elim o [ none ↦ a | some x ↦ x ]) p

tier_eq-hot : (t : Tier) → tier_eq t hot ≡ true → t ≡ hot
tier_eq-hot hot e = refl
tier_eq-hot frozen e = ground arith
tier_eq-hot snapshot e = ground arith
tier_eq-hot detached e = ground arith

module _ {S D E : Type 0} (dem : Demand D) (h : Host S D E) where
  -- What may happen on behalf of `id` before it is brought up, besides putting a sandbox to disk.
  pub data Pass (id : String) : Moment S D → Moment S D → Type 0 where
    others : (m : Moment S D) → Pass id m (h.meanwhile m)
    wait : (m : Moment S D) → Pass id m (record m { host = h.sleep pressure_poll m.host })
    could_not :
        (m : Moment S D) (v : String)
        → id ≢ v
        → out_of_reach dem h m v ≡ false
        → Pass id m (record m { host = (h.change v snapshot m.host).0 })

  abbrev pub after_away : Moment S D → String → Moment S D
  after_away m v =
      let s = (h.change v snapshot m.host).0 in
      record { host = s; wake = put_away dem m.wake v (h.clock s) }

  -- Passes, with so many other sandboxes put to disk between them. Each could be, and none was in use.
  pub data Moves (id : String) : ℕ → Moment S D → Moment S D → Type 0 where
    done : (m : Moment S D) → Moves id 0 m m
    pass : {k : ℕ} {m n o : Moment S D} → Pass id m n → Moves id k n o → Moves id k m o
    away :
        {k : ℕ} {o : Moment S D} (m : Moment S D) (v : String)
        → id ≢ v
        → out_of_reach dem h m v ≡ false
        → (h.change v snapshot m.host).1 ≡ none
        → Moves id k (after_away m v) o
        → Moves id (suc k) m o

  abbrev spent : Room E → ℕ → ℕ
  spent put_one_away k = suc k
  spent nothing_to_go k = k
  spent (no_view e) k = k

  apart :
      (id v : String) (vs : List String)
      → any (same id) (v ∷ vs) ≡ false
      → (id ≢ v) × (any (same id) vs ≡ false)
  unfolding any
  apart id v vs e = elim (same-cases id v) [
    | inl (f, p) ↦ ground arith
    | inr (f, p) ↦ (p, ground arith)
  ]

  evict_loop-Moves :
      (id : String) (vs : List String) (m o : Moment S D) (k : ℕ)
      → any (same id) vs ≡ false
      → Moves id k (evict_loop dem h vs m).0 o
      → Moves id (spent (evict_loop dem h vs m).1 k) m o
  unfolding evict_loop
  evict_loop-Moves id [] m o k a = λ r. r
  evict_loop-Moves id (v ∷ vs) m o k a =
      let n = h.meanwhile m in
      let (other, others_of) = apart id v vs a in
      elim (Bool-cases (out_of_reach dem h n v)) [
        | inl e ↦
            rw (evict_loop, e) (λ r. pass (others m) (evict_loop-Moves id vs n o k others_of r))
        | inr e ↦ elim (Option-cases (h.change v snapshot n.host).1) [
          | inl f ↦ rw (evict_loop, e, f) (λ r. pass (others m) (away n v other e f r))
          | inr (x, f) ↦
              rw (evict_loop, e, f)
                (λ r. pass (others m) (
                  pass (could_not n v other e) (
                    evict_loop-Moves id vs (record n { host = (h.change v snapshot n.host).0 }) o k
                      others_of r)))
        ]
      ]

  except-apart :
      (w : Wakeups D) (seen : List ObservedSandbox) (id : String) (now : ℕ)
      → any (same id) (victims dem w seen id now) ≡ false
  unfolding any
  except-apart w seen id now = any-victims dem w seen id id now ∙ never seen
    where
      never :
          (os : List ObservedSandbox) → any (λ o. may_go dem w id now o && same id o.id) os ≡ false
      never [] = refl
      never (o ∷ os) = ground (arith, never os, same_iff o.id id, same_iff id o.id)

  evict_one-Moves :
      (id : String) (m o : Moment S D) (k : ℕ)
      → Moves id k (evict_one dem h id m).0 o
      → Moves id (spent (evict_one dem h id m).1 k) m o
  unfolding evict_one
  evict_one-Moves id m o k = elim (Either-cases (h.observe m.host)) [
    | inr (x, e) ↦ rw (evict_one, e) (λ r. r)
    | inl (seen, e) ↦
        rw (evict_one, e)
          (evict_loop-Moves id (victims dem m.wake seen id (h.clock m.host)) m o k
            (except-apart m.wake seen id (h.clock m.host)))
  ]

  -- How a promotion may end at a moment: the sandbox is brought up, which is only tried while the node has room for
  -- it, or nothing more is done and the sandbox was not brought up.
  abbrev pub Ends : ℕ → ℕ → String → Moment S D → Moment S D × Promoted E → Type 0
  Ends min_free max_psi id n r =
      ((r ≡ set_hot dem h id n)
        × (holding_back_at min_free max_psi (to_hot id) (h.reading n.host) ≡ none))
      ⊎ ((r.0 ≡ n) × (r.1 ≢ brought_up))

  abbrev Followed : ℕ → ℕ → String → ℕ → Moment S D → Moment S D × Promoted E → Type 0
  Followed min_free max_psi id evicted m r =
      (k : ℕ) × (n : Moment S D) × Moves id k m n
      × (evicted + k ≤ max_evictions)
      × Ends min_free max_psi id n r

  tried :
      (id : String) (m o : Moment S D) (k : ℕ) {x : Room E}
      → (evict_one dem h id m).1 ≡ x
      → Moves id k (evict_one dem h id m).0 o
      → Moves id (spent x k) m o
  tried id m o k e r = subst (λ x. Moves id (spent x k) m o) e (evict_one-Moves id m o k r)

  halted :
      (min_free max_psi : ℕ) (id : String) {n : Moment S D} {x : Promoted E}
      {r : Moment S D × Promoted E}
      → (n, x) ≡ r
      → x ≢ brought_up
      → Ends min_free max_psi id n r
  halted min_free max_psi id e f = inr (ap (λ p. p.0) (sym e), λ g. f (ap (λ p. p.1) e ∙ g))

  promote_loop-Followed :
      (rounds min_free max_psi deadline evicted : ℕ) (id : String) (m : Moment S D)
      (r : Moment S D × Promoted E)
      → evicted ≤ max_evictions
      → promote_loop dem h rounds min_free max_psi deadline evicted id m ≡ some r
      → Followed min_free max_psi id evicted m r
  unfolding promote_loop
  promote_loop-Followed zero min_free max_psi deadline evicted id m r b = λ q. absurd (ground arith)
  promote_loop-Followed (suc rounds) min_free max_psi deadline evicted id m r b =
      let n = h.meanwhile m in
      let reading = h.reading n.host in
      elim (Option-cases (holding_back_at min_free max_psi (to_hot id) reading)) [
        | inl e ↦
            rw (promote_loop, e)
              (λ q. (0, n, pass (others m) (done n), omega (arith, b), inl (sym (some_inj q), e)))
        | inr (why, e) ↦ elim (Bool-cases (may_evict min_free reading evicted)) [
          | inl f ↦ elim (Room-cases (evict_one dem h id n).1) [
            | inl g ↦
                rw (promote_loop, e, f, g)
                  (λ q.
                    let (k, z, ms, c, ends) =
                      promote_loop-Followed rounds min_free max_psi deadline (suc evicted) id
                        (evict_one dem h id n).0 r (may_evict-lt min_free reading evicted f) q in
                    (suc k, z, pass (others m) (tried id n z k g ms), omega (arith, c), ends))
            | inr (inl g) ↦
                rw (promote_loop, e, f, g)
                  (λ q. (
                    0,
                    (evict_one dem h id n).0,
                    pass (others m) (tried id n _ 0 g (done _)),
                    omega (arith, b),
                    halted min_free max_psi id (some_inj q) (λ z. ground arith),
                  ))
            | inr (inr (x, g)) ↦
                rw (promote_loop, e, f, g)
                  (λ q. (
                    0,
                    (evict_one dem h id n).0,
                    pass (others m) (tried id n _ 0 g (done _)),
                    omega (arith, b),
                    halted min_free max_psi id (some_inj q) (λ z. ground arith),
                  ))
          ]
          | inr f ↦ elim (Bool-cases (may_wait min_free reading (h.clock n.host) deadline)) [
            | inl g ↦
                rw (promote_loop, e, f, g)
                  (λ q.
                    let (k, z, ms, c, ends) =
                      promote_loop-Followed rounds min_free max_psi deadline evicted id
                        (record n { host = h.sleep pressure_poll n.host }) r b q in
                    (k, z, pass (others m) (pass (wait n) ms), c, ends))
            | inr g ↦
                rw (promote_loop, e, f, g)
                  (λ q. (
                    0,
                    n,
                    pass (others m) (done n),
                    omega (arith, b),
                    halted min_free max_psi id (some_inj q) (λ z. ground arith),
                  ))
          ]
        ]
      ]

  -- A sandbox whose tier is unknown is left as it is and the error answered, one that is Hot already is set so at once, and
  -- every other promotion is a run of passes in which at most four sandboxes are put to disk, each another one
  -- that was not in use then, and sets the sandbox Hot only where a reading of the host has room for it.
  pub promote_follows :
      (rounds min_free max_psi patience : ℕ) (id : String) (m : Moment S D)
      (r : Moment S D × Promoted E)
      → promote dem h rounds min_free max_psi patience id m ≡ some r
      → ((e : E) × (h.tier_of m.host id ≡ inr e) × (r ≡ (m, failed e)))
        ⊎ (((h.tier_of m.host id ≡ inl (some hot)) × (r ≡ set_hot dem h id m))
            ⊎ ((t : Option Tier) × (h.tier_of m.host id ≡ inl t)
                × (t ≢ some hot)
                × ((k : ℕ) × (n : Moment S D) × Moves id k m n
                    × (k ≤ max_evictions)
                    × Ends min_free max_psi id n r)))
  unfolding promote
  promote_follows rounds min_free max_psi patience id m r =
      elim (Either-cases (h.tier_of m.host id)) [
        | inr (x, e) ↦ rw (promote, e) (λ q. inl (x, refl, sym (some_inj q)))
        | inl (tier, e) ↦ elim (Bool-cases (is_hot dem h tier)) [
          | inl f ↦
              rw (promote, e, f) (λ q. inr (inl (ap inl (is_hot_only tier f), sym (some_inj q))))
          | inr f ↦
              rw (promote, e, f)
                (λ q.
                  let (k, n, ms, c, ends) =
                    promote_loop-Followed rounds min_free max_psi (h.clock m.host + patience) 0 id m
                      r (omega arith) q in
                  inr (inr (tier, refl, not_hot tier f, (k, n, ms, omega (arith, c), ends))))
        ]
      ]
    where
      is_hot_only : (t : Option Tier) → is_hot dem h t ≡ true → t ≡ some hot
      is_hot_only none f = absurd (ground arith)
      is_hot_only (some t) f = ap some (tier_eq-hot t f)

      not_hot : (t : Option Tier) → is_hot dem h t ≡ false → t ≢ some hot
      not_hot t f p = let g = sym (ap (is_hot dem h) p) ∙ f in ground (arith, g)
