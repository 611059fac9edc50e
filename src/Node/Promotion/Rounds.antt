-- ===== src/Node/Promotion/Rounds.antt =====
-- crates/sandstorm-core/src/node/mod.rs (`promote_reading`): how many rounds a promotion takes.
use forkd.Prelude.{
  ℕ, suc, zero, ◌+◌, ◌-◌, ◌*◌, ◌≤◌, ◌<◌, ◌≡◌, refl, String, true, some, List, [], ◌∷◌, arith,
  Bool-cases, Option-cases, Either-cases, inl, inr, ◌⊎◌,
}
use forkd.Tier.{Tier, snapshot}
use forkd.Node.Admission.{HostReading, holding_back_at}
use forkd.Node.Wakeups.{Demand, victims}
use forkd.Node.Promotion.{
  Moment, Host, Promoted, Room, evict_loop, evict_one, promote_loop, promote, pressure_poll,
  max_evictions, put_one_away, nothing_to_go, no_view, may_evict, may_wait, is_hot, to_hot,
  out_of_reach,
}

pub Room-cases :
    {E : Type 0} (r : Room E)
    → (r ≡ put_one_away) ⊎ ((r ≡ nothing_to_go) ⊎ ((e : E) × (r ≡ no_view e)))
Room-cases put_one_away = inl refl
Room-cases nothing_to_go = inr (inl refl)
Room-cases (no_view e) = inr (inr (e, refl))

pub may_evict-lt :
    (min_free : ℕ) (reading : HostReading) (evicted : ℕ)
    → may_evict min_free reading evicted ≡ true
    → evicted < max_evictions
unfolding may_evict
may_evict-lt min_free reading evicted e = ground arith

may_wait-lt :
    (min_free : ℕ) (reading : HostReading) (now deadline : ℕ)
    → may_wait min_free reading now deadline ≡ true
    → now < deadline
unfolding may_wait
may_wait-lt min_free reading now deadline e = ground arith

module _ {S D E : Type 0} (dem : Demand D) (h : Host S D E)
    (sleeps : (d : ℕ) (s : S) → h.clock s + d ≤ h.clock (h.sleep d s))
    (goes_on : (m : Moment S D) → h.clock m.host ≤ h.clock (h.meanwhile m).host)
    (takes : (id : String) (t : Tier) (s : S) → h.clock s ≤ h.clock (h.change id t s).0) where
  evict_loop-clock :
      (vs : List String) (m : Moment S D) → h.clock m.host ≤ h.clock (evict_loop dem h vs m).0.host
  unfolding evict_loop
  evict_loop-clock [] m = omega arith
  evict_loop-clock (v ∷ vs) m =
      let n = h.meanwhile m in
      elim (Bool-cases (out_of_reach dem h n v)) [
        | inl e ↦ rw (evict_loop, e) (omega (arith, goes_on m, evict_loop-clock vs n))
        | inr e ↦ elim (Option-cases (h.change v snapshot n.host).1) [
          | inl f ↦ rw (evict_loop, e, f) (omega (arith, goes_on m, takes v snapshot n.host))
          | inr (x, f) ↦
              rw (evict_loop, e, f)
                (omega (
                  arith,
                  goes_on m,
                  takes v snapshot n.host,
                  evict_loop-clock vs
                      (record { host = (h.change v snapshot n.host).0; wake = n.wake }),
                ))
        ]
      ]

  evict_one-clock :
      (id : String) (m : Moment S D) → h.clock m.host ≤ h.clock (evict_one dem h id m).0.host
  unfolding evict_one
  evict_one-clock id m = elim (Either-cases (h.observe m.host)) [
    | inr (x, e) ↦ rw (evict_one, e) (omega arith)
    | inl (seen, e) ↦
        rw (evict_one, e) (evict_loop-clock (victims dem m.wake seen id (h.clock m.host)) m)
  ]

  -- What is left: the time, and the evictions that may still follow, at one wait each.
  abbrev left : ℕ → ℕ → ℕ → ℕ
  left deadline now evicted = (deadline - now) + pressure_poll * (max_evictions - evicted)

  promote_loop-ends :
      (rounds min_free max_psi deadline evicted : ℕ) (id : String) (m : Moment S D)
      → left deadline (h.clock m.host) evicted + pressure_poll ≤ pressure_poll * rounds
      → (r : Moment S D × Promoted E) × (promote_loop dem h rounds min_free max_psi deadline evicted
            id m
          ≡ some r)
  unfolding promote_loop
  promote_loop-ends zero min_free max_psi deadline evicted id m b = absurd (omega arith)
  promote_loop-ends (suc rounds) min_free max_psi deadline evicted id m b =
      let n = h.meanwhile m in
      let reading = h.reading n.host in
      elim (Option-cases (holding_back_at min_free max_psi (to_hot id) reading)) [
        | inl e ↦ rw (promote_loop, e) (_, refl)
        | inr (why, e) ↦ elim (Bool-cases (may_evict min_free reading evicted)) [
          | inl f ↦ elim (Room-cases (evict_one dem h id n).1) [
            | inl g ↦
                let (r, p) =
                  promote_loop-ends rounds min_free max_psi deadline (suc evicted) id
                    (evict_one dem h id n).0
                    (omega (
                      arith,
                      b,
                      goes_on m,
                      evict_one-clock id n,
                      may_evict-lt min_free reading evicted f,
                    )) in
                (r, rw (promote_loop, e, f, g) p)
            | inr (inl g) ↦ rw (promote_loop, e, f, g) (_, refl)
            | inr (inr (x, g)) ↦ rw (promote_loop, e, f, g) (_, refl)
          ]
          | inr f ↦ elim (Bool-cases (may_wait min_free reading (h.clock n.host) deadline)) [
            | inl g ↦
                let (r, p) =
                  promote_loop-ends rounds min_free max_psi deadline evicted id
                    (record { host = h.sleep pressure_poll n.host; wake = n.wake })
                    (omega (
                      arith,
                      b,
                      goes_on m,
                      sleeps pressure_poll n.host,
                      may_wait-lt min_free reading (h.clock n.host) deadline g,
                    )) in
                (r, rw (promote_loop, e, f, g) p)
            | inr g ↦ rw (promote_loop, e, f, g) (_, refl)
          ]
        ]
      ]

  -- While the clock does not run back and a wait lasts as long as it says, a promotion ends: four rounds that
  -- put a sandbox away, one for each quarter of a second of patience, and one more, are always enough.
  pub promote_ends :
      (rounds min_free max_psi patience : ℕ) (id : String) (m : Moment S D)
      → patience + pressure_poll * (max_evictions + 1) ≤ pressure_poll * rounds
      → (r : Moment S D × Promoted E) × (promote dem h rounds min_free max_psi patience id m
          ≡ some r)
  unfolding promote
  promote_ends rounds min_free max_psi patience id m b = elim (Either-cases (h.tier_of m.host id)) [
    | inr (x, e) ↦ rw (promote, e) (_, refl)
    | inl (tier, e) ↦ elim (Bool-cases (is_hot dem h tier)) [
      | inl f ↦ rw (promote, e, f) (_, refl)
      | inr f ↦
          rw (promote, e, f)
            (promote_loop-ends rounds min_free max_psi (h.clock m.host + patience) 0 id m
              (omega (arith, b)))
    ]
  ]
