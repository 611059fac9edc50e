-- ===== src/Node/Wakeups/Victims.antt =====
-- crates/sandstorm-core/src/node/wake.rs (`victims`): which sandboxes may be put to disk, and in what order.
use forkd.Prelude.{
  any-mem, mem-any, ltb, ◌||◌, ◌≢◌, ◌↔◌, ◌⊎◌, inl, inr, refl, sym, ap, Option, none, some, Memᴰ,
  same_iff, same-cases, ◌-◌, ℕ, ◌≡◌, ◌∙◌, String, Bool, true, false, ◌&&◌, List, arith, any, same,
  if◌then◌else◌, ◌≤◌, any-map, any-retain, any-sort_by, Rising, sort_by-Rising, map, retain,
}
use forkd.Proto.{ObservedSandbox}
use forkd.Tier.{Tier, hot, frozen, snapshot, detached, tier_eq}
use forkd.Maps.{get}
use forkd.Node.Wakeups.{
  protected, just_started, younger, or_zero, Demand, Wakeups, Ranked, ranked_le, rank_of, ranked,
  victims, may_go,
}

abbrev pub hotness : {D : Type 0} → Ranked D → ℕ
hotness r = if r.is_hot then 1 else 0

module _ {D : Type 0} (dem : Demand D) where
  le-up : (a b : Ranked D) → ranked_le dem a b ≡ true → hotness a ≤ hotness b
  unfolding ranked_le
  le-up a b h = ground arith

  le-down : (a b : Ranked D) → ranked_le dem a b ≡ false → hotness b ≤ hotness a
  unfolding ranked_le
  le-down a b h = ground arith

  any-ranked :
      (p : Ranked D → Bool) (w : Wakeups D) (observed : List ObservedSandbox) (except : String)
      (now : ℕ)
      → any p (ranked dem w observed except now)
        ≡ any (λ o. may_go dem w except now o && p (rank_of dem w now o)) observed
  unfolding ranked
  any-ranked p w observed except now =
      any-sort_by p (ranked_le dem) _
      ∙ any-map p (rank_of dem w now) _
      ∙ any-retain (λ o. p (rank_of dem w now o)) (may_go dem w except now) observed

  pub any-victims :
      (w : Wakeups D) (observed : List ObservedSandbox) (except id : String) (now : ℕ)
      → any (same id) (victims dem w observed except now)
        ≡ any (λ o. may_go dem w except now o && same id o.id) observed
  unfolding victims
  any-victims w observed except id now =
      any-map (same id) (λ r. r.id) _ ∙ any-ranked (λ r. same id r.id) w observed except now

  -- A sandbox that was seen hot or frozen, is not the one to make room for, has no request in flight, and was not brought
  -- up in the last two seconds.
  pub record IsSpare (w : Wakeups D) (except : String) (now : ℕ) (o : ObservedSandbox)
      : Type 0 where
    pub another : o.id ≢ except
    pub in_memory : (o.tier ≡ hot) ⊎ (o.tier ≡ frozen)
    pub idle : (get o.id w.in_flight ≡ none) ⊎ (get o.id w.in_flight ≡ some 0)
    pub settled :
        (get o.id w.fresh ≡ none)
        ⊎ ((at : ℕ) × (get o.id w.fresh ≡ some at) × (2000000000 ≤ now - at))

  to-IsSpare :
      (w : Wakeups D) (except : String) (now : ℕ) (o : ObservedSandbox)
      → may_go dem w except now o ≡ true
      → IsSpare w except now o
  unfolding protected
  to-IsSpare w except now o h = record {
    another = λ p. ground (arith, same_iff o.id except);
    in_memory = tiers o.tier (ground arith);
    idle = flights (get o.id w.in_flight) (ground arith);
    settled = ages (get o.id w.fresh) (ground arith);
  }
    where
      tiers : (t : Tier) → (tier_eq t hot || tier_eq t frozen) ≡ true → (t ≡ hot) ⊎ (t ≡ frozen)
      tiers hot e = inl refl
      tiers frozen e = inr refl
      tiers snapshot e = cc
      tiers detached e = cc

      flights : (n : Option ℕ) → ltb 0 (or_zero n) ≡ false → (n ≡ none) ⊎ (n ≡ some 0)
      flights none e = inl refl
      flights (some n) e = inr (ap some (ground arith))

      ages :
          (f : Option ℕ)
          → younger just_started f now ≡ false
          → (f ≡ none) ⊎ ((at : ℕ) × (f ≡ some at) × (2000000000 ≤ now - at))
      ages none e = inl refl
      ages (some at) e = inr (at, refl, ground arith)

  from-IsSpare :
      (w : Wakeups D) (except : String) (now : ℕ) (o : ObservedSandbox)
      → IsSpare w except now o
      → may_go dem w except now o ≡ true
  unfolding protected
  from-IsSpare w except now o h =
      let a : same o.id except ≡ false = elim (same-cases o.id except) [
        | inl (e, p) ↦ absurd (h.another p)
        | inr (e, p) ↦ e
      ] in
      let b : (tier_eq o.tier hot || tier_eq o.tier frozen) ≡ true = elim h.in_memory [
        | inl e ↦ rw e refl
        | inr e ↦ rw e refl
      ] in
      let c : ltb 0 (or_zero (get o.id w.in_flight)) ≡ false = elim h.idle [
        | inl e ↦ rw e refl
        | inr e ↦ rw e refl
      ] in
      let d : younger just_started (get o.id w.fresh) now ≡ false = elim h.settled [
        | inl e ↦ rw e refl
        | inr (at, e, k) ↦ rw e (ground (arith, k))
      ] in
      rw (a, b, c, d) refl

  -- The candidates are exactly the sandboxes that may be spared: seen hot or frozen, not the one to make room for, with no
  -- request in flight and not brought up in the last two seconds; and no hot one comes before a frozen one.
  pub victims_exactly :
      (w : Wakeups D) (observed : List ObservedSandbox) (except id : String) (now : ℕ)
      → ((any (same id) (victims dem w observed except now) ≡ true)
          ↔ ((o : ObservedSandbox) × Memᴰ o observed × (o.id ≡ id) × IsSpare w except now o))
        × Rising hotness 0 (ranked dem w observed except now)
  unfolding ranked
  victims_exactly w observed except id now = (
    (
      λ h.
          let (o, m, e) = any-mem _ observed (sym (any-victims w observed except id now) ∙ h) in
          (
            o,
            m,
            sym ((same_iff id o.id).0 (ground arith)),
            to-IsSpare w except now o (ground arith),
          ),
      λ (o, m, p, spare).
          any-victims w observed except id now
          ∙ mem-any _ o observed m
              (rw (from-IsSpare w except now o spare, (same_iff id o.id).1 (sym p)) refl),
    ),
    sort_by-Rising (ranked_le dem) hotness le-up le-down
        (map (rank_of dem w now) (retain (may_go dem w except now) observed)),
  )
