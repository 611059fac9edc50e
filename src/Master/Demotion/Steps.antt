-- ===== src/Master/Demotion/Steps.antt =====
-- crates/sandstorm-core/src/master/demote.rs: laws of `sweep`.
use mathlib.Core.Option.{some-injective}
use forkd.Prelude.{
  ℕ, ◌+◌, ◌-◌, ◌≡◌, ◌≤◌, refl, sym, ap, ◌∙◌, ◌⊎◌, inl, inr, String, false, Option, none, some, List,
  [], ◌∷◌, map, Memᴰ, arith, same, same_refl, same_iff, same-cases, find, any, mem-retain,
  mem-sort_by, Option-cases,
}
use forkd.Tier.{IdlePolicy, Tier, detached, rank, colder, tier_eq, tier_for_idle}
use forkd.Store.{Sandbox, Store}
use forkd.Store.Sandboxes.{get_sandbox, has_id, idle_candidates, set_tier}
use forkd.Store.Sandboxes.Laws.{IsKeyed, get-set_tier, get-id}
use forkd.Master.{MasterState, wake_node}
use forkd.Master.Demotion.{next_tier, sweep, sweep_loop, wake_all}

-- A candidate of this id asks for this tier.
abbrev pub Asked : IdlePolicy → List (Sandbox × ℕ) → String → Tier → Type 0
Asked idle cs j t = (c : Sandbox × ℕ) × Memᴰ c cs × (c.0.id ≡ j) × (next_tier idle c.0 c.1 ≡ some t)

-- How the loop may leave a sandbox.
abbrev pub Swept : IdlePolicy → List (Sandbox × ℕ) → Sandbox → Sandbox → Type 0
Swept idle cs s s' = (s' ≡ s) ⊎ ((t : Tier) × Asked idle cs s.id t × (s' ≡ record s { tier = t }))

Swept-later :
    (idle : IdlePolicy) (c : Sandbox × ℕ) (cs : List (Sandbox × ℕ)) (s s' : Sandbox)
    → Swept idle cs s s'
    → Swept idle (c ∷ cs) s s'
Swept-later idle c cs s s' (inl e) = inl e
Swept-later idle c cs s s' (inr (t, (d, m, i, n), e)) = inr (t, (d, Memᴰ.tail m, i, n), e)

-- What a candidate of the sandbox does, before the rest of the loop.
Swept-first :
    (idle : IdlePolicy) (c : Sandbox × ℕ) (cs : List (Sandbox × ℕ)) (s s' : Sandbox) (t : Tier)
    → c.0.id ≡ s.id
    → next_tier idle c.0 c.1 ≡ some t
    → Swept idle cs (record s { tier = t }) s'
    → Swept idle (c ∷ cs) s s'
Swept-first idle c cs s s' t i n (inl e) = inr (t, (c, Memᴰ.head refl, i, n), e)
Swept-first idle c cs s s' t i n (inr (u, (d, m, k, o), e)) = inr (u, (d, Memᴰ.tail m, k, o), e)

pub sweep_loop-Swept :
    (idle : IdlePolicy) (cs : List (Sandbox × ℕ)) (st : Store) (j : String) (s : Sandbox)
    → get_sandbox st j ≡ some s
    → (s' : Sandbox) × (get_sandbox (sweep_loop idle cs st).0 j ≡ some s') × Swept idle cs s s'
unfolding sweep_loop
sweep_loop-Swept idle [] st j s h = (s, h, inl refl)
sweep_loop-Swept idle (c ∷ cs) st j s h = elim (Option-cases (next_tier idle c.0 c.1)) [
  | inl e ↦
      let (s', g, w) = sweep_loop-Swept idle cs st j s h in
      (s', rw (sweep_loop, e) g, Swept-later idle c cs s s' w)
  | inr (t, e) ↦ elim (same-cases c.0.id j) [
    | inr (ne, _) ↦
        let (s', g, w) =
          sweep_loop-Swept idle cs (set_tier st c.0.id t) j s
            (get-set_tier st c.0.id j t ∙ rw ne h) in
        (s', rw (sweep_loop, e) g, Swept-later idle c cs s s' w)
    | inl (eq, i) ↦
        let r : Sandbox = record s { tier = t } in
        let (s', g, w) =
          sweep_loop-Swept idle cs (set_tier st c.0.id t) j r
            (get-set_tier st c.0.id j t ∙ rw (eq, h) refl) in
        (s', rw (sweep_loop, e) g, Swept-first idle c cs s s' t (i ∙ sym (get-id st j s h)) e w)
  ]
]

mem-map :
    {A B : Type 0} (f : A → B) (y : B) (xs : List A)
    → Memᴰ y (map f xs)
    → (x : A) × Memᴰ x xs × (y ≡ f x)
mem-map f y [] m = elim m [ ]
mem-map f y (x ∷ xs) (Memᴰ.head e) = (x, Memᴰ.head refl, e)
mem-map f y (x ∷ xs) (Memᴰ.tail m) = let (z, n, e) = mem-map f y xs m in (z, Memᴰ.tail n, e)

-- A row that is there is the one of its id.
find-mem :
    (x : Sandbox) (ss : List Sandbox) → IsKeyed ss → Memᴰ x ss → find (has_id x.id) ss ≡ some x
unfolding find any
find-mem x [] k m = elim m [ ]
find-mem x (s ∷ ss) k (Memᴰ.head e) = rw e ground (arith, same_refl s.id)
find-mem x (s ∷ ss) k (Memᴰ.tail m) =
    ground (arith, find-mem x ss k.1 m, same_iff s.id x.id, any-mem x s.id ss m)
  where
    any-mem :
        (y : Sandbox) (i : String) (rs : List Sandbox)
        → Memᴰ y rs
        → any (has_id i) rs ≡ false
        → same y.id i ≡ false
    any-mem y i [] m h = elim m [ ]
    any-mem y i (r ∷ rs) (Memᴰ.head e) h = rw e ground arith
    any-mem y i (r ∷ rs) (Memᴰ.tail m) h = any-mem y i rs m (ground arith)

-- What a candidate is: the row of its id, idle for long enough and not detached.
pub candidate :
    (st : Store) (floor cutoff_now now : ℕ) (c : Sandbox × ℕ) (j : String) (s : Sandbox)
    → IsKeyed st.sandboxes
    → get_sandbox st j ≡ some s
    → Memᴰ c (idle_candidates st floor cutoff_now now)
    → c.0.id ≡ j
    → (c ≡ (s, now - s.last_active_at))
      × (s.last_active_at + floor ≤ cutoff_now)
      × (tier_eq s.tier detached ≡ false)
unfolding idle_candidates get_sandbox
candidate st floor cutoff_now now c j s k h m i =
    let (x, mx, e) = mem-map (λ r. (r, now - r.last_active_at)) c _ m in
    let (here, cond) = mem-retain _ x st.sandboxes (mem-sort_by _ x _ mx) in
    let at : x.id ≡ j = sym (ap (λ (d : Sandbox × ℕ). d.0.id) e) ∙ i in
    let found : find (has_id j) st.sandboxes ≡ some x =
      ap (λ n. find (has_id n) st.sandboxes) (sym at) ∙ find-mem x st.sandboxes k here in
    let is_s : x ≡ s = some-injective x s (sym found ∙ h) in
    (
      e ∙ ap (λ (r : Sandbox). (r, now - r.last_active_at)) is_s,
      rw (← is_s) ground (arith, cond),
      rw (← is_s) ground (arith, cond),
    )

pub wake_all-store :
    {V : Type 0} (ns : List String) (st : MasterState V) → (wake_all ns st).store ≡ st.store
unfolding wake_all wake_node
wake_all-store [] st = refl
wake_all-store (n ∷ ns) st = wake_all-store ns (wake_node st n)

-- What `next_tier` asks for.
next_tier-some :
    (idle : IdlePolicy) (s : Sandbox) (secs : ℕ) (t : Tier)
    → next_tier idle s secs ≡ some t
    → (colder s.tier ≡ some t) × (rank t ≤ rank (tier_for_idle idle secs))
unfolding next_tier
next_tier-some idle s secs t h = go (colder s.tier) refl
  where
    go :
        (o : Option Tier)
        → colder s.tier ≡ o
        → (colder s.tier ≡ some t) × (rank t ≤ rank (tier_for_idle idle secs))
    go none e = absurd (ground (arith, e, h))
    go (some n) e = ground (arith, e, h)

-- With ids that are unique, a sweep leaves every sandbox as it was, or moves it to the next colder tier:
-- then the sandbox was not detached, had been idle for the policy's first threshold, and the policy
-- asks for that tier or a colder one at its idle time.
pub sweep_one_step :
    {V : Type 0} (st : MasterState V) (cutoff_now now : ℕ) (j : String) (s : Sandbox)
    → IsKeyed st.store.sandboxes
    → get_sandbox st.store j ≡ some s
    → (s' : Sandbox) × (get_sandbox (sweep st cutoff_now now).store j ≡ some s')
      × ((s' ≡ s)
          ⊎ ((t : Tier) × (s' ≡ record s { tier = t })
              × (colder s.tier ≡ some t)
              × (s.last_active_at + st.idle.to_frozen ≤ cutoff_now)
              × (rank t ≤ rank (tier_for_idle st.idle (now - s.last_active_at)))))
unfolding sweep
sweep_one_step st cutoff_now now j s k h =
    let cs : List (Sandbox × ℕ) = idle_candidates st.store st.idle.to_frozen cutoff_now now in
    let (s', g, w) = sweep_loop-Swept st.idle cs st.store j s h in
    (s', ap (λ (t : Store). get_sandbox t j) (wake_all-store _ _) ∙ g, go s' w)
  where
    go :
        (s' : Sandbox)
        → Swept st.idle (idle_candidates st.store st.idle.to_frozen cutoff_now now) s s'
        → (s' ≡ s)
          ⊎ ((t : Tier) × (s' ≡ record s { tier = t })
              × (colder s.tier ≡ some t)
              × (s.last_active_at + st.idle.to_frozen ≤ cutoff_now)
              × (rank t ≤ rank (tier_for_idle st.idle (now - s.last_active_at))))
    go s' (inl e) = inl e
    go s' (inr (t, (c, m, i, n), e)) =
        let (is_c, old, _) =
          candidate st.store st.idle.to_frozen cutoff_now now c j s k h m
            (i ∙ get-id st.store j s h) in
        let (step, far) =
          next_tier-some st.idle s (now - s.last_active_at) t
            (ap (λ (d : Sandbox × ℕ). next_tier st.idle d.0 d.1) (sym is_c) ∙ n) in
        inr (t, e, step, old, far)
