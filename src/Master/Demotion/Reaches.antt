-- ===== src/Master/Demotion/Reaches.antt =====
-- crates/sandstorm-core/src/master/demote.rs: what sweeps come to, one after the other.
use forkd.Prelude.{
  ℕ, suc, ◌+◌, ◌-◌, ◌≡◌, ◌≤◌, ◌<◌, refl, sym, ap, ◌∙◌, inl, inr, String, Bool, true, false, find,
  Bool-cases, some, List, [], ◌∷◌, ◌&&◌, not, map, Memᴰ, arith, same-cases, same_refl, any,
  update_where, retain-mem, sort_by-mem, Option-cases,
}
use mathlib.Core.Option.{some-injective}
use forkd.Tier.{
  IdlePolicy, Tier, hot, frozen, snapshot, detached, at_least, rank, colder, tier_eq, tier_for_idle,
}
use forkd.Tier.Laws.{IsOrdered}
use forkd.Store.{Sandbox, Store}
use forkd.Store.Sandboxes.{get_sandbox, has_id, idle_candidates, set_tier, update_sandbox}
use forkd.Store.Sandboxes.Laws.{IsKeyed, get-set_tier, get-id}
use forkd.Master.Demotion.{next_tier, sweep_loop}
use forkd.Master.Demotion.Steps.{Swept, sweep_loop-Swept}

-- Every candidate of this id asks for this tier.
abbrev pub AllAsk : IdlePolicy → List (Sandbox × ℕ) → String → Tier → Type 0
AllAsk idle cs j t = (c : Sandbox × ℕ) → Memᴰ c cs → c.0.id ≡ j → next_tier idle c.0 c.1 ≡ some t

pub sweep_loop-moved :
    (idle : IdlePolicy) (cs : List (Sandbox × ℕ)) (st : Store) (j : String) (s : Sandbox) (t : Tier)
    → get_sandbox st j ≡ some s
    → AllAsk idle cs j t
    → (c : Sandbox × ℕ) → Memᴰ c cs
    → c.0.id ≡ j
    → get_sandbox (sweep_loop idle cs st).0 j ≡ some (record s { tier = t })
unfolding sweep_loop
sweep_loop-moved idle [] st j s t h all c m i = elim m [ ]
sweep_loop-moved idle (d ∷ ds) st j s t h all c (Memᴰ.head e) i =
    let at : d.0.id ≡ j = ap (λ (x : Sandbox × ℕ). x.0.id) (sym e) ∙ i in
    let asks = all d (Memᴰ.head refl) at in
    let r : Sandbox = record s { tier = t } in
    let here : get_sandbox (set_tier st d.0.id t) j ≡ some r =
      rw at (get-set_tier st j j t ∙ rw (same_refl j, h) refl) in
    let (s', g, w) = sweep_loop-Swept idle ds (set_tier st d.0.id t) j r here in
    rw (sweep_loop, asks) (g ∙ ap some (stays s' w))
  where
    stays : (s' : Sandbox) → Swept idle ds (record s { tier = t }) s' → s' ≡ record s { tier = t }
    stays s' (inl e) = e
    stays s' (inr (u, (x, n, k, a), e)) =
        let same_tier : u ≡ t =
          some-injective u t (sym a ∙ all x (Memᴰ.tail n) (k ∙ get-id st j s h)) in
        e ∙ ap (λ v. record s { tier = v }) same_tier
sweep_loop-moved idle (d ∷ ds) st j s t h all c (Memᴰ.tail m) i =
    let later : AllAsk idle ds j t = λ x n k. all x (Memᴰ.tail n) k in
    elim (Option-cases (next_tier idle d.0 d.1)) [
      | inl e ↦ rw (sweep_loop, e) (sweep_loop-moved idle ds st j s t h later c m i)
      | inr (u, e) ↦ elim (same-cases d.0.id j) [
        | inr (ne, _) ↦
            rw (sweep_loop, e)
              (sweep_loop-moved idle ds (set_tier st d.0.id u) j s t
                (get-set_tier st d.0.id j u ∙ rw ne h) later c m i)
        | inl (eq, _) ↦
            rw (sweep_loop, e)
              (sweep_loop-moved idle ds (set_tier st d.0.id u) j (record s { tier = u }) t
                (get-set_tier st d.0.id j u ∙ rw (eq, h) refl) later c m i)
      ]
    ]

mem-map : {A B : Type 0} (f : A → B) (x : A) (xs : List A) → Memᴰ x xs → Memᴰ (f x) (map f xs)
mem-map f x [] m = elim m [ ]
mem-map f x (y ∷ ys) (Memᴰ.head e) = Memᴰ.head (ap f e)
mem-map f x (y ∷ ys) (Memᴰ.tail m) = Memᴰ.tail (mem-map f x ys m)

find-mem : (p : Sandbox → Bool) (s : Sandbox) (ss : List Sandbox) → find p ss ≡ some s → Memᴰ s ss
unfolding find
find-mem p s [] h = absurd (ground arith)
find-mem p s (x ∷ xs) h = elim (Bool-cases (p x)) [
  | inl e ↦ Memᴰ.head (sym (some-injective x s (rw e at h)))
  | inr e ↦ Memᴰ.tail (find-mem p s xs (rw e at h))
]

-- A sandbox that has been idle for the first threshold is a candidate, unless it is detached.
pub idle-candidate :
    (st : Store) (floor now : ℕ) (j : String) (s : Sandbox)
    → get_sandbox st j ≡ some s
    → s.last_active_at + floor ≤ now
    → tier_eq s.tier detached ≡ false
    → Memᴰ (s, now - s.last_active_at) (idle_candidates st floor now now)
unfolding idle_candidates get_sandbox
idle-candidate st floor now j s h old up =
    mem-map (λ (r : Sandbox). (r, now - r.last_active_at)) s _
      (sort_by-mem _ s _ (
        retain-mem _ s st.sandboxes (find-mem (has_id j) s st.sandboxes h)
          (ground (arith, old, up))))

-- The next tier after one that is warmer than another is at most that.
advance :
    (u w : Tier)
    → rank u < rank w
    → (t : Tier) × (colder u ≡ some t)
      × (rank t ≡ suc (rank u))
      × ((at_least w t && not (tier_eq u w)) ≡ true)
unfolding colder
advance hot frozen h = (frozen, refl, refl, refl)
advance hot snapshot h = (frozen, refl, refl, refl)
advance hot detached h = (frozen, refl, refl, refl)
advance hot hot h = absurd (omega arith)
advance frozen snapshot h = (snapshot, refl, refl, refl)
advance frozen detached h = (snapshot, refl, refl, refl)
advance frozen hot h = absurd (omega arith)
advance frozen frozen h = absurd (omega arith)
advance snapshot detached h = (detached, refl, refl, refl)
advance snapshot hot h = absurd (omega arith)
advance snapshot frozen h = absurd (omega arith)
advance snapshot snapshot h = absurd (omega arith)
advance detached hot h = absurd (omega arith)
advance detached frozen h = absurd (omega arith)
advance detached snapshot h = absurd (omega arith)
advance detached detached h = absurd (omega arith)

-- What the policy asks of a sandbox that is warmer than it may be.
pub next_tier-due :
    (idle : IdlePolicy) (s : Sandbox) (secs : ℕ)
    → rank s.tier < rank (tier_for_idle idle secs)
    → (t : Tier) × (next_tier idle s secs ≡ some t) × (rank t ≡ suc (rank s.tier))
unfolding next_tier
next_tier-due idle s secs h =
    let (t, c, r, b) = advance s.tier (tier_for_idle idle secs) h in
    (t, rw (next_tier, c, b) refl, r)

-- A sandbox that the policy does not leave hot has been idle for the first threshold.
pub idle-due :
    (idle : IdlePolicy) (secs : ℕ)
    → IsOrdered idle
    → 0 < rank (tier_for_idle idle secs)
    → idle.to_frozen ≤ secs
unfolding tier_for_idle
idle-due idle secs o h = ground arith

any-update_where :
    (p : Sandbox → Bool) (q : Sandbox → Bool) (f : Sandbox → Sandbox) (ss : List Sandbox)
    → ((s : Sandbox) → q (f s) ≡ q s)
    → any q (update_where p f ss) ≡ any q ss
unfolding any update_where
any-update_where p q f [] h = refl
any-update_where p q f (s ∷ ss) h = elim (Bool-cases (p s)) [
  | inl e ↦ rw (e, h s, any-update_where p q f ss h) refl
  | inr e ↦ rw (e, any-update_where p q f ss h) refl
]

update_where-IsKeyed :
    (p : Sandbox → Bool) (t : Tier) (ss : List Sandbox)
    → IsKeyed ss
    → IsKeyed (update_where p (λ (s : Sandbox). record s { tier = t }) ss)
unfolding update_where
update_where-IsKeyed p t [] k = tt
update_where-IsKeyed p t (s ∷ ss) k =
    let ids =
      any-update_where p (has_id s.id) (λ (r : Sandbox). record r { tier = t }) ss (λ r. refl) in
    elim (Bool-cases (p s)) [
      | inl e ↦ rw e (ids ∙ k.0, update_where-IsKeyed p t ss k.1)
      | inr e ↦ rw e (ids ∙ k.0, update_where-IsKeyed p t ss k.1)
    ]

pub sweep_loop-IsKeyed :
    (idle : IdlePolicy) (cs : List (Sandbox × ℕ)) (st : Store)
    → IsKeyed st.sandboxes
    → IsKeyed (sweep_loop idle cs st).0.sandboxes
unfolding sweep_loop set_tier update_sandbox
sweep_loop-IsKeyed idle [] st k = k
sweep_loop-IsKeyed idle (c ∷ cs) st k = elim (Option-cases (next_tier idle c.0 c.1)) [
  | inl e ↦ rw (sweep_loop, e) (sweep_loop-IsKeyed idle cs st k)
  | inr (t, e) ↦
      rw (sweep_loop, e)
        (sweep_loop-IsKeyed idle cs (set_tier st c.0.id t)
          (update_where-IsKeyed (has_id c.0.id) t st.sandboxes k))
]
