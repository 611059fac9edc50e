-- ===== src/Master/Demotion/Settles.antt =====
-- crates/sandstorm-core/src/master/demote.rs: a sandbox that is left alone, over several sweeps.
use forkd.Prelude.{
  ℕ, suc, ◌+◌, ◌-◌, ◌≡◌, ◌≤◌, ◌<◌, refl, sym, ap, subst, ◌∙◌, inl, inr, String, false, some, List,
  [], ◌∷◌, All, length, ltb, ltb→lt, arith, Bool-cases,
}
use forkd.Tier.{
  IdlePolicy, Tier, hot, frozen, snapshot, detached, rank, colder, tier_eq, tier_for_idle,
}
use forkd.Tier.Laws.{IsOrdered, tier_for_idle_mono}
use forkd.Store.{Sandbox, Store}
use forkd.Store.Sandboxes.{get_sandbox, idle_candidates}
use forkd.Store.Sandboxes.Laws.{IsKeyed, get-id}
use forkd.Master.{MasterState, wake_node}
use forkd.Master.Demotion.{next_tier, sweep, wake_all}
use forkd.Master.Demotion.Steps.{candidate, sweep_one_step, wake_all-store}
use forkd.Master.Demotion.Reaches.{
  AllAsk, sweep_loop-moved, next_tier-due, idle-candidate, idle-due, sweep_loop-IsKeyed,
}

-- Sweeps at these times, with nothing in between.
unfoldable pub sweeps : {V : Type 0} → MasterState V → List ℕ → MasterState V
sweeps st [] = st
sweeps st (now ∷ ts) = sweeps (sweep st now now) ts

wake_all-idle :
    {V : Type 0} (ns : List String) (st : MasterState V) → (wake_all ns st).idle ≡ st.idle
unfolding wake_all wake_node
wake_all-idle [] st = refl
wake_all-idle (n ∷ ns) st = wake_all-idle ns (wake_node st n)

sweep-idle : {V : Type 0} (st : MasterState V) (now : ℕ) → (sweep st now now).idle ≡ st.idle
unfolding sweep
sweep-idle st now = wake_all-idle _ _

sweep-IsKeyed :
    {V : Type 0} (st : MasterState V) (now : ℕ)
    → IsKeyed st.store.sandboxes
    → IsKeyed (sweep st now now).store.sandboxes
unfolding sweep
sweep-IsKeyed st now k =
    subst (λ (t : Store). IsKeyed t.sandboxes) (sym (wake_all-store _ _))
      (sweep_loop-IsKeyed st.idle (idle_candidates st.store st.idle.to_frozen now now) st.store k)

colder-rank : (u t : Tier) → colder u ≡ some t → rank t ≡ suc (rank u)
unfolding colder
colder-rank u t h = ground arith

rank-le : (w : Tier) → rank w ≤ 3
rank-le hot = omega arith
rank-le frozen = omega arith
rank-le snapshot = omega arith
rank-le detached = omega arith

not-detached : (u w : Tier) → rank u < rank w → tier_eq u detached ≡ false
not-detached hot w h = refl
not-detached frozen w h = refl
not-detached snapshot w h = refl
not-detached detached w h = absurd (omega (arith, rank-le w, h))

-- A sandbox that is warmer than the policy asks for is moved.
sweep-moves :
    {V : Type 0} (st : MasterState V) (now : ℕ) (j : String) (s : Sandbox)
    → IsKeyed st.store.sandboxes
    → IsOrdered st.idle
    → get_sandbox st.store j ≡ some s
    → s.last_active_at ≤ now
    → rank s.tier < rank (tier_for_idle st.idle (now - s.last_active_at))
    → (t : Tier) × (get_sandbox (sweep st now now).store j ≡ some (record s { tier = t }))
      × (rank t ≡ suc (rank s.tier))
unfolding sweep
sweep-moves st now j s k o h past due =
    let secs = now - s.last_active_at in
    let (t, asks, up) = next_tier-due st.idle s secs due in
    let old = idle-due st.idle secs o (omega (arith, due)) in
    let cs = idle_candidates st.store st.idle.to_frozen now now in
    let all : AllAsk st.idle cs j t = λ c m i.
      let (is_s, _, _) = candidate st.store st.idle.to_frozen now now c j s k h m i in
      ap (λ (d : Sandbox × ℕ). next_tier st.idle d.0 d.1) is_s ∙ asks in
    (
      t,
      ap (λ (u : Store). get_sandbox u j) (wake_all-store _ _)
          ∙ sweep_loop-moved st.idle cs st.store j s t h all (s, secs)
              (idle-candidate st.store st.idle.to_frozen now j s h (omega (arith, old, past))
                (not-detached s.tier (tier_for_idle st.idle secs) due))
              (get-id st.store j s h),
      up,
    )

-- One sweep, for a tier that the policy asks for.
sweep-nears :
    {V : Type 0} (st : MasterState V) (now goal : ℕ) (j : String) (s : Sandbox)
    → IsKeyed st.store.sandboxes
    → IsOrdered st.idle
    → get_sandbox st.store j ≡ some s
    → s.last_active_at ≤ now
    → goal ≤ rank (tier_for_idle st.idle (now - s.last_active_at))
    → (t : Tier) × (get_sandbox (sweep st now now).store j ≡ some (record s { tier = t }))
      × (rank s.tier ≤ rank t)
      × (rank s.tier < goal → rank t ≡ suc (rank s.tier))
sweep-nears st now goal j s k o h past due =
    elim (Bool-cases (ltb (rank s.tier) (rank (tier_for_idle st.idle (now - s.last_active_at))))) [
      | inl e ↦
          let (t, g, up) = sweep-moves st now j s k o h past (ltb→lt _ _ e) in
          (t, g, omega (arith, up), λ b. up)
      | inr e ↦
          let (s', g, w) = sweep_one_step st now now j s k h in
          elim w [
            | inl same_row ↦
                (s.tier, g ∙ ap some same_row, omega arith, λ b. absurd (ground (arith, e, b, due)))
            | inr (t, moved, step, _, far) ↦ (
              t,
              g ∙ ap some moved,
              omega (arith, colder-rank s.tier t step),
              λ b. colder-rank s.tier t step,
            )
          ]
    ]

settles :
    {V : Type 0} (ts : List ℕ) (st : MasterState V) (from goal : ℕ) (j : String) (s : Sandbox)
    → IsKeyed st.store.sandboxes
    → IsOrdered st.idle
    → get_sandbox st.store j ≡ some s
    → s.last_active_at ≤ from
    → All (λ t. from ≤ t) ts
    → goal ≤ rank (tier_for_idle st.idle (from - s.last_active_at))
    → goal ≤ rank s.tier + length ts
    → (t : Tier) × (get_sandbox (sweeps st ts).store j ≡ some (record s { tier = t }))
      × (goal ≤ rank t)
unfolding sweeps
settles [] st from goal j s k o h past later asked b = (s.tier, h, omega (arith, b))
settles (now ∷ ts) st from goal j s k o h past later asked b =
    let more =
      tier_for_idle_mono st.idle (from - s.last_active_at) (now - s.last_active_at) o
        (omega (arith, later.0)) in
    let (t, g, up, step) =
      sweep-nears st now goal j s k o h (omega (arith, past, later.0))
        (omega (arith, asked, more)) in
    settles ts (sweep st now now) from goal j (record s { tier = t }) (sweep-IsKeyed st now k)
      (subst IsOrdered (sym (sweep-idle st now)) o) g past later.1
      (subst (λ (p : IdlePolicy). goal ≤ rank (tier_for_idle p (from - s.last_active_at)))
        (sym (sweep-idle st now)) asked)
      (bound t up step)
  where
    bound :
        (t : Tier)
        → rank s.tier ≤ rank t
        → (rank s.tier < goal → rank t ≡ suc (rank s.tier))
        → goal ≤ rank t + length ts
    bound t up step = elim (Bool-cases (ltb (rank s.tier) goal)) [
      | inl e ↦ omega (arith, b, step (ltb→lt _ _ e))
      | inr e ↦ ground (arith, e, up)
    ]

-- A sandbox that nobody uses does reach the tier that the policy asks for. With ids that are unique and thresholds
-- in order, three sweeps, none before a given time, leave it at least as cold as the policy asks for at that
-- time, and change nothing else of its row.
pub sweeps_settle :
    {V : Type 0} (st : MasterState V) (from a b c : ℕ) (j : String) (s : Sandbox)
    → IsKeyed st.store.sandboxes
    → IsOrdered st.idle
    → get_sandbox st.store j ≡ some s
    → s.last_active_at ≤ from
    → (from ≤ a) × (from ≤ b) × (from ≤ c)
    → (t : Tier) × (get_sandbox (sweeps st (a ∷ b ∷ c ∷ [])).store j ≡ some (record s { tier = t }))
      × (rank (tier_for_idle st.idle (from - s.last_active_at)) ≤ rank t)
sweeps_settle st from a b c j s k o h past (la, lb, lc) =
    settles (a ∷ b ∷ c ∷ []) st from (rank (tier_for_idle st.idle (from - s.last_active_at))) j s k
      o h past (la, (lb, (lc, tt))) (omega arith)
      (omega (arith, rank-le (tier_for_idle st.idle (from - s.last_active_at))))
