-- ===== src/Master/Demotion.antt =====
-- crates/sandstorm-core/src/master/demote.rs: one sweep of the idle-demotion loop. The timer that runs
-- it and its counters are left out; the clock is read twice, as `idle_candidates` does.
pub mod Steps
pub mod Reaches
pub mod Settles
use Prim.Native.String.{compare}
use text.Mathlib.Text.{is_le}
use forkd.Prelude.{
  ℕ, String, Bool, true, false, not, ◌&&◌, Option, none, some, List, [], ◌∷◌, same, sort_by,
  if◌then◌else◌,
}
use forkd.Tier.{IdlePolicy, Tier, at_least, colder, tier_eq, tier_for_idle}
use forkd.Store.{Sandbox, Store}
use forkd.Store.Sandboxes.{idle_candidates, set_tier}
use forkd.Master.{MasterState, wake_node}

-- The tier that a candidate is moved to: one colder, when the policy asks for that or colder.
unfoldable pub next_tier : IdlePolicy → Sandbox → ℕ → Option Tier
next_tier idle sb idle_secs = elim (colder sb.tier) [
  | none ↦ none
  | some next ↦
      let want = tier_for_idle idle idle_secs in
      if at_least want next && not (tier_eq sb.tier want) then some next else none
]

-- Consecutive duplicates.
unfoldable pub dedup : List String → List String
dedup [] = []
dedup (x ∷ []) = x ∷ []
dedup (x ∷ y ∷ rest) = let tail = dedup (y ∷ rest) in if same x y then tail else x ∷ tail

unfoldable pub sweep_loop : IdlePolicy → List (Sandbox × ℕ) → Store → Store × List String
sweep_loop idle [] st = (st, [])
sweep_loop idle ((sb, secs) ∷ rest) st = elim (next_tier idle sb secs) [
  | none ↦ sweep_loop idle rest st
  | some next ↦
      let (after, woken) = sweep_loop idle rest (set_tier st sb.id next) in
      (after, sb.node_id ∷ woken)
]

unfoldable pub wake_all : {V : Type 0} → List String → MasterState V → MasterState V
wake_all [] st = st
wake_all (n ∷ ns) st = wake_all ns (wake_node st n)

unfoldable pub sweep : {V : Type 0} → MasterState V → ℕ → ℕ → MasterState V
sweep st cutoff_now now =
    let (after, woken) =
      sweep_loop st.idle (idle_candidates st.store st.idle.to_frozen cutoff_now now) st.store in
    wake_all (dedup (sort_by (λ a b. is_le (compare a b)) woken)) (record st { store = after })
