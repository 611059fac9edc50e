-- ===== src/Master/Handlers/Tiers.antt =====
-- crates/sandstorm-core/src/master/api.rs: laws of the `set_tier` handler.
use mathlib.Core.Option
use forkd.Prelude.{
  ℕ, ◌≡◌, refl, ◌∙◌, inl, inr, String, Bool, true, false, Option, none, some, arith, same,
  same_refl, Bool-cases, any, if◌then◌else◌,
}
use forkd.Tier.{Tier, hot, tier_eq}
use forkd.Store.{Sandbox, Store}
use forkd.Store.Sandboxes.{get_sandbox, set_tier, touch}
use forkd.Store.Sandboxes.Laws.{get-set_tier, get-touch}
use forkd.Master.{MasterState, wake_node}
use forkd.Master.Handlers.{ok, request_tier}

-- What a granted request makes of the sandbox.
pub granted : Tier → ℕ → Sandbox → Sandbox
granted tier now s = record s {
  tier = tier;
  last_active_at = if tier_eq tier hot then now else s.last_active_at;
}

granted_rows :
    (st : Store) (id j : String) (tier : Tier) (now : ℕ)
    → get_sandbox
        (if tier_eq tier hot then touch (set_tier st id tier) id now else set_tier st id tier)
        j
      ≡ (if same id j then Option.map (granted tier now) (get_sandbox st j) else get_sandbox st j)
unfolding granted
granted_rows st id j tier now = elim (Bool-cases (tier_eq tier hot)) [
  | inl e ↦ rw e (
      get-touch (set_tier st id tier) id j now
      ∙ rw (get-set_tier st id j tier) (warm e (same id j) (get_sandbox st j)))
  | inr e ↦ rw e (get-set_tier st id j tier ∙ cold e (same id j) (get_sandbox st j))
]
  where
    warm :
        tier_eq tier hot ≡ true
        → (b : Bool) (o : Option Sandbox)
        → (if b
            then Option.map
                (λ (s : Sandbox). record s { last_active_at = now })
                (if b then Option.map (λ (s : Sandbox). record s { tier = tier }) o else o)
            else (if b then Option.map (λ (s : Sandbox). record s { tier = tier }) o else o))
          ≡ (if b then Option.map (granted tier now) o else o)
    warm e true none = refl
    warm e true (some s) = rw e refl
    warm e false o = refl

    cold :
        tier_eq tier hot ≡ false
        → (b : Bool) (o : Option Sandbox)
        → (if b then Option.map (λ (s : Sandbox). record s { tier = tier }) o else o)
          ≡ (if b then Option.map (granted tier now) o else o)
    cold e true none = refl
    cold e true (some s) = rw e refl
    cold e false o = refl

-- A request for a tier of a sandbox that exists answers with the row it leaves: at that tier, with a new
-- idle clock if the tier is hot. The node that holds it is notified, and every other row stays.
pub request_tier_grants :
    {V : Type 0} (st : MasterState V) (id : String) (tier : Tier) (now : ℕ) (s : Sandbox)
    (j : String)
    → get_sandbox st.store id ≡ some s
    → ((request_tier st id tier now).1 ≡ ok (granted tier now s))
      × (any (λ n. same n s.node_id) (request_tier st id tier now).0.woken ≡ true)
      × (get_sandbox (request_tier st id tier now).0.store j ≡ (
          if same id j
          then Option.map (granted tier now) (get_sandbox st.store j)
          else get_sandbox st.store j))
unfolding request_tier granted wake_node any
request_tier_grants st id tier now s j h =
    rw (request_tier, h)
      (
        rw (granted_rows st.store id id tier now, same_refl id, h) refl,
        ground (arith, same_refl s.node_id),
        granted_rows st.store id j tier now,
      )
