-- ===== src/Master/Reports/Traffic.antt =====
-- crates/sandstorm-core/src/master/api.rs: laws of `apply_traffic`.
use mathlib.Core.Option
use forkd.Prelude.{
  ℕ, ◌≡◌, refl, ap, ◌∙◌, inl, inr, String, Bool, true, not, ◌&&◌, Option, none, some, List, [], ◌∷◌,
  arith, same, same_iff, if◌then◌else◌, Option-cases, any,
}
use forkd.Tier.{Tier, hot, tier_eq}
use forkd.Proto.{PollRequest}
use forkd.Store.{Sandbox, Store}
use forkd.Store.Sandboxes.{get_sandbox, touch}
use forkd.Store.Sandboxes.Laws.{get-set_tier, get-touch, get-id}
use forkd.Master.Reports.{seen_serving, traffic_for, traffic_loop, apply_traffic}

-- The row of a sandbox that traffic was reported for.
pub after_traffic : PollRequest → (String → Bool) → ℕ → Sandbox → Sandbox
after_traffic req held now s =
    if same s.node_id req.node_id
    then record s {
      last_active_at = now;
      tier = if seen_serving req s.id && not (held s.id) then hot else s.tier;
    }
    else s

tier_eq→eq : (t : Tier) → tier_eq t hot ≡ true → t ≡ hot
tier_eq→eq t h = ground arith

-- One write to the row of `id`, for a query of any row.
write_row :
    (req : PollRequest) (held : String → Bool) (now : ℕ) (st : Store) (id j : String) (sb : Sandbox)
    → get_sandbox st id ≡ some sb
    → get_sandbox (traffic_for req held now st id) j
      ≡ (if same id j then some (after_traffic req held now sb) else get_sandbox st j)
unfolding traffic_for after_traffic
write_row req held now st id j sb e =
    rw (e, traffic_for)
      (ground (
        arith,
        e,
        get-set_tier (touch st id now) id j hot,
        get-touch st id j now,
        get-id st id sb e,
        tier_eq→eq sb.tier,
        same_iff id j,
      ))

missing_row :
    (req : PollRequest) (held : String → Bool) (now : ℕ) (st : Store) (id j : String)
    → get_sandbox st id ≡ none
    → get_sandbox (traffic_for req held now st id) j ≡ (
        if same id j
        then Option.map (after_traffic req held now) (get_sandbox st j)
        else get_sandbox st j)
unfolding traffic_for
missing_row req held now st id j e = rw (e, traffic_for) (ground (arith, e, same_iff id j))

traffic_for-row :
    (req : PollRequest) (held : String → Bool) (now : ℕ) (st : Store) (id j : String)
    → get_sandbox (traffic_for req held now st id) j ≡ (
        if same id j
        then Option.map (after_traffic req held now) (get_sandbox st j)
        else get_sandbox st j)
traffic_for-row req held now st id j = elim (Option-cases (get_sandbox st id)) [
  | inl e ↦ missing_row req held now st id j e
  | inr (sb, e) ↦ write_row req held now st id j sb e ∙ ground (arith, e, same_iff id j)
]

after_traffic_idem :
    (req : PollRequest) (held : String → Bool) (now : ℕ) (s : Sandbox)
    → after_traffic req held now (after_traffic req held now s) ≡ after_traffic req held now s
unfolding after_traffic
after_traffic_idem req held now s = ground arith

map_idem :
    (f : Sandbox → Sandbox)
    → ((s : Sandbox) → f (f s) ≡ f s)
    → (o : Option Sandbox) → Option.map f (Option.map f o) ≡ Option.map f o
map_idem f h none = refl
map_idem f h (some s) = ap some (h s)

traffic_loop-row :
    (req : PollRequest) (held : String → Bool) (now : ℕ) (ids : List String) (st : Store)
    (j : String)
    → get_sandbox (traffic_loop req held now ids st) j ≡ (
        if any (λ id. same id j) ids
        then Option.map (after_traffic req held now) (get_sandbox st j)
        else get_sandbox st j)
unfolding traffic_loop any
traffic_loop-row req held now [] st j = refl
traffic_loop-row req held now (id ∷ ids) st j =
    traffic_loop-row req held now ids (traffic_for req held now st id) j
    ∙ ground (
      arith,
      traffic_for-row req held now st id j,
      map_idem (after_traffic req held now) (after_traffic_idem req held now) (get_sandbox st j),
    )

-- After a report, the sandboxes that its traffic names have a new idle clock, and are wanted hot if
-- the same report shows them serving and no caller has just paused them, each only if the reporting
-- node holds it. All others are as they were.
pub apply_traffic_row :
    (st : Store) (req : PollRequest) (held : String → Bool) (now : ℕ) (j : String)
    → get_sandbox (apply_traffic st req held now) j ≡ (
        if any (λ id. same id j) req.traffic
        then Option.map (after_traffic req held now) (get_sandbox st j)
        else get_sandbox st j)
unfolding apply_traffic
apply_traffic_row st req held now j = traffic_loop-row req held now req.traffic st j
