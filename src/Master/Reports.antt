-- ===== src/Master/Reports.antt =====
-- crates/sandstorm-core/src/master/api.rs: what a node's report of failures, traffic and evictions
-- does to the sandboxes that the master wants. Reading and writing the store are the only effects
-- that later steps see; logs and counters are left out.
pub mod Failures
pub mod Traffic
pub mod Evictions
use forkd.Prelude.{
  ℕ, String, Bool, true, false, not, ◌&&◌, Option, none, some, List, [], ◌∷◌, leb, ltb, same, any,
  find, if◌then◌else◌,
}
use forkd.Tier.{Tier, hot, rank, is_serving, tier_eq}
use forkd.Proto.{CommandFailure, ObservedSandbox, PollRequest}
use forkd.Store.{Store}
use forkd.Store.Sandboxes.{
  get_sandbox, set_tier, touch, set_sandbox_error, clear_sandbox_error, errored_on_node,
}

abbrev pub observes : String → ObservedSandbox → Bool
observes id o = same o.id id

abbrev pub fails : String → CommandFailure → Bool
fails id f = same f.id id

-- The errors of sandboxes that have come up.
unfoldable pub clear_recovered : PollRequest → List String → Store → Store
clear_recovered req [] st = st
clear_recovered req (id ∷ ids) st = clear_recovered req ids (
    if not (any (fails id) req.failures) && any (observes id) req.observed
    then clear_sandbox_error st id
    else st)

-- A command that the node held back counts as no attempts.
unfoldable pub note_failures : List CommandFailure → Store → Store
note_failures [] st = st
note_failures (f ∷ fs) st =
    note_failures fs (set_sandbox_error st f.id f.error (if f.held_back then 0 else f.attempts))

unfoldable pub record_failures : Store → PollRequest → Store
unfolding clear_recovered note_failures
record_failures st req =
    note_failures req.failures (clear_recovered req (errored_on_node st req.node_id) st)

-- Whether the report shows the sandbox serving.
abbrev pub seen_serving : PollRequest → String → Bool
seen_serving req id = any (λ o. observes id o && is_serving o.tier) req.observed

-- One id of `req.traffic`. `held` tells the sandboxes that an E2B caller has just paused.
unfoldable pub traffic_for : PollRequest → (String → Bool) → ℕ → Store → String → Store
traffic_for req held now st id = elim (get_sandbox st id) [
  | none ↦ st
  | some sb ↦
      if same sb.node_id req.node_id
      then if seen_serving req id && not (tier_eq sb.tier hot) && not (held id)
        then set_tier (touch st id now) id hot
        else touch st id now
      else st
]

unfoldable pub traffic_loop : PollRequest → (String → Bool) → ℕ → List String → Store → Store
traffic_loop req held now [] st = st
traffic_loop req held now (id ∷ ids) st =
    traffic_loop req held now ids (traffic_for req held now st id)

unfoldable pub apply_traffic : Store → PollRequest → (String → Bool) → ℕ → Store
unfolding traffic_loop
apply_traffic st req held now = traffic_loop req held now req.traffic st

-- One id of `req.evicted`.
unfoldable pub eviction_for : PollRequest → Store → String → Store
eviction_for req st id = elim (get_sandbox st id) [
  | none ↦ st
  | some sb ↦
      if same sb.node_id req.node_id
      then elim (find (observes id) req.observed) [
        | none ↦ st
        | some seen ↦ if ltb (rank sb.tier) (rank seen.tier) then set_tier st id seen.tier else st
      ]
      else st
]

unfoldable pub eviction_loop : PollRequest → List String → Store → Store
eviction_loop req [] st = st
eviction_loop req (id ∷ ids) st = eviction_loop req ids (eviction_for req st id)

unfoldable pub apply_evictions : Store → PollRequest → Store
unfolding eviction_loop
apply_evictions st req = eviction_loop req req.evicted st
