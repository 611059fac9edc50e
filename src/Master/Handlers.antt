-- ===== src/Master/Handlers.antt =====
-- crates/sandstorm-core/src/master/api.rs: the requests of callers and of nodes. A handler's error is
-- its status. Several reads of the clock in one handler are one argument, since the store is locked or
-- nothing is awaited between them; the time that a poll is parked for is an argument of its own.
pub mod Polls
pub mod Tiers
use forkd.Prelude.{
  ℕ, String, Bool, true, false, not, Option, none, some, List, [], ◌∷◌, ◌++◌, all, same,
  if◌then◌else◌,
}
use forkd.Tier.{Tier, hot, tier_eq}
use forkd.Proto.{Command, PollRequest}
use forkd.Node.Waiting.{leave_out_deferred}
use forkd.Store.{Sandbox, Store}
use forkd.Store.Sandboxes.{clear_sandbox_error, delete_sandbox, get_sandbox, set_tier, touch}
use forkd.Store.Nodes.{pool_fingerprints}
use forkd.Store.Pools.{derived_pool}
use forkd.Master.{MasterState, asked_for, get, put, wake_node}
use forkd.Master.Reports.{apply_evictions, apply_traffic, record_failures}
use forkd.Master.Reconcile.{Specs}
use forkd.Master.Reconcile.Diff.{diff}

pub data Status : Type 0 where
  not_found forbidden conflict : Status

pub data Outcome (A : Type 0) : Type 0 where
  ok : A → Outcome A
  err : Status → Outcome A

-- What the transport established about the caller.
pub data NodeIdentity : Type 0 where
  verified : String → NodeIdentity
  untrusted : NodeIdentity

unfoldable pub authorises : NodeIdentity → String → Bool
authorises (verified id) claimed = same id claimed
authorises untrusted claimed = true

abbrev found : Option Sandbox → Outcome Sandbox
found none = err not_found
found (some s) = ok s

-- The pool that a node may join: the one it asks for, or one of its own.
unfoldable pub pool_for : Store → String → String → String
pool_for st asked fingerprint =
    if all (λ f. same f fingerprint) (pool_fingerprints st asked)
    then asked
    else derived_pool asked fingerprint

abbrev pub or_empty : {A : Type 0} → Option (List A) → List A
or_empty none = []
or_empty (some xs) = xs

module _ {V : Type 0} where
  -- `POST …/tier`.
  unfoldable pub request_tier : MasterState V → String → Tier → ℕ → MasterState V × Outcome Sandbox
  request_tier st id tier now = elim (get_sandbox st.store id) [
    | none ↦ (st, err not_found)
    | some sb ↦
        let moved = set_tier st.store id tier in
        let after = if tier_eq tier hot then touch moved id now else moved in
        (wake_node (record st { store = after }) sb.node_id, found (get_sandbox after id))
  ]

  unfoldable pub retry_sandbox : MasterState V → String → MasterState V × Outcome Sandbox
  retry_sandbox st id = elim (get_sandbox st.store id) [
    | none ↦ (st, err not_found)
    | some sb ↦
        let after = clear_sandbox_error st.store id in
        (wake_node (record st { store = after }) sb.node_id, found (get_sandbox after id))
  ]

  unfoldable pub touch_sandbox : MasterState V → String → ℕ → MasterState V × Outcome Sandbox
  touch_sandbox st id now = elim (get_sandbox st.store id) [
    | none ↦ (st, err not_found)
    | some sb ↦
        let touched = touch st.store id now in
        if tier_eq sb.tier hot
        then (record st { store = touched }, found (get_sandbox touched id))
        else let after = set_tier touched id hot in
          (wake_node (record st { store = after }) sb.node_id, found (get_sandbox after id))
  ]

  -- Deleting a sandbox that is not there succeeds.
  unfoldable pub remove_sandbox : MasterState V → String → MasterState V
  remove_sandbox st id =
      let after = record st { store = delete_sandbox st.store id } in
      elim (get_sandbox st.store id) [ none ↦ after | some sb ↦ wake_node after sb.node_id ]

  -- The commands queued for the node, and a queue without them. A node that has no queue gets none.
  unfoldable pub take_execs : MasterState V → String → MasterState V × List (Command V)
  take_execs st node_id = elim (get node_id st.exec_queue) [
    | none ↦ (st, [])
    | some queued ↦ (record st { exec_queue = put node_id [] st.exec_queue }, queued)
  ]

  -- A command joins the end of its node's queue, as `run_exec` has it, and the node is woken.
  unfoldable pub queue_exec : MasterState V → String → Command V → MasterState V
  queue_exec st node_id cmd =
      let queued = or_empty (get node_id st.exec_queue) ++ (cmd ∷ []) in
      wake_node (record st { exec_queue = put node_id queued st.exec_queue }) node_id

  -- Only a sandbox that is hot can run a command. Waiting for the result is left out.
  unfoldable pub run_exec : MasterState V → String → Command V → MasterState V × Outcome Unit
  run_exec st id cmd = elim (get_sandbox st.store id) [
    | none ↦ (st, err not_found)
    | some sb ↦
        if tier_eq sb.tier hot then (queue_exec st sb.node_id cmd, ok tt) else (st, err conflict)
  ]

  -- Where the node's connection comes from, when that is known.
  abbrev pub note_addr : MasterState V → String → Option String → MasterState V
  note_addr st node_id none = st
  note_addr st node_id (some addr) = record st { node_addrs = put node_id addr st.node_addrs }

  -- What a report says of traffic and evictions.
  unfoldable pub note_activity : MasterState V → PollRequest → ℕ → ℕ → MasterState V
  note_activity st req now now_ms = record st {
    store =
        apply_evictions (apply_traffic st.store req (asked_for st.explicit_tier now_ms) now) req;
  }

  -- A report out of turn.
  unfoldable pub node_traffic :
      MasterState V → NodeIdentity → PollRequest → ℕ → ℕ → MasterState V × Outcome Unit
  node_traffic st who req now now_ms =
      if authorises who req.node_id
      then (wake_node (note_activity st req now now_ms) req.node_id, ok tt)
      else (st, err forbidden)

module _ {V : Type 0} (specs : Specs V) (sign : String → String → String → ℕ → String) where
  -- What the node is answered `waited` after its report arrived.
  unfoldable pub answer : MasterState V → PollRequest → ℕ → ℕ → MasterState V × List (Command V)
  answer st req now waited =
      let (noted, commands) = diff specs sign st req now in
      let (after, execs) = take_execs noted req.node_id in
      (after, leave_out_deferred commands req waited ++ execs)

  -- Parked only when there was nothing to answer at once.
  abbrev pub second_look :
      MasterState V
      → PollRequest
      → ℕ
      → ℕ
      → List (Command V)
      → MasterState V
      → MasterState V × Outcome (List (Command V))
  second_look first req woken_at waited [] parked =
      let (second, others) = answer parked req woken_at waited in (second, ok others)
  second_look first req woken_at waited (c ∷ cs) parked = (first, ok (c ∷ cs))

  -- A poll. `later` is what the state has become when the request has been parked for `waited`, at
  -- the time `woken_at`.
  unfoldable pub poll :
      MasterState V
      → NodeIdentity
      → Option String
      → PollRequest
      → (now now_ms : ℕ) → (later : MasterState V → MasterState V) (woken_at waited : ℕ)
      → MasterState V × Outcome (List (Command V))
  poll st who peer req now now_ms later woken_at waited =
      if authorises who req.node_id
      then (let known = note_addr st req.node_id peer in
          let failed = record known { store = record_failures known.store req } in
          let (first, commands) = answer (note_activity failed req now now_ms) req now 0 in
          second_look first req woken_at waited commands (later first))
      else (st, err forbidden)
