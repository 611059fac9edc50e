-- ===== src/Master/Drive.antt =====
-- crates/sandstorm-core/src/master/drive.rs: one round of the loop that drives a node which listens. What
-- the node answers is an argument, and so is what the state has become while the loop waited. Durations are
-- in milliseconds. Results of commands go to callers who wait for them, and are left out.
pub mod AsPolled
use forkd.Prelude.{
  ℕ, ◌+◌, ◌*◌, String, Bool, true, false, not, ◌&&◌, ◌||◌, Option, none, some, List, [], ◌∷◌, ◌++◌,
  length, ◌==◌, same, min, if◌then◌else◌,
}
use forkd.Proto.{Command, PollRequest, exec}
use forkd.Store.Nodes.{set_node_connected}
use forkd.Master.{MasterState, asked_for}
use forkd.Master.Handlers.{note_activity, take_execs}
use forkd.Master.Reports.{record_failures}
use forkd.Master.Reconcile.{Specs}
use forkd.Master.Reconcile.Diff.{diff}

abbrev pub refresh : ℕ
refresh = 5000

abbrev pub sync_base : ℕ
sync_base = 60000

abbrev pub backoff_min : ℕ
backoff_min = 250

abbrev pub backoff_max : ℕ
backoff_max = 15000

-- What the loop keeps between rounds.
pub record Driver (V : Type 0) : Type 0 where
  pub batch : Option (List (Command V))
  pub backoff : ℕ
  pub up : Bool

pub record SyncResponse : Type 0 where
  pub report : PollRequest
  pub retry_in_ms : Option ℕ

-- How a round ends.
pub data Pause : Type 0 where
  not_paused : Pause
  slept : (backoff : ℕ) → Pause
  notified_within : (wait : ℕ) → Pause

abbrev wait_for : Option ℕ → ℕ
wait_for none = refresh
wait_for (some d) = min d refresh

module _ {V : Type 0} where
  abbrev timeout_of : Command V → ℕ
  timeout_of (exec exec_id id args timeout_secs) = timeout_secs * 1000
  timeout_of _ = 0

  unfoldable pub exec_time : List (Command V) → ℕ
  exec_time [] = 0
  exec_time (c ∷ cs) = timeout_of c + exec_time cs

  -- Long enough for every exec in the batch to run to its own timeout.
  unfoldable pub sync_timeout : Option (List (Command V)) → ℕ
  unfolding exec_time
  sync_timeout none = sync_base
  sync_timeout (some cs) = sync_base + exec_time cs

  abbrev pub is_empty : List (Command V) → Bool
  is_empty [] = true
  is_empty (c ∷ cs) = false

  -- Whether two batches have one length and one text.
  unfoldable pub same_batch :
      (List (Command V) → String) → List (Command V) → List (Command V) → Bool
  same_batch json a b = length a == length b && same (json a) (json b)

  abbrev pub sent_again :
      (List (Command V) → String) → Option (List (Command V)) → List (Command V) → Bool
  sent_again json none next = false
  sent_again json (some s) next = same_batch json s next

  abbrev pub batch_of : List (Command V) → Option (List (Command V))
  batch_of [] = none
  batch_of (c ∷ cs) = some (c ∷ cs)

  unfoldable pub lost : MasterState V → String → ℕ → Driver V → MasterState V × Driver V × Pause
  lost st id now d = (
    record st { store = set_node_connected st.store id false now },
    record { batch = none; backoff = min (d.backoff * 2) backoff_max; up = false },
    slept d.backoff,
  )

module _ {V : Type 0} (specs : Specs V) (sign : String → String → String → ℕ → String)
    (json : List (Command V) → String) where
  -- Commands for the node, computed as `poll` computes them.
  unfoldable pub next_batch : MasterState V → PollRequest → ℕ → MasterState V × List (Command V)
  next_batch st report now =
      let (noted, commands) = diff specs sign st report now in
      let (after, execs) = take_execs noted report.node_id in (after, commands ++ execs)

  -- The report is the node's that was dialled, whatever it says of itself.
  unfoldable pub noted : MasterState V → PollRequest → ℕ → ℕ → MasterState V
  noted st report now now_ms =
      note_activity (record st { store = record_failures st.store report }) report now now_ms

  unfoldable pub answered :
      MasterState V
      → String
      → SyncResponse
      → (now now_ms : ℕ) → (later : MasterState V → MasterState V) (woken_at : ℕ) → Driver V
      → MasterState V × Driver V × Pause
  unfolding same_batch
  answered st id resp now now_ms later woken_at d =
      let report = record resp.report { node_id = id } in
      let (first, next) = next_batch (noted st report now now_ms) report now in
      if is_empty next || sent_again json d.batch next
      then (let (second, others) = next_batch (later first) report woken_at in
          (
            second,
            record { batch = batch_of others; backoff = backoff_min; up = true },
            notified_within (wait_for resp.retry_in_ms),
          ))
      else (first, record { batch = some next; backoff = backoff_min; up = true }, not_paused)

  -- One round: `none` is a sync that failed.
  unfoldable pub drive_round :
      MasterState V
      → String
      → Option SyncResponse
      → (now now_ms : ℕ) → (later : MasterState V → MasterState V) (woken_at : ℕ) → Driver V
      → MasterState V × Driver V × Pause
  unfolding lost answered
  drive_round st id none now now_ms later woken_at d = lost st id now d
  drive_round st id (some resp) now now_ms later woken_at d =
      answered st id resp now now_ms later woken_at d
