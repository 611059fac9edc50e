-- ===== src/Node/Commands.antt =====
-- crates/sandstorm-core/src/node/mod.rs (`run_one`): offering one command to a node, with the failure book.
-- Instants and durations are in nanoseconds, `Starting`'s times in milliseconds. What the runtime does is a
-- parameter; so is what other threads do while this one waits for a lock. The thread that ends a destroy is
-- part of what other threads do. A message is the data that it is printed from.
pub mod Answered
pub mod Work
pub mod Offer
pub mod Returns
pub mod Demotes
use forkd.Prelude.{
  ℕ, suc, ◌+◌, ◌-◌, ◌*◌, ◌/◌, String, Bool, true, false, not, ◌&&◌, Option, none, some, List, [],
  ◌∷◌, ◌⊎◌, inl, inr, any, ltb, same, min, max, if◌then◌else◌,
}
use forkd.Maps.{get, put, remove}
use forkd.Tier.{Tier, hot, snapshot, tier_eq, warmer, is_serving}
use forkd.Proto.{
  Command, CommandResult, CreateArgs, Egress, FetchFrom, ℤ, pos, negsuc, command_id, create,
  pull_template, set_egress, set_tier, destroy, branch, drop_tag, exec, set_backend,
}
use forkd.Backend.{BackendKind, parse_backend}
use forkd.Node.Admission.{HeldBack, HostReading, backoff_for, costs_memory, holding_back_at}
use forkd.Node.Starting.{Starting, promise, add, owed_mib, forget as forget_start}
use forkd.Node.Waiting.{nanos_per_ms}
use forkd.Node.Wakeups.{
  Demand, Wakeups, evicted_for, hold, in_grace, let_go, protected, started, forget, nanos_per_s,
}
use forkd.Node.Promotion.{
  Host, Moment, Promoted, brought_up, failed, refused, max_evictions, promote,
}
use forkd.Node.Switch.{Accepted, Installed, Refusal, switch}

abbrev pub held_back_retry : ℕ
held_back_retry = 5 * nanos_per_s

abbrev pub fetch_recheck : ℕ
fetch_recheck = nanos_per_s / 2

-- Why a command did not go through.
pub data Failure (E : Type 0) : Type 0 where
  held : HeldBack → (owed_mib : ℕ) → Failure E
  changing_backend : Failure E
  other : E → Failure E

pub record Failing (E : Type 0) : Type 0 where
  pub attempts : ℕ
  pub retry_at : ℕ
  pub error : Failure E
  pub held_back : Bool

pub data Step : Type 0 where
  applied : Step
  later : ℕ → Step
  answered : CommandResult → Step

-- `tags::Status`.
pub data Fetched (E : Type 0) : Type 0 where
  pending ready : Fetched E
  gone : E → Fetched E

-- What the node's own configuration says.
pub record Limits : Type 0 where
  pub admit_min_free_mib : ℕ
  pub admit_max_psi : ℕ
  pub wake_max_psi : ℕ
  pub has_backend_file : Bool

-- The runtime, the pulls and the fetches. `V` is a create's spec.
pub record Engine (S D E V : Type 0) : Type 0 where
  pub base : Host S D E
  pub installed : Installed S E
  pub create_one : CreateArgs V → S → S × Option E
  pub egress_of : String → Egress → S → S × Option E
  pub quiesce_net : String → Option ℕ → S → S
  pub exec_in : String → List String → ℕ → S → S × ((String × String × ℤ) ⊎ E)
  pub branch_to : String → String → S → S × (ℕ ⊎ E)
  pub drop_tag : String → S → S × Option E
  pub template_root : String → S → String ⊎ E
  pub ensure_pull : String → String → ℕ → String → S → S
  pub refuse_pull : String → String → ℕ → E → S → S
  pub fetch : String → FetchFrom → S → S × Fetched E
  pub memory_mib : S → String → Option ℕ
  pub memory_limit : V → Option ℕ
  pub show_error : E → String
  pub show_accepted : Accepted → String
  pub show_refusal : Refusal E → String
  pub unknown_backend : String → String

pub record NodeState (S D E : Type 0) : Type 0 where
  pub moment : Moment S D
  pub failing : List (String × Failing E)
  pub starting : Starting
  pub destroying : List String
  pub switching : Bool

abbrev pub or_now : {E : Type 0} → Option (Failing E) → ℕ
or_now none = 0
or_now (some f) = f.attempts

abbrev pub is_held : {E : Type 0} → Failure E → Bool
is_held (held why owed) = true
is_held changing_backend = true
is_held (other e) = false

unfoldable pub wait_after : {E : Type 0} → ℕ → Failure E → ℕ
wait_after attempts e =
    if is_held e
    then min (backoff_for attempts * nanos_per_ms) held_back_retry
    else backoff_for attempts * nanos_per_ms

-- Whether the command sets the tier Hot, and whether it is a create.
abbrev pub to_hot : {V : Type 0} → Command V → Bool
to_hot (set_tier id tier) = tier_eq tier hot
to_hot _ = false

abbrev pub is_create : {V : Type 0} → Command V → Bool
is_create (create c) = true
is_create _ = false

abbrev pub is_destroy : {V : Type 0} → Command V → Bool
is_destroy (destroy id net_index) = true
is_destroy _ = false

-- What came of the work on a sandbox: done, failed, or to be offered again without a failure.
pub data Outcome (E : Type 0) : Type 0 where
  done : Outcome E
  not_done : Failure E → Outcome E
  not_yet : ℕ → Outcome E

module _ {S D E : Type 0} where
  abbrev pub with_host : NodeState S D E → S → NodeState S D E
  with_host st s = record st { moment = record st.moment { host = s } }

  abbrev pub with_wake : NodeState S D E → Wakeups D → NodeState S D E
  with_wake st w = record st { moment = record st.moment { wake = w } }

module _ {S D E V : Type 0} (rt : Engine S D E V) where
  abbrev pub clock_of : NodeState S D E → ℕ
  clock_of st = rt.base.clock st.moment.host

  -- What other threads do while this one waits.
  abbrev pub waited : NodeState S D E → NodeState S D E
  waited st = record st { moment = rt.base.meanwhile st.moment }
