-- ===== src/Master.antt =====
-- crates/sandstorm-core/src/master/api.rs: the master's state, without what only metrics read. An
-- `Instant` is a number of milliseconds. A node with a permit in `woken` has been notified.
pub mod Reports
pub mod Placement
pub mod Reconcile
pub mod Demotion
pub mod Handlers
pub mod Switch
pub mod Create
pub mod Drive
pub mod Branches
pub mod Registration
pub mod E2b
use forkd.Prelude.{
  ℕ, ◌-◌, String, Bool, true, false, not, Option, none, some, List, [], ◌∷◌, ltb, same, find,
  retain, any, if◌then◌else◌,
}
unfoldable pub use forkd.Maps.{get, put, remove}
use forkd.Tier.{IdlePolicy}
use forkd.Proto.{Command, HostInfo}
use forkd.Store.{Store}
use forkd.Backend.{BackendKind}

-- When a node is too loaded to take another sandbox.
pub record Admission : Type 0 where
  pub min_free_mib : ℕ
  pub max_psi_avg10 : ℕ

unfoldable pub default_admission : Admission
default_admission = record { min_free_mib = 512; max_psi_avg10 = 800 }

abbrev pub max_failures : ℕ
max_failures = 5

abbrev pub default_sandbox_port : ℕ
default_sandbox_port = 8080

-- Milliseconds.
abbrev pub explicit_tier_hold : ℕ
explicit_tier_hold = 15000

abbrev pub switch_hold : ℕ
switch_hold = 120000

pub record Switching : Type 0 where
  pub backend : BackendKind
  pub at : ℕ

pub record MasterState (V : Type 0) : Type 0 where
  pub store : Store
  pub idle : IdlePolicy
  pub port_range : ℕ × ℕ
  pub max_net_index : ℕ
  pub admit : Admission
  pub woken : List String
  pub exec_queue : List (String × List (Command V))
  pub explicit_tier : List (String × ℕ)
  pub switching : List (String × Switching)
  pub node_templates : List (String × List String)
  pub node_hosts : List (String × HostInfo)
  pub node_features : List (String × List String)
  pub node_addrs : List (String × String)

unfoldable pub wake_node : {V : Type 0} → MasterState V → String → MasterState V
wake_node st node_id = record st {
  woken = if any (λ n. same n node_id) st.woken then st.woken else node_id ∷ st.woken;
}

-- An E2B caller paused this sandbox.
unfoldable pub hold_pause : {V : Type 0} → MasterState V → String → ℕ → MasterState V
hold_pause st id now = record st {
  explicit_tier = put id now (retain (λ e. ltb (now - e.1) explicit_tier_hold) st.explicit_tier);
}

unfoldable pub release_pause : {V : Type 0} → MasterState V → String → MasterState V
release_pause st id = record st { explicit_tier = remove id st.explicit_tier }

-- Whether a pause that a caller asked for still holds against traffic.
unfoldable pub asked_for : List (String × ℕ) → ℕ → String → Bool
asked_for held now id = elim (get id held) [
  | none ↦ false
  | some at ↦ ltb (now - at) explicit_tier_hold
]

-- The backend that this node is being moved to, while that is under way.
unfoldable pub switching_to : {V : Type 0} → MasterState V → ℕ → String → Option BackendKind
switching_to st now node_id =
    elim (get node_id (retain (λ e. ltb (now - e.1.at) switch_hold) st.switching)) [
      | none ↦ none
      | some s ↦ some s.backend
    ]

-- Whether this node said that it can start this template; one that has not said is taken to.
unfoldable pub can_start : {V : Type 0} → MasterState V → String → String → Bool
can_start st node_id template = elim (get node_id st.node_templates) [
  | none ↦ true
  | some ts ↦ any (λ t. same t template) ts
]
