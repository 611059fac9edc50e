-- ===== src/Master/Switch.antt =====
-- crates/sandstorm-core/src/master/api.rs: moving a node to another backend, up to the command that asks
-- the node, and what its answer does. The message of a refusal is a constructor with what it names; the
-- request's text for a backend has been read, and a text that names none changes nothing.
pub mod Hold
use forkd.Prelude.{
  ℕ, ◌-◌, String, Bool, true, false, not, ◌||◌, Option, none, some, List, [], ◌∷◌, any, find,
  length, ltb, retain, same, if◌then◌else◌,
}
use forkd.Proto.{Command, set_backend}
use forkd.Store.{Node, SnapshotRow, Store}
use forkd.Store.Nodes.{list_nodes}
use forkd.Store.Pools.{node_is}
use forkd.Store.Sandboxes.{count_sandboxes_on_node}
use forkd.Backend.{BackendKind, backend_eq, backend_of_engine, firecracker, runsc}
use forkd.Master.{MasterState, Switching, get, put, remove, switch_hold}
use forkd.Master.Handlers.{queue_exec}

pub data Refused : Type 0 where
  already_switching : BackendKind → Refused
  no_node : Refused
  not_answering : Refused
  not_empty : (sandboxes snapshots : ℕ) → Refused
  fixed : Refused

pub data Asked : Type 0 where
  asked : Asked
  nothing_to_do : Asked
  refused : Refused → Asked

unfoldable pub count_snapshots_on_node : Store → String → ℕ
count_snapshots_on_node st id =
    length (retain (λ (r : SnapshotRow). same r.node_id id) st.snapshots)

-- The backend that the node last said it runs.
unfoldable pub backend_on : Store → String → Option BackendKind
backend_on st id = elim (find (node_is id) st.nodes) [
  | none ↦ none
  | some n ↦ elim n.host [ none ↦ none | some h ↦ backend_of_engine h.engine ]
]

abbrev pub is_on : Option BackendKind → BackendKind → Bool
is_on none want = false
is_on (some k) want = backend_eq k want

abbrev pub backend_name : BackendKind → String
backend_name runsc = "runsc"
backend_name firecracker = "firecracker"

abbrev pub live : List (String × Switching) → ℕ → List (String × Switching)
live switching now = retain (λ e. ltb (now - e.1.at) switch_hold) switching

abbrev pub has_switch : Option (List String) → Bool
has_switch none = false
has_switch (some fs) = any (λ f. same f "backend-switch") fs

-- What stands against the switch, once no other is under way.
unfoldable pub judge : Store → Bool → String → BackendKind → Asked
judge st switchable id want = elim (find (node_is id) (list_nodes st)) [
  | none ↦ refused no_node
  | some n ↦
      if not n.connected
      then refused not_answering
      else if ltb 0 (count_sandboxes_on_node st id) || ltb 0 (count_snapshots_on_node st id)
      then refused (not_empty (count_sandboxes_on_node st id) (count_snapshots_on_node st id))
      else if is_on (backend_on st id) want
      then nothing_to_do
      else if switchable
      then asked
      else refused fixed
]

module _ {V : Type 0} where
  abbrev pub enact : MasterState V → String → BackendKind → String → Asked → MasterState V × Asked
  enact held id want result_id asked =
      (queue_exec held id (set_backend (backend_name want) result_id), asked)
  enact held id want result_id nothing_to_do =
      (record held { switching = remove id held.switching }, nothing_to_do)
  enact held id want result_id (refused why) =
      (record held { switching = remove id held.switching }, refused why)

  unfoldable pub set_node_backend :
      MasterState V → String → BackendKind → String → ℕ → MasterState V × Asked
  set_node_backend st id want result_id now =
      let open_switches = live st.switching now in
      elim (get id open_switches) [
        | some s ↦ (record st { switching = open_switches }, refused (already_switching s.backend))
        | none ↦
            let held = record st {
              switching = put id (record { backend = want; at = now }) open_switches;
            } in
            enact held id want result_id
              (judge st.store (has_switch (get id st.node_features)) id want)
      ]

  -- The node's answer: a refusal lets it back into placement; an answer that was lost does not.
  unfoldable pub switch_answered : MasterState V → String → Option Bool → MasterState V
  switch_answered st id (some false) = record st { switching = remove id st.switching }
  switch_answered st id _ = st
