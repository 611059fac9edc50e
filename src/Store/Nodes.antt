-- ===== src/Store/Nodes.antt =====
-- crates/sandstorm-core/src/state.rs: the queries on the table of nodes.
pub mod Revoked
use Prim.Native.String.{compare}
use text.Mathlib.Text.{is_le}
use forkd.Prelude.{
  ℕ, String, Bool, true, false, not, ◌&&◌, Option, none, some, List, [], ◌∷◌, same, if◌then◌else◌,
  any, find, retain, update_where, length, sort_by,
}
use forkd.Proto.{HostInfo}
use forkd.Store.{AgentNode, CertOwner, Node, Store}
use forkd.Store.Pools.{note_pool, node_is, pool_is}

-- `UPDATE nodes SET … WHERE id=?1`.
unfoldable pub update_node : String → (Node → Node) → Store → Store
unfolding update_where
update_node id f st = record st { nodes = update_where (node_is id) f st.nodes }

-- What an insert writes, and what a conflict on the id keeps of the old row.
unfoldable pub upsert_node : Store → Node → ℕ → Store
upsert_node st n now =
    let fresh = record n {
      free_mib = 0;
      psi_some_avg10 = 0;
      cert_sha256 = none;
      revoked = false;
      agent_address = none;
      host = none;
    } in
    let rows =
      if any (node_is n.id) st.nodes
      then update_where (node_is n.id)
          (λ old. record old {
            pool = n.pool;
            fingerprint = n.fingerprint;
            max_sandboxes = n.max_sandboxes;
            last_seen_at = n.last_seen_at;
            connected = n.connected;
          })
          st.nodes
      else fresh ∷ st.nodes in
    record st { nodes = rows; node_pools = note_pool st.node_pools n.id n.pool now }

-- The rows, and how many of them the statement changed.
unfoldable pub mark_all_nodes_disconnected : Store → Store × ℕ
mark_all_nodes_disconnected st = (
  record st {
    nodes = update_where (λ n. n.connected) (λ n. record n { connected = false }) st.nodes;
  },
  length (retain (λ (n : Node). n.connected) st.nodes),
)

unfoldable pub set_node_agent : Store → String → String → String → String → Store
set_node_agent st id address cert_sha256 secret =
    update_node id
      (λ n. record n {
        agent_address = some address;
        agent_cert_sha256 = cert_sha256;
        agent_secret = secret;
        revoked = false;
      })
      st

unfoldable pub as_agent : Node → Option AgentNode
as_agent n = elim n.agent_address [
  | none ↦ none
  | some address ↦
      if n.revoked
      then none
      else some (record {
        id = n.id;
        address = address;
        cert_sha256 = n.agent_cert_sha256;
        secret = n.agent_secret;
      })
]

unfoldable pub agent_node : Store → String → Option AgentNode
agent_node st id = elim (find (node_is id) st.nodes) [ none ↦ none | some n ↦ as_agent n ]

unfoldable pub set_node_connected : Store → String → Bool → ℕ → Store
set_node_connected st id connected now =
    update_node id (λ n. record n { connected = connected; last_seen_at = now }) st

-- The fingerprints already in a pool. `DISTINCT` is left out: its one caller asks whether all are
-- the same as another.
unfoldable pub pool_fingerprints : Store → String → List String
pool_fingerprints st pool = fingerprints st.nodes
  where
    fingerprints : List Node → List String
    fingerprints [] = []
    fingerprints (n ∷ ns) =
        let rest = fingerprints ns in
        if pool_is pool n && not n.revoked then n.fingerprint ∷ rest else rest

unfoldable pub set_node_host : Store → String → HostInfo → Store
set_node_host st id host = update_node id (λ n. record n { host = some host }) st

unfoldable pub node_fingerprint : Store → String → Option String
node_fingerprint st id = elim (find (node_is id) st.nodes) [
  | none ↦ none
  | some n ↦ some n.fingerprint
]

unfoldable pub set_node_cert : Store → String → String → Store
set_node_cert st id cert_sha256 =
    update_node id (λ n. record n { cert_sha256 = some cert_sha256; revoked = false }) st

abbrev pub presents : String → Node → Bool
presents cert n = elim n.cert_sha256 [ none ↦ false | some c ↦ same c cert ]

unfoldable pub node_by_cert : Store → String → CertOwner
node_by_cert st cert_sha256 = elim (find (presents cert_sha256) st.nodes) [
  | none ↦ CertOwner.unknown
  | some n ↦ if n.revoked then CertOwner.revoked n.id else CertOwner.node n.id
]

unfoldable pub revoke_node : Store → String → Store × Bool
revoke_node st id = (
  update_node id (λ n. record n { revoked = true; connected = false }) st,
  any (node_is id) st.nodes,
)

unfoldable pub set_node_health : Store → String → ℕ → ℕ → ℕ → Store
set_node_health st id free_mib psi now =
    update_node id
      (λ n. record n {
        connected = true;
        last_seen_at = now;
        free_mib = free_mib;
        psi_some_avg10 = psi;
      })
      st

-- `ORDER BY pool, id`, text by its bytes.
abbrev pub node_le : Node → Node → Bool
node_le a b =
    if same a.pool b.pool then is_le (compare a.id b.id) else is_le (compare a.pool b.pool)

unfoldable pub list_nodes : Store → List Node
list_nodes st = sort_by node_le st.nodes
