-- ===== src/Store/Pools.antt =====
-- crates/sandstorm-core/src/state.rs: which pool each node is in and was in, and the move of a node
-- whose fingerprint changed. A fingerprint is ASCII, so the first bytes of it are its first characters.
pub mod Names
pub mod Rows
pub mod History
pub mod Homogeneous
use Prim.Native.String.{slice, len, ◌++◌}
use Prim.Native.Char.{code}
use forkd.Prelude.{
  ℕ, String, Bool, true, false, not, ◌&&◌, ◌||◌, Option, none, some, List, [], ◌∷◌, map, min, same,
  ◌==◌, if◌then◌else◌, all, find, retain, update_where,
}
use forkd.Store.{Node, NodeToken, PoolStretch, Sandbox, Store}
use forkd.Store.Sandboxes.{is_some}

abbrev pub is_open : String → PoolStretch → Bool
is_open node s = same s.node node && not (is_some s.until)

-- The pool that a node is in now, by the history.
unfoldable pub open_pool : List PoolStretch → String → Option String
open_pool ps node = elim (find (is_open node) ps) [ none ↦ none | some s ↦ some s.pool ]

abbrev in_it : Option String → String → Bool
in_it none pool = false
in_it (some p) pool = same p pool

-- Record that a node is in `pool` from now, closing where it was.
unfoldable pub note_pool : List PoolStretch → String → String → ℕ → List PoolStretch
unfolding open_pool
note_pool ps node pool now =
    let stretch : PoolStretch = record { node = node; pool = pool; since = now; until = none } in
    if in_it (open_pool ps node) pool
    then ps
    else stretch ∷ update_where (is_open node) (λ s. record s { until = some now }) ps

-- `pool.split('#').next()`.
unfoldable pub before_hash : String → String
before_hash String.[] = String.[]
before_hash (String.◌∷◌ c s) =
    let rest = before_hash s in if code c == b'#' then String.[] else String.◌∷◌ c rest

unfoldable pub fp8 : String → String
fp8 fp = slice fp 0 (min 8 (len fp))

-- `format!("{base}#{}", &fp[..8.min(fp.len())])`.
unfoldable pub derived_pool : String → String → String
derived_pool base fp = base ++ "#" ++ fp8 fp

abbrev pub node_is : String → Node → Bool
node_is id n = same n.id id

abbrev pub pool_is : String → Node → Bool
pool_is pool n = same n.pool pool

-- Whether every node of the pool `base` but `id` has the fingerprint; a revoked node is not asked.
unfoldable pub others_match : List Node → String → String → String → Bool
others_match nodes base id fp =
    all (λ n. same n.fingerprint fp)
      (retain (λ n. pool_is base n && not (node_is id n) && not n.revoked) nodes)

unfoldable pub target_pool : List Node → String → String → String → String
target_pool nodes base id fp = if others_match nodes base id fp then base else derived_pool base fp

-- The node's own row, and those of its sandboxes, moved.
unfoldable pub move_node : Store → String → String → String → ℕ → Store
move_node st id fp target now = record st {
  nodes = update_where (node_is id) (λ n. record n { fingerprint = fp; pool = target }) st.nodes;
  sandboxes =
      update_where (λ (s : Sandbox). same s.node_id id) (λ s. record s { pool = target })
        st.sandboxes;
  node_pools = note_pool st.node_pools id target now;
}

unfoldable pub note_all : List PoolStretch → List Node → String → ℕ → List PoolStretch
note_all ps [] pool now = ps
note_all ps (n ∷ ns) pool now = note_all (note_pool ps n.id pool now) ns pool now

-- The group that went ahead, brought back under the pool's name.
unfoldable pub bring_back : Store → String → String → ℕ → Store
bring_back st derived base now = record st {
  nodes = update_where (pool_is derived) (λ n. record n { pool = base }) st.nodes;
  node_pools = note_all st.node_pools (retain (pool_is derived) st.nodes) base now;
  sandboxes =
      update_where (λ (s : Sandbox). same s.pool derived) (λ s. record s { pool = base })
        st.sandboxes;
  node_tokens =
      update_where (λ (t : NodeToken). same t.pool derived) (λ t. record t { pool = base })
        st.node_tokens;
}

-- The rest of the transaction, for the node's row as it was. The second result is the move.
unfoldable pub refingerprint_row : Store → Node → String → ℕ → Store × Option (String × String)
refingerprint_row st n fp now =
    let base = before_hash n.pool in
    let derived = derived_pool base fp in
    let target = target_pool st.nodes base n.id fp in
    let moved = move_node st n.id fp target now in
    let after =
      if same target base && not (same derived base)
      then bring_back moved derived base now
      else moved in
    (after, if same n.pool target then none else some (n.pool, target))

unfoldable pub refingerprint_node : Store → String → String → ℕ → Store × Option (String × String)
refingerprint_node st id fp now = elim (find (node_is id) st.nodes) [
  | none ↦ (st, none)
  | some n ↦ if same n.fingerprint fp then (st, none) else refingerprint_row st n fp now
]
