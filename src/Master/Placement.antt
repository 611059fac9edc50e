-- ===== src/Master/Placement.antt =====
-- crates/sandstorm-core/src/master/api.rs: admission and the choice of a node for new sandboxes. A
-- reason that the source gives in words is a constructor. Counts of sandboxes do not reach 2^32.
pub mod Loop
pub mod Least
use Prim.Native.String.{◌++◌}
use text.Mathlib.Text.{starts_with}
use forkd.Prelude.{
  ℕ, ◌+◌, String, Bool, true, false, not, ◌&&◌, ◌||◌, Option, none, some, List, [], ◌∷◌,
  ◌++◌ as list_append, leb, ltb, same, any, find, retain, if◌then◌else◌,
}
use forkd.Proto.{HostInfo}
use forkd.Store.{Node, Store}
use forkd.Store.Nodes.{list_nodes}
use forkd.Store.Sandboxes.{count_sandboxes_on_node, is_some}
use forkd.Backend.{BackendKind, backend_eq, backend_of_engine}
use forkd.Master.{Admission, MasterState, get, can_start, switching_to}

pub data Refusal : Type 0 where
  at_cap : (load cap : ℕ) → Refusal
  low_memory : (free floor : ℕ) → Refusal
  pressure : (psi ceiling : ℕ) → Refusal
  restarting : BackendKind → Refusal
  over_cap : (load batch cap : ℕ) → Refusal

-- Why this node cannot take another sandbox, if it cannot.
unfoldable pub refuse : Admission → Node → ℕ → Option Refusal
refuse a n load =
    if ltb 0 n.max_sandboxes && leb n.max_sandboxes load
    then some (at_cap load n.max_sandboxes)
    else if ltb 0 n.free_mib && ltb n.free_mib a.min_free_mib
    then some (low_memory n.free_mib a.min_free_mib)
    else if ltb a.max_psi_avg10 n.psi_some_avg10
    then some (pressure n.psi_some_avg10 a.max_psi_avg10)
    else none

pub data Pick : Type 0 where
  picked : Node → Pick
  too_loaded : List (String × Refusal) → Pick
  not_connected : Pick
  no_template : Pick

abbrev pub or_zero : Option ℕ → ℕ
or_zero none = 0
or_zero (some n) = n

-- `best.is_none_or(|(_, b)| load < *b)`.
abbrev beats : ℕ → Option (Node × ℕ) → Bool
beats load none = true
beats load (some (_, b)) = ltb load b

unfoldable pub pick_result : Option (Node × ℕ) × List (String × Refusal) → Pick
pick_result (some (n, _), refused) = picked n
pick_result (none, []) = not_connected
pick_result (none, r ∷ rs) = too_loaded (r ∷ rs)

module _ {V : Type 0} (st : MasterState V) (now : ℕ) (extra : List (String × ℕ))
    (batch_size : ℕ) where
  -- How many sandboxes the node carries, those decided in this request included.
  unfoldable pub load_of : Node → ℕ
  load_of n = count_sandboxes_on_node st.store n.id + or_zero (get n.id extra)

  -- The reasons of the loop's body to pass over a node, in its order.
  unfoldable pub passed_over : Node → Option Refusal
  unfolding load_of
  passed_over n = elim (switching_to st now n.id) [
    | some to ↦ some (restarting to)
    | none ↦ elim (refuse st.admit n (load_of n)) [
      | some why ↦ some why
      | none ↦
          if ltb 0 n.max_sandboxes && ltb n.max_sandboxes (load_of n + batch_size)
          then some (over_cap (load_of n) batch_size n.max_sandboxes)
          else none
    ]
  ]

  unfoldable pub pick_loop :
      List Node
      → Option (Node × ℕ)
      → List (String × Refusal)
      → Option (Node × ℕ) × List (String × Refusal)
  unfolding passed_over
  pick_loop [] best refused = (best, refused)
  pick_loop (n ∷ ns) best refused = elim (passed_over n) [
    | some why ↦ pick_loop ns best (list_append refused ((n.id, why) ∷ []))
    | none ↦ pick_loop ns (if beats (load_of n) best then some (n, load_of n) else best) refused
  ]

  unfoldable pub pick_node_where : (Node → Bool) → Pick
  unfolding pick_loop pick_result
  pick_node_where fits =
      pick_result (pick_loop (retain (λ n. n.connected && fits n) (list_nodes st.store)) none [])

module _ {V : Type 0} (st : MasterState V) (pool : String) (backend : Option BackendKind) where
  unfoldable pub on_backend : Node → Bool
  on_backend n = elim backend [
    | none ↦ true
    | some b ↦ elim n.host [
      | none ↦ false
      | some h ↦ elim (backend_of_engine h.engine) [ none ↦ false | some k ↦ backend_eq k b ]
    ]
  ]

  -- In the pool by name, or in one of its host groups.
  unfoldable pub in_pool : Node → Bool
  unfolding on_backend
  in_pool n = (same n.pool pool || starts_with n.pool (pool ++ "#")) && on_backend n

-- The least loaded admitting node of a pool that can start the template.
unfoldable pub pick_node :
    {V : Type 0} (st : MasterState V) (now : ℕ) → String → Option BackendKind → String → ℕ → Pick
unfolding pick_node_where
pick_node st now pool backend template count =
    let up = retain (λ n. n.connected && in_pool st pool backend n) (list_nodes st.store) in
    if any (λ (n : Node). true) up && not (any (λ n. can_start st n.id template) up)
    then no_template
    else pick_node_where st now [] count
        (λ n. in_pool st pool backend n && can_start st n.id template)
