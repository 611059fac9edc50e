-- ===== src/Master/Branches.antt =====
-- crates/sandstorm-core/src/master/api.rs (`branch_sandbox`, `snapshot_info`, `delete_snapshot`): tags that
-- sandboxes are forked from. What the state has become while the node writes the image, and the node's answer, are
-- arguments.
pub mod Rows
pub mod Forks
use forkd.Prelude.{
  ℕ, String, Bool, true, false, not, ◌&&◌, ◌||◌, Option, none, some, List, ◌⊎◌, inl, inr, ltb, same,
  if◌then◌else◌,
}
use forkd.Tier.{Tier, hot, tier_eq}
use forkd.Proto.{Command, CommandResult, ℤ, pos, branch}
use forkd.Tag.{is_safe}
use forkd.Store.{Sandbox, SnapshotTag, Store}
use forkd.Store.Nodes.{node_fingerprint}
use forkd.Store.Sandboxes.{children_of, get_sandbox}
use forkd.Store.Snapshots.{delete_snapshot, get_snapshot, put_snapshot, set_snapshot_fingerprint}
use forkd.Master.{MasterState}
use forkd.Master.Handlers.{queue_exec}
use forkd.Master.Create.{Texts}

pub record BranchReq : Type 0 where
  pub tag : String
  pub mode : Option String
  pub live : Option Bool
  pub wait : Option Bool
  pub diff : Option Bool
  pub measure_diff : Option Bool

pub data BranchError : Type 0 where
  live_removed wait_removed diff_removed unsafe_name tag_exists no_sandbox : BranchError
  not_hot : Tier → BranchError
  no_answer : BranchError
  failed_on : (node stderr : String) → BranchError

abbrev is_yes : Option Bool → Bool
is_yes none = false
is_yes (some b) = b

abbrev is_live : Option String → Bool
is_live none = false
is_live (some m) = same m "live"

abbrev is_set : {A : Type 0} → Option A → Bool
is_set none = false
is_set (some a) = true

abbrev pub is_zero : ℤ → Bool
is_zero (pos n) = not (ltb 0 n)
is_zero _ = false

-- What the request itself may be refused for.
unfoldable pub refused_fields : Texts → BranchReq → Option BranchError
refused_fields t req =
    if is_live req.mode || is_yes req.live
    then some live_removed
    else if is_set req.wait
    then some wait_removed
    else if is_yes req.diff || is_yes req.measure_diff
    then some diff_removed
    else if not (is_safe (t.as_bytes req.tag))
    then some unsafe_name
    else none

-- The running sandbox to checkpoint, under a tag that is free.
unfoldable pub parent_of : Store → String → BranchReq → Sandbox ⊎ BranchError
parent_of st id req = elim (get_snapshot st req.tag) [
  | some s ↦ inr tag_exists
  | none ↦ elim (get_sandbox st id) [
    | none ↦ inr no_sandbox
    | some sb ↦ if tier_eq sb.tier hot then inl sb else inr (not_hot sb.tier)
  ]
]

-- The tag, once the node has written the image, and the fingerprint it can be restored on.
unfoldable pub record_branch : Store → SnapshotTag → Store
record_branch st snap =
    let kept = put_snapshot st snap in
    elim (node_fingerprint kept snap.node_id) [
      | none ↦ kept
      | some fp ↦ set_snapshot_fingerprint kept snap.tag fp
    ]

abbrev pub snap_of : Sandbox → BranchReq → ℕ → CommandResult → SnapshotTag
snap_of sb req now r = record {
  tag = req.tag;
  node_id = sb.node_id;
  template = sb.template;
  from_sandbox = some sb.id;
  created_at = now;
  size_bytes = r.size_bytes;
  port = sb.port;
}

module _ {V : Type 0} (t : Texts) where
  -- The node's answer, `none` when it did not come in time.
  unfoldable pub branch_answered :
      MasterState V
      → Sandbox
      → BranchReq
      → Option CommandResult
      → ℕ
      → MasterState V × (SnapshotTag ⊎ BranchError)
  unfolding record_branch
  branch_answered st sb req none now = (st, inr no_answer)
  branch_answered st sb req (some r) now =
      if is_zero r.exit_code
      then (let snap = snap_of sb req now r in
          (record st { store = record_branch st.store snap }, inl snap))
      else (st, inr (failed_on sb.node_id r.stderr))

  unfoldable pub branch_sandbox :
      MasterState V
      → (id : String) → BranchReq
      → (result_id : String)
      → (later : MasterState V → MasterState V) (answer : Option CommandResult) (now : ℕ)
      → MasterState V × (SnapshotTag ⊎ BranchError)
  unfolding refused_fields parent_of branch_answered
  branch_sandbox st id req result_id later answer now = elim (refused_fields t req) [
    | some e ↦ (st, inr e)
    | none ↦ elim (parent_of st.store id req) [
      | inr e ↦ (st, inr e)
      | inl sb ↦
          let asked = queue_exec st sb.node_id (branch id req.tag result_id) in
          branch_answered (later asked) sb req answer now
    ]
  ]

-- A tag and how many sandboxes are still forked from it.
unfoldable pub snapshot_info : Store → String → Option (SnapshotTag × ℕ)
snapshot_info st tag = elim (get_snapshot st tag) [
  | none ↦ none
  | some snap ↦ some (snap, children_of st tag)
]

pub data Dropped : Type 0 where
  dropped no_such_tag : Dropped
  in_use_by : ℕ → Dropped

-- One image serves every child, so a tag with children is kept.
unfoldable pub drop_snapshot : Store → String → Store × Dropped
drop_snapshot st tag =
    if ltb 0 (children_of st tag)
    then (st, in_use_by (children_of st tag))
    else (let (after, was_there) = delete_snapshot st tag in
        (after, if was_there then dropped else no_such_tag))
