-- ===== src/Examples/Branching.antt =====
-- crates/sandstorm-core/src/master/api.rs (`branch_sandbox`) on the small fleet, and a fork of the tag.
use forkd.Prelude.{
  ℕ, ◌≡◌, refl, String, Bool, true, false, Option, none, some, List, [], ◌∷◌, ◌⊎◌, inl, inr,
  if◌then◌else◌,
}
use forkd.Tier.{hot, tier_eq}
use forkd.Proto.{CommandResult, pos}
use forkd.Store.{Sandbox, SnapshotTag}
use forkd.Store.Nodes.{agent_node, node_fingerprint}
use forkd.Store.Sandboxes.{get_sandbox}
use forkd.Store.Snapshots.{get_snapshot}
use forkd.Master.{MasterState}
use forkd.Master.Create.{NewSandbox, Wanted}
use forkd.Master.Create.Place.{is_there, like, on_node, place_for}
use forkd.Master.Branches.{BranchError, BranchReq, snap_of}
use forkd.Master.Branches.Forks.{branch_then_fork, branched}
use forkd.Examples.{closed, master, web_1}
use forkd.Examples.Fleet.{texts, two_webs, view}

abbrev base_of_web : BranchReq
base_of_web = record {
  tag = "base";
  mode = none;
  live = some false;
  wait = none;
  diff = none;
  measure_diff = none;
}

abbrev written : CommandResult
written = record { result_id = "r1"; stdout = ""; stderr = ""; exit_code = pos 0; size_bytes = 64 }

abbrev base : SnapshotTag
base = snap_of web_1 base_of_web 800 written

abbrev after : MasterState String × (SnapshotTag ⊎ BranchError)
after = branched texts master "web-1" base_of_web "r1" (λ st. st) (some written) 800

made : after.1 ≡ inl base
unfolding forkd.Master.Branches.branch_sandbox forkd.Tag.is_safe forkd.Prelude.any get_snapshot
    forkd.Prelude.find get_sandbox forkd.Prelude.same
made = refl

known : node_fingerprint after.0.store "n1" ≡ some "aaaaaaaa1"
unfolding node_fingerprint forkd.Prelude.find forkd.Master.Branches.branch_sandbox forkd.Tag.is_safe
    forkd.Prelude.any get_snapshot get_sandbox forkd.Prelude.same forkd.Store.Snapshots.put_snapshot
    forkd.Master.Handlers.queue_exec forkd.Master.wake_node
    forkd.Store.Snapshots.set_snapshot_fingerprint
known = refl

abbrev forks : NewSandbox
forks = record two_webs { template = none; snapshot_tag = some "base" }

abbrev wanted : Wanted
wanted = record {
  template = "";
  from_tag = some "base";
  egress = closed;
  count = 2;
  backend = none;
}

branch_then_fork_example :
    (sb : Sandbox) × (get_snapshot master.store "base" ≡ none)
    × (get_sandbox master.store "web-1" ≡ some sb)
    × (tier_eq sb.tier hot ≡ true)
    × (place_for after.0 view forks wanted
        ≡ inl (
          sb.template,
          (if is_there (agent_node after.0.store sb.node_id)
              then like "aaaaaaaa1" "base"
              else on_node sb.node_id),
          sb.port,
        ))
branch_then_fork_example =
    branch_then_fork texts master "web-1" base_of_web "r1" (λ st. st) (some written) 800 view base
      "aaaaaaaa1" forks wanted made known refl refl
