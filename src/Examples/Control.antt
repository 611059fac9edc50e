-- ===== src/Examples/Control.antt =====
-- crates/sandstorm-core/src/master/ on the fleet and on the report of n1.
use forkd.Prelude.{
  ℕ, ◌+◌, ◌-◌, ◌≤◌, ◌≡◌, refl, ◌≢◌, ◌⊎◌, String, Bool, true, false, not, ◌&&◌, Option, none, some,
  List, [], ◌∷◌, ◌++◌, arith, any, all, same, same_iff, if◌then◌else◌,
}
use forkd.Tier.{hot, tier_eq}
use forkd.Proto.{Command}
use forkd.Store.{Node, Sandbox, Store}
use forkd.Store.Sandboxes.{get_sandbox}
use forkd.Store.Sandboxes.Laws.{IsKeyed}
use forkd.Master.{MasterState, switching_to}
use forkd.Master.Reports.{apply_evictions, observes}
use forkd.Master.Reports.Evictions.{Evicted, apply_evictions-Evicted}
use forkd.Master.Placement.{load_of, over_cap, pick_node_where, picked, too_loaded}
use forkd.Master.Placement.Loop.{load}
use forkd.Master.Placement.Least.{MayTake, pick_node_where_least}
use forkd.Master.Reconcile.Diff.{diff}
use forkd.Master.Reconcile.Kinds.{creates_it, destroys_it, moves_it, to_create, to_move, wants}
use forkd.Master.Reconcile.Desired.{diff_creates, diff_destroys, diff_moves}
use forkd.Master.Handlers.{queue_exec, take_execs}
use forkd.Master.Handlers.Polls.{exec_once}
use forkd.Store.Sandboxes.{count_sandboxes_on_node}
use forkd.Backend.{firecracker}
use forkd.Master.Switch.{asked, count_snapshots_on_node, not_empty, refused, set_node_backend}
use forkd.Master.Switch.Hold.{asked_holds}
use forkd.Examples.{fleet, ls, master, node_at, plain_sign, plain_specs, report, web_1}

abbrev answered : MasterState String × List (Command String)
answered = diff plain_specs plain_sign master report 1000

-- The answer destroys what nobody wants, creates what is missing, and moves what is at another tier.
answered_run :
    (any (destroys_it "old") answered.1 ≡ true)
    × (any (creates_it "web-2") answered.1 ≡ true)
    × (any (moves_it "web-1" hot) answered.1 ≡ true)
unfolding diff any forkd.Master.Reconcile.Diff.pulls_for forkd.Master.Reconcile.wanted_commands
    forkd.Store.Sandboxes.sandboxes_on_node forkd.Prelude.sort_by forkd.Prelude.retain
    forkd.Master.Reconcile.Diff.note_report forkd.Master.Reconcile.note_ips
    forkd.Store.Nodes.set_node_health forkd.Store.Nodes.update_node same forkd.Prelude.insert_by
    forkd.Master.Reconcile.commands_for forkd.Prelude.find forkd.Store.Snapshots.get_template
    forkd.Master.Reconcile.destroys
answered_run = (refl, refl, refl)

diff_destroys_example : any (destroys_it "old") answered.1 ≡ (
    any (observes "old") report.observed && not (any (wants "n1" "old") answered.0.store.sandboxes))
diff_destroys_example = diff_destroys plain_specs plain_sign master report 1000 "old"

diff_creates_example :
    any (creates_it "web-2") answered.1
    ≡ any
        (λ w. wants "n1" "web-2" w && to_create answered.0.store report w)
        answered.0.store.sandboxes
diff_creates_example = diff_creates plain_specs plain_sign master report 1000 "web-2"

diff_moves_example :
    any (moves_it "web-1" hot) answered.1
    ≡ any
        (λ w. wants "n1" "web-1" w && tier_eq w.tier hot && to_move report w)
        answered.0.store.sandboxes
diff_moves_example = diff_moves plain_specs plain_sign master report 1000 "web-1" hot

abbrev anywhere : Node → Bool
anywhere n = true

-- n2 carries one sandbox, n1 two.
pick_run : pick_node_where master 0 [] 1 anywhere ≡ picked (node_at "n2" 4)
unfolding pick_node_where forkd.Prelude.retain forkd.Store.Nodes.list_nodes forkd.Prelude.sort_by
    forkd.Prelude.insert_by same switching_to forkd.Master.get forkd.Master.Placement.refuse
    forkd.Store.Sandboxes.count_sandboxes_on_node forkd.Master.default_admission
pick_run = refl

full_run :
    pick_node_where master 0 [] 9 anywhere
    ≡ too_loaded (("n1", over_cap 2 9 4) ∷ ("n2", over_cap 1 9 4) ∷ [])
unfolding pick_node_where forkd.Prelude.retain forkd.Store.Nodes.list_nodes forkd.Prelude.sort_by
    forkd.Prelude.insert_by same switching_to forkd.Master.get forkd.Master.Placement.refuse
    forkd.Store.Sandboxes.count_sandboxes_on_node forkd.Master.default_admission
full_run = refl

pick_full : (n : Node) → pick_node_where master 0 [] 9 anywhere ≢ picked n
pick_full n e = cc (e, full_run)

pick_node_where_least_example :
    MayTake master 0 [] 1 anywhere (node_at "n2" 4)
    × ((m : Node)
        → MayTake master 0 [] 1 anywhere m
        → load master 0 [] 1 (node_at "n2" 4) ≤ load master 0 [] 1 m)
pick_node_where_least_example =
    pick_node_where_least master 0 [] 1 anywhere (node_at "n2" 4) pick_run

web_1_run : get_sandbox fleet "web-1" ≡ some web_1
unfolding get_sandbox forkd.Prelude.find same
web_1_run = refl

fleet-IsKeyed : IsKeyed fleet.sandboxes
unfolding any same
fleet-IsKeyed = (refl, (refl, (refl, tt)))

apply_evictions-Evicted_example :
    (s' : Sandbox) × (get_sandbox (apply_evictions fleet report) "web-1" ≡ some s')
    × Evicted report web_1 s'
apply_evictions-Evicted_example = apply_evictions-Evicted fleet report "web-1" web_1 web_1_run

abbrev none_held : String → Bool
none_held id = false

n1-ne-n2 : ◌≢◌ {A = String} "n1" "n2"
unfolding same
n1-ne-n2 e = ground (arith, (same_iff "n1" "n2").1 e)

exec_once_example :
    ((take_execs (queue_exec master "n1" ls) "n1").1 ≡ (take_execs master "n1").1 ++ (ls ∷ []))
    × ((take_execs (take_execs master "n1").0 "n1").1 ≡ [])
    × ((take_execs (queue_exec master "n1" ls) "n2").1 ≡ (take_execs master "n2").1)
exec_once_example = exec_once master "n1" ls "n2" n1-ne-n2

abbrev empty_node : MasterState String
empty_node = record master { store = record fleet { nodes = node_at "n3" 4 ∷ [] } }

switch_run : (set_node_backend empty_node "n3" firecracker "r1" 1000).1 ≡ asked
unfolding set_node_backend forkd.Master.get forkd.Prelude.retain forkd.Master.Switch.judge
    forkd.Prelude.find forkd.Store.Nodes.list_nodes forkd.Prelude.sort_by forkd.Prelude.insert_by
    same count_sandboxes_on_node count_snapshots_on_node forkd.Master.Switch.backend_on any
switch_run = refl

asked_holds_example :
    (count_sandboxes_on_node empty_node.store "n3" ≡ 0)
    × (count_snapshots_on_node empty_node.store "n3" ≡ 0)
    × (switching_to (set_node_backend empty_node "n3" firecracker "r1" 1000).0 2000 "n3"
        ≡ some firecracker)
asked_holds_example =
    asked_holds empty_node "n3" firecracker "r1" 1000 2000 (omega arith) switch_run

-- n1 holds sandboxes.
switch_refused_run :
    (set_node_backend master "n1" firecracker "r1" 1000).1 ≡ refused (not_empty 2 0)
unfolding set_node_backend forkd.Master.get forkd.Prelude.retain forkd.Master.Switch.judge
    forkd.Prelude.find forkd.Store.Nodes.list_nodes forkd.Prelude.sort_by forkd.Prelude.insert_by
    same count_sandboxes_on_node count_snapshots_on_node
switch_refused_run = refl

switch_refused : (set_node_backend master "n1" firecracker "r1" 1000).1 ≢ asked
switch_refused e = cc (e, switch_refused_run)
