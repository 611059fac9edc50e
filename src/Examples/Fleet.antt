-- ===== src/Examples/Fleet.antt =====
-- crates/sandstorm-core/src/master/api.rs (`create_sandbox`) on the small fleet.
use forkd.Prelude.{
  ℕ, zero, suc, ◌-◌, ◌≤◌, arith, ◌≡◌, refl, ◌⊎◌, inl, inr, String, Bool, true, false, Option, none,
  some, List, [], ◌∷◌, any,
}
use forkd.Master.Create.{NewSandbox, Texts}
use forkd.Master.Create.Place.{Placed, SpecView, spread}
use forkd.Master.Create.Batch.{Random, create_sandbox}
use forkd.Master.Create.Whole.{Whole, create_sandbox-Whole}
use forkd.Master.Create.Spread.{HasRoom, placed_at, spread_within_caps}
use forkd.Tier.{Tier, rank, tier_for_idle}
use forkd.Tier.Laws.{IsOrdered}
use forkd.Proto.{Command}
use forkd.Store.Sandboxes.{get_sandbox}
use forkd.Store.Sandboxes.Laws.{IsKeyed}
use forkd.Master.Handlers.{note_addr, ok, poll, verified}
use forkd.Master.Demotion.Settles.{sweeps, sweeps_settle}
use forkd.Master.Drive.{Driver, SyncResponse, batch_of, drive_round}
use forkd.Master.Drive.AsPolled.{drives_as_polled, report_of}
use forkd.Examples.{fleet, master, plain_sign, plain_specs, report, web_1}

abbrev pub texts : Texts
texts = record { as_bytes = λ s. 97 ∷ []; canonical = λ e. some e }

abbrev pub view : SpecView
view = record { is_pending = λ s. false; image_port = λ s. none }

abbrev letters : ℕ → String
letters zero = "x"
letters (suc zero) = "y"
letters _ = "z"

abbrev pub rand : Random
rand = record { for_id = letters; for_token = letters }

abbrev pub two_webs : NewSandbox
two_webs = record {
  id = none;
  template = some "web";
  snapshot_tag = none;
  n = some 2;
  pool = some "east";
  node_id = none;
  backend = none;
  volume = none;
  port = none;
  memory_limit_mib = none;
  egress = none;
  live_fork = none;
  hugepages = none;
}

create_sandbox-Whole_example : Whole master 2 (create_sandbox texts view rand master two_webs 700)
create_sandbox-Whole_example = create_sandbox-Whole texts view rand master two_webs 700

-- n2 carries one sandbox less, so it takes the first child, and n1 the second.
abbrev two_children : Placed
two_children = ("n2", "east") ∷ ("n1", "east") ∷ []

spread_out : spread master 700 2 "aaaaaaaa1" [] ≡ inl two_children
unfolding spread forkd.Master.Placement.pick_node_where forkd.Prelude.retain
    forkd.Store.Nodes.list_nodes forkd.Prelude.sort_by forkd.Prelude.insert_by forkd.Prelude.same
    forkd.Master.switching_to forkd.Maps.get forkd.Master.Placement.refuse
    forkd.Store.Sandboxes.count_sandboxes_on_node forkd.Master.default_admission forkd.Maps.put
    forkd.Maps.remove
spread_out = refl

spread_within_caps_example :
    (placed_at "n2" two_children ≡ 0)
    ⊎ HasRoom master 700 "aaaaaaaa1" "n2" (placed_at "n2" two_children)
spread_within_caps_example =
    spread_within_caps master 700 "aaaaaaaa1" 2 two_children "n2" spread_out

-- The driven node's report, which defers nothing.
abbrev told : SyncResponse
told = record { report = record report { deferred = [] }; retry_in_ms = none }

abbrev idle_driver : Driver String
idle_driver = record { batch = none; backoff = 250; up = true }

abbrev as_text : List (Command String) → String
as_text cs = ""

drives_as_polled_example :
    ((drive_round plain_specs plain_sign as_text
        (note_addr master "n1" (some "10.0.0.1"))
        "n1"
        (some told)
        1000
        0
        (λ st. st)
        1005
        idle_driver).0
      ≡ (poll plain_specs plain_sign master
          (verified "n1")
          (some "10.0.0.1")
          (report_of plain_specs plain_sign as_text "n1" told)
          1000
          0
          (λ st. st)
          1005
          5).0)
    × ((cs : List (Command String)) × ((poll plain_specs plain_sign master
            (verified "n1")
            (some "10.0.0.1")
            (report_of plain_specs plain_sign as_text "n1" told)
            1000
            0
            (λ st. st)
            1005
            5).1
          ≡ ok cs)
        × ((drive_round plain_specs plain_sign as_text
              (note_addr master "n1" (some "10.0.0.1"))
              "n1"
              (some told)
              1000
              0
              (λ st. st)
              1005
              idle_driver).1.batch
            ≡ batch_of cs))
drives_as_polled_example =
    drives_as_polled plain_specs plain_sign as_text master "n1" told 1000 0 (λ st. st) 1005 5
      idle_driver (some "10.0.0.1") refl refl

fleet-IsKeyed : IsKeyed fleet.sandboxes
unfolding any forkd.Prelude.same
fleet-IsKeyed = (refl, (refl, (refl, tt)))

default_policy-IsOrdered : IsOrdered master.idle
unfolding forkd.Tier.default_policy
default_policy-IsOrdered = record { frozen_first = omega arith; snapshot_first = omega arith }

web_1_here : get_sandbox master.store "web-1" ≡ some web_1
unfolding get_sandbox forkd.Prelude.find forkd.Prelude.same
web_1_here = refl

-- An hour after web-1 was last used.
sweeps_settle_example :
    (t : Tier) × (get_sandbox (sweeps master (5000 ∷ 5005 ∷ 5010 ∷ [])).store "web-1"
      ≡ some (record web_1 { tier = t }))
    × (rank (tier_for_idle master.idle (5000 - 100)) ≤ rank t)
sweeps_settle_example =
    sweeps_settle master 5000 5000 5005 5010 "web-1" web_1 fleet-IsKeyed default_policy-IsOrdered
      web_1_here (omega arith) (omega arith, omega arith, omega arith)
