-- ===== src/Examples/Hosts.antt =====
-- crates/sandstorm-core/src/node/ on readings of a host and on batches of commands.
use forkd.Prelude.{
  ℕ, suc, ◌+◌, ◌-◌, ◌*◌, ◌/◌, ◌≤◌, ◌<◌, ◌≡◌, refl, ◌↔◌, ◌⊎◌, String, Bool, true, false, Option,
  none, some, List, [], ◌∷◌, ◌++◌, Memᴰ, arith, ltb, all, any,
}
use forkd.Tier.{hot}
use forkd.Proto.{Command, Deferred, set_tier}
use forkd.Node.Admission.{HostReading, holding_back_at}
use forkd.Node.Admission.Floor.{HasRoom, BringsUp, runs_exactly}
use forkd.Node.Waiting.{hold_for, leave_out_deferred, still_deferred}
use forkd.Node.Waiting.Due.{IsMap, hold_for_bounds, not_before_due}
use forkd.Node.Starting.{Starting, add, promise}
use forkd.Examples.{ls, report}

abbrev wake : Command String
wake = set_tier "web-2" hot

abbrev short : HostReading
short = record { free_mib = 300; swap_free_mib = 100; swap_total_mib = 1000; psi = 20 }

runs_exactly_example :
    (holding_back_at 512 800 wake short ≡ none) ↔ ((¬ BringsUp wake) ⊎ HasRoom 512 800 short)
runs_exactly_example = runs_exactly 512 800 wake short

-- web-2 is due 5.5 ms from now.
abbrev waiting : List (String × ℕ)
waiting = ("web-2", 6500000) ∷ []

waiting-IsMap : IsMap waiting
unfolding any
waiting-IsMap = (refl, tt)

told : report.deferred ≡ (still_deferred waiting 1000000).1
unfolding still_deferred forkd.Prelude.retain
told = refl

hold_for_bounds_example :
    (hold_for waiting 25000000 1000000 ≤ 25000000)
    × ((e : String × ℕ) → Memᴰ e waiting → hold_for waiting 25000000 1000000 ≤ e.1 - 1000000)
hold_for_bounds_example = hold_for_bounds waiting 25000000 1000000

-- After 6 ms the command goes out.
sent : leave_out_deferred (wake ∷ ls ∷ []) report 6000000 ≡ wake ∷ ls ∷ []
unfolding leave_out_deferred forkd.Prelude.retain forkd.Prelude.same forkd.Proto.command_id
sent = refl

kept : Memᴰ wake (leave_out_deferred (wake ∷ ls ∷ []) report 6000000)
kept = rw sent (Memᴰ.head refl)

not_before_due_example : 6500000 ≤ 1000000 + 6000000
unfolding forkd.Proto.command_id
not_before_due_example =
    not_before_due waiting 1000000 6000000 6500000 report (wake ∷ ls ∷ []) wake waiting-IsMap
      (Memᴰ.head refl) (omega arith) told kept

abbrev growing : Starting
growing = promise "next" none 1000 (add "big" (some 1216) 0 [])

abbrev used : String → Option ℕ
used id = some 16
