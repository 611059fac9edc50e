-- ===== src/Examples/Wakes.antt =====
-- crates/sandstorm-core/src/node/wake.rs and node/mod.rs on a host with two sandboxes and a clock.
use forkd.Prelude.{
  Memᴰ, ◌↔◌, ℕ, suc, ◌+◌, ◌*◌, ◌≤◌, ◌<◌, ◌≡◌, ◌≢◌, refl, ◌⊎◌, inl, inr, String, Bool, true, false,
  Option, none, some, List, [], ◌∷◌, arith, any, same, ◌&&◌, Rising,
}
use forkd.Tier.{Tier, hot, frozen, snapshot, detached}
use forkd.Proto.{ObservedSandbox}
use forkd.Node.Admission.{HostReading}
use forkd.Node.Wakeups.{Demand, Wakeups, Ranked, victims, ranked, may_go, hold}
use forkd.Node.Wakeups.Victims.{IsSpare, victims_exactly, hotness}
use forkd.Node.Wakeups.Flight.{
  Event, begin, finished, forgotten, open_after, request, in_flight_stays, run,
}
use forkd.Node.Wakeups.Queue.{
  Action, Permits, acquired, all_free, count_in, count_out, finish_work, interleaved, try_acquire,
  wakes_are_counted,
}
use forkd.Node.Promotion.{
  Moment, Host, Promoted, failed, promote, pressure_poll, max_evictions, set_hot, brought_up,
}
use forkd.Node.Promotion.Rounds.{promote_ends}
use forkd.Node.Promotion.Moves.{Moves, Ends, promote_follows}
use Prim.Native.Nat.{compare}

-- A demand that only counts requests.
abbrev pub counts : Demand ℕ
counts = record { none_yet = 0; decayed = λ n t. n; add_one = λ n. suc n; compare_demand = compare }

abbrev pub nothing_seen : Wakeups ℕ
nothing_seen = record {
  seen = [];
  unreported = [];
  used = [];
  in_flight = [];
  fresh = [];
  demand = [];
  evicted = [];
  arrivals = [];
  prefetched = [];
}

abbrev pub seen_as : String → Tier → ObservedSandbox
seen_as id tier = record {
  id = id;
  tier = tier;
  serving = true;
  ip = none;
  net_index = none;
  egress = none;
}

abbrev pub both : List ObservedSandbox
both = seen_as "api" hot ∷ seen_as "web-2" frozen ∷ []

victims_exactly_example :
    ((any (same "api") (victims counts nothing_seen both "db" 7) ≡ true) ↔ (
      (o : ObservedSandbox) × Memᴰ o both × (o.id ≡ "api") × IsSpare counts nothing_seen "db" 7 o))
    × Rising hotness 0 (ranked counts nothing_seen both "db" 7)
victims_exactly_example = victims_exactly counts nothing_seen both "db" "api" 7

-- Two requests begin, the sandbox is forgotten, one request ends.
abbrev busy_day : List Event
busy_day = begin "api" ∷ request "api" 5 ∷ begin "api" ∷ forgotten "api" ∷ finished "api" ∷ []

in_flight_stays_example :
    any (same "api") (victims counts (run counts nothing_seen busy_day) both "db" 7) ≡ false
unfolding open_after same
in_flight_stays_example =
    in_flight_stays counts busy_day nothing_seen both "db" "api" 7 (omega arith)

-- A clock and the free memory; each sandbox that is put to disk gives 400 MiB back.
pub record Toy : Type 0 where
  pub time : ℕ
  pub free : ℕ

abbrev pub change_toy : String → Tier → Toy → Toy × Option String
change_toy id hot s = (s, none)
change_toy id _ s = (record s { free = s.free + 400 }, none)

abbrev pub toy : Host Toy ℕ String
toy = record {
  clock = λ s. s.time;
  reading = λ s. record { free_mib = s.free; swap_free_mib = 0; swap_total_mib = 0; psi = 0 };
  observe = λ s. inl both;
  tier_of = λ s id. inl (some frozen);
  busy = λ s id. same id "api";
  change = change_toy;
  sleep = λ d s. record s { time = s.time + d };
  meanwhile = λ m. m;
}

abbrev pub start_of : Moment Toy ℕ
start_of = record { host = record { time = 100; free = 200 }; wake = nothing_seen }

pub takes : (id : String) (t : Tier) (s : Toy) → s.time ≤ (change_toy id t s).0.time
takes id hot s = omega arith
takes id frozen s = omega arith
takes id snapshot s = omega arith
takes id detached s = omega arith

promote_ends_example :
    (r : Moment Toy ℕ × Promoted String) × (promote counts toy 5 512 800 0 "db" start_of ≡ some r)
promote_ends_example =
    promote_ends counts toy (λ d s. omega arith) (λ m. omega arith) takes 5 512 800 0 "db" start_of
      (omega arith)

abbrev came_to : Moment Toy ℕ × Promoted String
came_to = (
  record {
    host = record { time = 100; free = 600 };
    wake = record nothing_seen { evicted = ("web-2", 100) ∷ [] };
  },
  brought_up,
)

ran : promote counts toy 5 512 800 0 "db" start_of ≡ some came_to
unfolding promote forkd.Node.Admission.holding_back_at forkd.Node.Promotion.may_evict victims ranked
    forkd.Prelude.sort_by forkd.Prelude.retain same forkd.Node.Wakeups.protected forkd.Maps.get
    forkd.Prelude.insert_by forkd.Node.Promotion.out_of_reach forkd.Node.Wakeups.put_away
    forkd.Maps.put forkd.Maps.remove
ran = refl

promote_follows_example :
    ((e : String) × (toy.tier_of start_of.host "db" ≡ inr e) × (came_to ≡ (start_of, failed e)))
    ⊎ (((toy.tier_of start_of.host "db" ≡ inl (some hot))
          × (came_to ≡ set_hot counts toy "db" start_of))
        ⊎ ((t : Option Tier) × (toy.tier_of start_of.host "db" ≡ inl t)
            × (t ≢ some hot)
            × ((k : ℕ) × (n : Moment Toy ℕ) × Moves counts toy "db" k start_of n
                × (k ≤ max_evictions)
                × Ends counts toy 512 800 "db" n came_to)))
promote_follows_example = promote_follows counts toy 5 512 800 0 "db" start_of came_to ran

-- Three wakes for one permit, of which one may wait: the second waits, the third is turned away, and the second has
-- the permit when the first is done.
abbrev three_wakes : List Action
three_wakes =
    try_acquire ∷ try_acquire ∷ try_acquire ∷ count_in ∷ count_in ∷ count_out ∷ finish_work
    ∷ acquired ∷ []

abbrev one_runs : Permits
one_runs = record { free = 0; waiting = 1; running = 1; tried = 0; queued = 0; leaving = 1 }

took_turns : interleaved 1 (all_free 1) three_wakes ≡ some one_runs
unfolding interleaved forkd.Node.Wakeups.Queue.step
took_turns = refl

wakes_are_counted_example : (0 + 1 ≡ 1) × (0 ≤ 1) × (0 + 1 ≡ 0 → one_runs.waiting ≡ 0)
wakes_are_counted_example = wakes_are_counted 1 1 three_wakes one_runs took_turns
