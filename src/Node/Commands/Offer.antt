-- ===== src/Node/Commands/Offer.antt =====
-- crates/sandstorm-core/src/node/mod.rs (`run_one`): what a command is put off for, and how its outcome is
-- kept in the failure book.
use forkd.Prelude.{ℕ, suc, ◌+◌, ◌-◌, ◌/◌, Option, none, some, ltb, if◌then◌else◌}
use forkd.Maps.{get, put, remove}
use forkd.Tier.{hot, snapshot, tier_eq, warmer, is_serving}
use forkd.Proto.{Command, command_id, create, set_tier, destroy}
use forkd.Node.Starting.{add, forget as forget_start}
use forkd.Node.Waiting.{nanos_per_ms}
use forkd.Node.Wakeups.{Demand, evicted_for, in_grace, protected, started, forget}
use forkd.Node.Commands.Answered.{at_once}
use forkd.Node.Commands.Work.{work}
use forkd.Node.Commands.{
  Engine, NodeState, Limits, Failure, Step, Outcome, done, not_done, not_yet, applied, later,
  with_wake, clock_of, waited, wait_after, or_now, is_held, held_back_retry,
}
use forkd.Node.Commands.Answered.{at_once}
use forkd.Node.Commands.Work.{work}

module _ {S D E V : Type 0} (dem : Demand D) (rt : Engine S D E V) where
  abbrev State : Type 0
  State = NodeState S D E

  abbrev pub note_done : Command V → State → State
  note_done (create c) st =
      record (with_wake st (started dem st.moment.wake c.id (clock_of rt st))) {
        starting = add c.id (rt.memory_limit c.spec) (clock_of rt st / nanos_per_ms) st.starting;
      }
  note_done (set_tier id tier) st =
      if tier_eq tier hot then with_wake st (started dem st.moment.wake id (clock_of rt st)) else st
  note_done (destroy id net_index) st = with_wake st (forget dem st.moment.wake id)
  note_done _ st = st

  abbrev pub note_not_done : Command V → State → State
  note_not_done (create c) st = record st { starting = forget_start c.id st.starting }
  note_not_done _ st = st

  unfoldable pub succeed : Command V → State → State × Step
  succeed cmd st =
      (note_done cmd (record st { failing = remove (command_id cmd) st.failing }), applied)

  unfoldable pub fail : Command V → ℕ → Failure E → State → State × Step
  unfolding wait_after
  fail cmd now e st =
      let attempts = suc (or_now (get (command_id cmd) st.failing)) in
      let wait = wait_after attempts e in
      (
        note_not_done cmd (record st {
          failing =
              put (command_id cmd)
                (record {
                  attempts = attempts;
                  retry_at = now + wait;
                  error = e;
                  held_back = is_held e;
                })
                st.failing;
        }),
        later wait,
      )

  unfoldable pub settle : Command V → ℕ → State × Outcome E → State × Step
  settle cmd now (st, done) = succeed cmd st
  settle cmd now (st, not_done e) = fail cmd now e st
  settle cmd now (st, not_yet wait) = (st, later wait)

  -- How long the failure book still puts the command off.
  unfoldable pub backing_off : Command V → ℕ → State → Option ℕ
  backing_off cmd now st = elim (get (command_id cmd) st.failing) [
    | none ↦ none
    | some f ↦ if ltb now f.retry_at then some (f.retry_at - now) else none
  ]

  -- A sandbox put to disk to make room is not brought back on a view that predates that.
  unfoldable pub put_away_for : Command V → ℕ → State → Option ℕ
  put_away_for (set_tier id tier) now st =
      if warmer tier snapshot then evicted_for dem st.moment.wake id now else none
  put_away_for _ now st = none

  -- A sandbox that a request has reached is not made colder.
  unfoldable pub in_use_for : Command V → State → Option ℕ
  in_use_for (set_tier id tier) st =
      if is_serving tier then none else elim (in_grace dem st.moment.wake id (clock_of rt st)) [
        | some left ↦ some left
        | none ↦
            if protected dem st.moment.wake id (clock_of rt st) then some held_back_retry else none
      ]
  in_use_for _ st = none

  -- Holding the sandbox's lock. `none` when the rounds of a promotion were not enough.
  unfoldable pub under_lock : Limits → Command V → ℕ → State → Option (State × Step)
  unfolding work in_use_for
  under_lock l cmd now st = elim (in_use_for cmd st) [
    | some left ↦ some (st, later left)
    | none ↦ elim (work dem rt l cmd st) [ none ↦ none | some r ↦ some (settle cmd now r) ]
  ]

  unfoldable pub run_one : Limits → Command V → ℕ → State → Option (State × Step)
  unfolding backing_off put_away_for at_once under_lock
  run_one l cmd now st = elim (backing_off cmd now st) [
    | some wait ↦ some (st, later wait)
    | none ↦ elim (put_away_for cmd now st) [
      | some left ↦ some (st, later left)
      | none ↦ elim (at_once dem rt l cmd st) [
        | some r ↦ some r
        | none ↦ under_lock l cmd now (waited rt st)
      ]
    ]
  ]
