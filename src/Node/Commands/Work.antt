-- ===== src/Node/Commands/Work.antt =====
-- crates/sandstorm-core/src/node/mod.rs (`admit`, `holding_back`, `run_one`): the work on a sandbox, under
-- its lock.
use forkd.Prelude.{
  ℕ, suc, ◌-◌, ◌/◌, ◌&&◌, Option, none, some, ◌∷◌, any, ltb, same, max, if◌then◌else◌,
}
use forkd.Proto.{Command, CreateArgs, command_id, create, set_egress, set_tier, destroy}
use forkd.Node.Admission.{HostReading, holding_back_at}
use forkd.Node.Starting.{promise, owed_mib, forget as forget_start}
use forkd.Node.Waiting.{nanos_per_ms}
use forkd.Node.Wakeups.{Demand}
use forkd.Node.Promotion.{Promoted, brought_up, failed, refused, max_evictions, promote}
use forkd.Node.Commands.{
  Engine, NodeState, Limits, Failure, Outcome, Fetched, done, not_done, not_yet, held,
  changing_backend, other, pending, ready, gone, with_host, clock_of, to_hot, is_create,
  fetch_recheck,
}

module _ {S D E V : Type 0} (dem : Demand D) (rt : Engine S D E V) where
  abbrev State : Type 0
  State = NodeState S D E

  -- The free memory less what sandboxes still starting are owed, but never 0, which means a failed read.
  unfoldable pub less_owed : HostReading → ℕ → HostReading
  less_owed r owed =
      if ltb 0 r.free_mib then record r { free_mib = max (r.free_mib - owed) 1 } else r

  unfoldable pub holding_back : Limits → Command V → State → State × Option (Failure E)
  unfolding less_owed
  holding_back l cmd st =
      let (left, owed) =
        owed_mib (clock_of rt st / nanos_per_ms) (rt.memory_mib st.moment.host) st.starting in
      let reading = less_owed (rt.base.reading st.moment.host) owed in
      let why = holding_back_at l.admit_min_free_mib l.admit_max_psi cmd reading in
      (record st { starting = left }, elim why [ none ↦ none | some w ↦ some (held w owed) ])

  abbrev promised : Command V → State → State
  promised (create c) st = record st {
    starting = promise c.id (rt.memory_limit c.spec) (clock_of rt st / nanos_per_ms) st.starting;
  }
  promised _ st = st

  unfoldable pub admit : Limits → Command V → State → State × Option (Failure E)
  unfolding holding_back
  admit l cmd st =
      let (s, why) = holding_back l cmd st in
      elim why [ some w ↦ (s, some w) | none ↦ (promised cmd s, none) ]

  abbrev pub of_result : Option E → Outcome E
  of_result none = done
  of_result (some e) = not_done (other e)

  abbrev of_promotion : Promoted E → Outcome E
  of_promotion brought_up = done
  of_promotion (refused why) = not_done (held why 0)
  of_promotion (failed e) = not_done (other e)

  -- A fork of a tag of another node needs its image here first.
  abbrev fetched : CreateArgs V → S → S × Fetched E
  fetched c s = elim c.from_tag [
    | none ↦ (s, ready)
    | some tag ↦ elim c.fetch [ none ↦ (s, ready) | some from ↦ rt.fetch tag from s ]
  ]

  unfoldable pub create_now : CreateArgs V → State → State × Outcome E
  create_now c st =
      let (s, image) = fetched c st.moment.host in
      elim image [
        | pending ↦ (
          record (with_host st s) { starting = forget_start c.id st.starting },
          not_yet fetch_recheck,
        )
        | gone e ↦ (with_host st s, not_done (other e))
        | ready ↦ let (t, out) = rt.create_one c s in (with_host st t, of_result out)
      ]

  unfoldable pub perform : Command V → State → State × Outcome E
  unfolding create_now
  perform (create c) st = create_now c st
  perform (set_egress id egress) st =
      let (s, out) = rt.egress_of id egress st.moment.host in (with_host st s, of_result out)
  perform (set_tier id tier) st =
      let (s, out) = rt.base.change id tier st.moment.host in (with_host st s, of_result out)
  perform (destroy id net_index) st = if any (same id) st.destroying then (st, done) else (
    record (with_host st (rt.quiesce_net id net_index st.moment.host)) {
      destroying = id ∷ st.destroying;
    },
    done,
  )
  perform _ st = (st, done)

  -- A promotion with no patience takes so many rounds at most.
  abbrev pub rounds_without_patience : ℕ
  rounds_without_patience = suc max_evictions

  unfoldable pub work : Limits → Command V → State → Option (State × Outcome E)
  unfolding admit perform
  work l cmd st =
      if to_hot cmd
      then elim (promote dem rt.base rounds_without_patience l.admit_min_free_mib l.wake_max_psi 0
          (command_id cmd) st.moment) [
            | none ↦ none
            | some (m, r) ↦ some (record st { moment = m }, of_promotion r)
          ]
      else (let (s, why) = admit l cmd st in
          elim why [
            | some e ↦ some (s, not_done e)
            | none ↦
                if s.switching && is_create cmd
                then some (s, not_done changing_backend)
                else some (perform cmd s)
          ])
