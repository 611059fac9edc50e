-- ===== src/Node/Commands/Returns.antt =====
-- crates/sandstorm-core/src/node/mod.rs (`run_one`): the failure book's waits.
use forkd.Prelude.{
  ℕ, suc, ◌+◌, ◌-◌, ◌*◌, ◌≤◌, ◌<◌, ◌≡◌, refl, ◌∙◌, true, none, some, arith, ltb, lt→ltb,
  if◌then◌else◌,
}
use forkd.Maps.{get, get-put_self}
use forkd.Proto.{
  Command, command_id, create, pull_template, set_egress, set_tier, destroy, branch, drop_tag, exec,
  set_backend,
}
use forkd.Node.Admission.{backoff_for}
use forkd.Node.Wakeups.{Demand, nanos_per_s}
use forkd.Node.Commands.{
  Engine, NodeState, Limits, Failure, later, wait_after, is_held, held_back_retry, or_now,
}
use forkd.Node.Commands.Offer.{run_one, backing_off, fail, note_not_done}

module _ {S D E V : Type 0} (dem : Demand D) (rt : Engine S D E V) where
  -- What the failure book writes down for a command that fails now.
  abbrev pub put_off : Command V → Failure E → NodeState S D E → ℕ
  put_off cmd e st = wait_after (suc (or_now (get (command_id cmd) st.failing))) e

  note_not_done-failing :
      (cmd : Command V) (st : NodeState S D E) → (note_not_done dem rt cmd st).failing ≡ st.failing
  note_not_done-failing cmd st =
      elim cmd as (λ c. (note_not_done dem rt c st).failing ≡ st.failing) [
        | create c ↦ refl
        | pull_template name image attempt ↦ refl
        | set_egress id egress ↦ refl
        | set_tier id tier ↦ refl
        | destroy id net_index ↦ refl
        | branch id tag result_id ↦ refl
        | drop_tag tag ↦ refl
        | exec exec_id id args timeout_secs ↦ refl
        | set_backend backend result_id ↦ refl
      ]

  fail-backing_off :
      (cmd next : Command V) (e : Failure E) (now t : ℕ) (st : NodeState S D E)
      → command_id next ≡ command_id cmd
      → backing_off dem rt next t (fail dem rt cmd now e st).0
        ≡ (if ltb t (now + put_off cmd e st) then some (now + put_off cmd e st - t) else none)
  unfolding fail backing_off
  fail-backing_off cmd next e now t st same_id =
      rw
        (
          backing_off,
          same_id,
          note_not_done-failing cmd _,
          get-put_self (command_id cmd) _ st.failing,
        )
        refl

  put_off-bounds :
      (cmd : Command V) (e : Failure E) (st : NodeState S D E)
      → (put_off cmd e st ≤ 60 * nanos_per_s)
        × (is_held e ≡ true → put_off cmd e st ≤ held_back_retry)
  unfolding wait_after backoff_for
  put_off-bounds cmd e st = ground arith

  run_one-backing_off :
      (l : Limits) (cmd : Command V) (t wait : ℕ) (st : NodeState S D E)
      → backing_off dem rt cmd t st ≡ some wait
      → run_one dem rt l cmd t st ≡ some (st, later wait)
  unfolding run_one
  run_one-backing_off l cmd t wait st e = rw (run_one, e) refl

  -- A command that has failed is put off for a minute at most, and for five seconds at most if it was held back.
  -- Until then no command for the same id is tried, and the wait that is answered runs down to nothing; from
  -- then on the failure book stands in its way no longer.
  pub failed_until_due :
      (l : Limits) (cmd next : Command V) (e : Failure E) (now t : ℕ) (st : NodeState S D E)
      → command_id next ≡ command_id cmd
      → ((fail dem rt cmd now e st).1 ≡ later (put_off cmd e st))
        × (put_off cmd e st ≤ 60 * nanos_per_s)
        × (is_held e ≡ true → put_off cmd e st ≤ held_back_retry)
        × (t < now + put_off cmd e st
            → run_one dem rt l next t (fail dem rt cmd now e st).0
              ≡ some ((fail dem rt cmd now e st).0, later (now + put_off cmd e st - t)))
        × (now + put_off cmd e st ≤ t
            → backing_off dem rt next t (fail dem rt cmd now e st).0 ≡ none)
  unfolding fail
  failed_until_due l cmd next e now t st same_id = (
    refl,
    (put_off-bounds cmd e st).0,
    (put_off-bounds cmd e st).1,
    λ h.
        run_one-backing_off l next t _ (fail dem rt cmd now e st).0
          (fail-backing_off cmd next e now t st same_id ∙ rw (lt→ltb _ _ h) refl),
    λ h. fail-backing_off cmd next e now t st same_id ∙ ground (arith, h),
  )
