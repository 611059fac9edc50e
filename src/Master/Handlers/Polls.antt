-- ===== src/Master/Handlers/Polls.antt =====
-- crates/sandstorm-core/src/master/api.rs: laws of `take_execs` and of the queue that `run_exec` fills.
use forkd.Prelude.{◌≡◌, refl, ap, sym, ◌∙◌, ◌≢◌, String, [], ◌∷◌, ◌++◌, Option-cases, inl, inr}
use forkd.Proto.{Command}
use forkd.Maps.{get-put_other, get-put_self}
use forkd.Master.{MasterState, get, wake_node}
use forkd.Master.Handlers.{or_empty, take_execs, queue_exec}

module _ {V : Type 0} where
  collected :
      (st : MasterState V) (node : String)
      → (take_execs st node).1 ≡ or_empty (get node st.exec_queue)
  unfolding take_execs
  collected st node = elim (Option-cases (get node st.exec_queue)) [
    | inl e ↦ rw (take_execs, e) refl
    | inr (q, e) ↦ rw (take_execs, e) refl
  ]

  collected_once :
      (st : MasterState V) (node : String)
      → or_empty (get node (take_execs st node).0.exec_queue) ≡ []
  unfolding take_execs
  collected_once st node = elim (Option-cases (get node st.exec_queue)) [
    | inl e ↦ rw (take_execs, e) (rw e refl)
    | inr (q, e) ↦ rw (take_execs, e) (ap or_empty (get-put_self node [] st.exec_queue))
  ]

module _ {V : Type 0} (st : MasterState V) (node : String) where
  -- A command that is queued for a node is handed to it after all that was queued before, once: what a
  -- second collection hands out is empty. Another node's queue stays as it was.
  pub exec_once :
      (cmd : Command V) (other : String)
      → node ≢ other
      → ((take_execs (queue_exec st node cmd) node).1 ≡ (take_execs st node).1 ++ (cmd ∷ []))
        × ((take_execs (take_execs st node).0 node).1 ≡ [])
        × ((take_execs (queue_exec st node cmd) other).1 ≡ (take_execs st other).1)
  unfolding queue_exec wake_node
  exec_once cmd other h = (
    collected (queue_exec st node cmd) node
        ∙ ap or_empty (get-put_self node _ st.exec_queue)
        ∙ ap (λ q. q ++ (cmd ∷ [])) (sym (collected st node)),
    collected (take_execs st node).0 node ∙ collected_once st node,
    collected (queue_exec st node cmd) other
        ∙ ap or_empty (get-put_other node other _ st.exec_queue h)
        ∙ sym (collected st other),
  )
