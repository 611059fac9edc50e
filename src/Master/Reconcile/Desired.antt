-- ===== src/Master/Reconcile/Desired.antt =====
-- crates/sandstorm-core/src/master/api.rs: laws of `diff`, by kind of command.
use forkd.Prelude.{
  ℕ, ◌≡◌, refl, sym, ap, ◌∙◌, String, Bool, false, not, ◌&&◌, ◌||◌, same, arith, any,
}
use forkd.Tier.{Tier, tier_eq}
use forkd.Proto.{Command, PollRequest, drop_tag, pull_template}
use forkd.Store.{Sandbox}
use forkd.Store.Sandboxes.{has_id, sandboxes_on_node}
use forkd.Master.{MasterState}
use forkd.Master.Reports.{observes}
use forkd.Master.Reconcile.{Specs, destroys, wanted_commands}
use forkd.Master.Reconcile.Diff.{diff, note_report}
use forkd.Master.Reconcile.Kinds.{
  any-false, any-on_node, any-parts, creates_it, destroys_it, moves_it, to_create, to_move, wants,
}
use forkd.Master.Reconcile.Parts.{
  any-destroys, any-dropped_tags, any-no_destroy, any-pulls_for, any-wanted, commands-creates,
  commands-destroys, commands-moves, pulls_for-sandboxes,
}

module _ {V : Type 0} (specs : Specs V) (sign : String → String → String → ℕ → String) where
  -- The rows of the store that the answer leaves are the ones that it was made from.
  diff-sandboxes :
      (st : MasterState V) (req : PollRequest) (now : ℕ)
      → (diff specs sign st req now).0.store.sandboxes ≡ (note_report st req now).store.sandboxes
  unfolding diff
  diff-sandboxes st req now = pulls_for-sandboxes specs sign (note_report st req now).store req

  -- A test on the desired sandboxes, over the rows of the store that the answer leaves.
  any-desired :
      (g : Sandbox → Bool) (st : MasterState V) (req : PollRequest) (now : ℕ)
      → any g (sandboxes_on_node (note_report st req now).store req.node_id)
        ≡ any
            (λ s. same s.node_id req.node_id && g s)
            (diff specs sign st req now).0.store.sandboxes
  any-desired g st req now =
      any-on_node g (note_report st req now).store req.node_id
      ∙ ap (any (λ s. same s.node_id req.node_id && g s)) (sym (diff-sandboxes st req now))

  -- What stands in the answer, for a test that no pull passes.
  any-diff :
      (f : Command V → Bool) (st : MasterState V) (req : PollRequest) (now : ℕ)
      → ((name image : String) (attempt : ℕ) → f (pull_template name image attempt) ≡ false)
      → ((tag : String) → f (drop_tag tag) ≡ false)
      → any f (diff specs sign st req now).1 ≡ (
          any f (
            wanted_commands specs sign
              (diff specs sign st req now).0.store
              req
              now
              (sandboxes_on_node (note_report st req now).store req.node_id))
          || any f (
              destroys specs sign
                (sandboxes_on_node (note_report st req now).store req.node_id)
                req.observed))
  unfolding diff
  any-diff f st req now h k =
      any-parts f _ _ _ _ (any-pulls_for specs sign f (note_report st req now).store req h)
        (any-dropped_tags specs sign f _ req.tags k)

  -- The answer to a report destroys a sandbox exactly when the node reports holding it and no row, in
  -- the store that the answer leaves, puts the sandbox on the node.
  pub diff_destroys :
      (st : MasterState V) (req : PollRequest) (now : ℕ) (id : String)
      → any (destroys_it id) (diff specs sign st req now).1 ≡ (
          any (observes id) req.observed
          && not (any (wants req.node_id id) (diff specs sign st req now).0.store.sandboxes))
  diff_destroys st req now id =
      any-diff (destroys_it id) st req now (λ n i a. refl) (λ t. refl)
      ∙ ground (
        arith,
        any-wanted specs sign (destroys_it id) (λ w. false) (diff specs sign st req now).0.store req
            now (sandboxes_on_node (note_report st req now).store req.node_id)
            (commands-destroys specs sign id (diff specs sign st req now).0.store req now),
        any-false (sandboxes_on_node (note_report st req now).store req.node_id),
        any-destroys specs sign id (sandboxes_on_node (note_report st req now).store req.node_id)
            req.observed,
        any-desired (has_id id) st req now,
      )

  -- The answer to a report creates a sandbox exactly when a row, in the store that the answer leaves,
  -- puts it on the node, is not quarantined by its failures and not detached, names a template that the
  -- store has, and the node does not report holding it.
  pub diff_creates :
      (st : MasterState V) (req : PollRequest) (now : ℕ) (id : String)
      → any (creates_it id) (diff specs sign st req now).1
        ≡ any
            (λ w. wants req.node_id id w && to_create (diff specs sign st req now).0.store req w)
            (diff specs sign st req now).0.store.sandboxes
  diff_creates st req now id =
      any-diff (creates_it id) st req now (λ n i a. refl) (λ t. refl)
      ∙ ground (
        arith,
        any-no_destroy specs sign (creates_it id)
            (sandboxes_on_node (note_report st req now).store req.node_id) req.observed
            (λ i n. refl),
        any-wanted specs sign (creates_it id)
            (λ w. same w.id id && to_create (diff specs sign st req now).0.store req w)
            (diff specs sign st req now).0.store req now
            (sandboxes_on_node (note_report st req now).store req.node_id)
            (commands-creates specs sign id (diff specs sign st req now).0.store req now),
        any-desired (λ w. same w.id id && to_create (diff specs sign st req now).0.store req w) st
            req now,
      )

  -- The answer to a report moves a sandbox to a tier exactly when a row, in the store that the answer
  -- leaves, puts it on the node at that tier, is not quarantined by its failures, and the node's first
  -- report of the sandbox is at another tier.
  pub diff_moves :
      (st : MasterState V) (req : PollRequest) (now : ℕ) (id : String) (t : Tier)
      → any (moves_it id t) (diff specs sign st req now).1
        ≡ any
            (λ w. wants req.node_id id w && tier_eq w.tier t && to_move req w)
            (diff specs sign st req now).0.store.sandboxes
  diff_moves st req now id t =
      any-diff (moves_it id t) st req now (λ n i a. refl) (λ t. refl)
      ∙ ground (
        arith,
        any-no_destroy specs sign (moves_it id t)
            (sandboxes_on_node (note_report st req now).store req.node_id) req.observed
            (λ i n. refl),
        any-wanted specs sign (moves_it id t)
            (λ w. same w.id id && tier_eq w.tier t && to_move req w)
            (diff specs sign st req now).0.store req now
            (sandboxes_on_node (note_report st req now).store req.node_id)
            (commands-moves specs sign id t (diff specs sign st req now).0.store req now),
        any-desired (λ w. same w.id id && tier_eq w.tier t && to_move req w) st req now,
      )
