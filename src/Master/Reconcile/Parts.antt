-- ===== src/Master/Reconcile/Parts.antt =====
-- crates/sandstorm-core/src/master/api.rs, `diff`: lemmas on each part of the answer, the pulls, the
-- desired sandboxes, the destroys and the dropped tags.
use forkd.Prelude.{
  any-append, ℕ, ◌≡◌, refl, sym, ap, ◌∙◌, String, Bool, true, false, not, ◌&&◌, Option, none, some,
  List, [], ◌∷◌, same, ◌==◌, same-cases, arith, any, find, Bool-cases, Option-cases, inl, inr,
}
use forkd.Tier.{Tier, tier_eq}
use forkd.Proto.{
  Command, CreateArgs, ImageConfig, ObservedSandbox, PollRequest, TemplatePull, create, destroy,
  drop_tag, pull_template,
}
use forkd.Store.{PullRow, Sandbox, Store}
use forkd.Store.Sandboxes.{has_id, is_some}
use forkd.Store.Snapshots.{get_template, record_pull, set_template_spec}
use forkd.Master.Reports.{observes}
use forkd.Master.Reconcile.{
  Specs, commands_for, create_for, destroys, dropped_tags, move_for, wanted_commands,
}
use forkd.Master.Reconcile.Diff.{
  ImageTemplate, image_templates, pull_each, pulls_for, pulls_of, note_pull, pull_error, finish,
}
use forkd.Master.Reconcile.Kinds.{
  destroys_it, creates_it, moves_it, or_false, is_some-find, to_create, to_move,
}

module _ {V : Type 0} (specs : Specs V) (sign : String → String → String → ℕ → String) where
  pub any-destroys :
      (id : String) (desired : List Sandbox) (os : List ObservedSandbox)
      → any (destroys_it id) (destroys specs sign desired os)
        ≡ (any (observes id) os && not (any (has_id id) desired))
  unfolding any destroys
  any-destroys id desired [] = refl
  any-destroys id desired (o ∷ os) = elim (same-cases o.id id) [
    | inl (e, q) ↦ elim (Bool-cases (any (has_id o.id) desired)) [
      | inl d ↦
          let there : any (has_id id) desired ≡ true = rw (sym q, d) refl in
          rw (e, d, there) ground (arith, any-destroys id desired os)
      | inr d ↦
          let gone : any (has_id id) desired ≡ false = rw (sym q, d) refl in
          rw (d, gone) ground (arith, e)
    ]
    | inr (e, q) ↦ elim (Bool-cases (any (has_id o.id) desired)) [
      | inl d ↦ rw (d, e) (any-destroys id desired os)
      | inr d ↦ rw (d, e) ground (arith, e, any-destroys id desired os)
    ]
  ]

  finish-sandboxes :
      (st : Store) (t : ImageTemplate) (c : Option ImageConfig) (e : Option String)
      → (finish specs st t c e).sandboxes ≡ st.sandboxes
  unfolding set_template_spec
  finish-sandboxes st t none e = refl
  finish-sandboxes st t (some c) none = ground arith
  finish-sandboxes st t (some c) (some e) = refl

  note_pull-sandboxes :
      (st : Store) (req : PollRequest) (t : ImageTemplate) (p : TemplatePull)
      → (note_pull specs st req t p).sandboxes ≡ st.sandboxes
  unfolding note_pull record_pull
  note_pull-sandboxes st req t p = finish-sandboxes _ t p.config (pull_error specs t p)

  pull_each-sandboxes :
      (req : PollRequest) (installed : List String) (before : List PullRow)
      (ts : List ImageTemplate) (st : Store)
      → ((pull_each specs st req installed before ts).0).sandboxes ≡ st.sandboxes
  unfolding pull_each
  pull_each-sandboxes req installed before [] st = refl
  pull_each-sandboxes req installed before (t ∷ ts) st =
      elim (Option-cases
        (find (λ (p : TemplatePull). same p.name t.name && p.attempt == t.attempt) req.pulls)) [
          | inl e ↦ rw (pull_each, e) (pull_each-sandboxes req installed before ts st)
          | inr (p, e) ↦
              rw (pull_each, e)
                (pull_each-sandboxes req installed before ts (note_pull specs st req t p)
                  ∙ note_pull-sandboxes st req t p)
        ]

  pub pulls_for-sandboxes :
      (st : Store) (req : PollRequest) → ((pulls_for specs st req).0).sandboxes ≡ st.sandboxes
  unfolding pulls_for
  pulls_for-sandboxes st req = go req.templates
    where
      go : (o : Option (List String)) → ((pulls_of specs st req o).0).sandboxes ≡ st.sandboxes
      go none = refl
      go (some ts) = pull_each-sandboxes req ts st.template_pulls (image_templates st) st

  -- No other kind of command is a destroy or a create.
  any-pull_each :
      (f : Command V → Bool) (req : PollRequest) (installed : List String) (before : List PullRow)
      (ts : List ImageTemplate) (st : Store)
      → ((name image : String) (attempt : ℕ) → f (pull_template name image attempt) ≡ false)
      → any f (pull_each specs st req installed before ts).1 ≡ false
  unfolding pull_each any
  any-pull_each f req installed before [] st h = refl
  any-pull_each f req installed before (t ∷ ts) st h =
      elim (Option-cases
        (find (λ (p : TemplatePull). same p.name t.name && p.attempt == t.attempt) req.pulls)) [
          | inl e ↦
              rw (pull_each, e) ground
                (arith, h t.name t.image t.attempt, any-pull_each f req installed before ts st h)
          | inr (p, e) ↦
              rw (pull_each, e)
                (any-pull_each f req installed before ts (note_pull specs st req t p) h)
        ]

  pub any-pulls_for :
      (f : Command V → Bool) (st : Store) (req : PollRequest)
      → ((name image : String) (attempt : ℕ) → f (pull_template name image attempt) ≡ false)
      → any f (pulls_for specs st req).1 ≡ false
  unfolding pulls_for any
  any-pulls_for f st req h = go req.templates
    where
      go : (o : Option (List String)) → any f (pulls_of specs st req o).1 ≡ false
      go none = refl
      go (some ts) = any-pull_each f req ts st.template_pulls (image_templates st) st h

  pub any-dropped_tags :
      (f : Command V → Bool) (st : Store) (tags : List String)
      → ((tag : String) → f (drop_tag tag) ≡ false)
      → any f (dropped_tags specs sign st tags) ≡ false
  unfolding dropped_tags any
  any-dropped_tags f st [] h = refl
  any-dropped_tags f st (tag ∷ tags) h = ground (arith, h tag, any-dropped_tags f st tags h)

  pub any-no_destroy :
      (f : Command V → Bool) (desired : List Sandbox) (os : List ObservedSandbox)
      → ((id : String) (i : Option ℕ) → f (destroy id i) ≡ false)
      → any f (destroys specs sign desired os) ≡ false
  unfolding destroys any
  any-no_destroy f desired [] h = refl
  any-no_destroy f desired (o ∷ os) h =
      ground (arith, h o.id o.net_index, any-no_destroy f desired os h)

  -- A test on the commands for the desired sandboxes is a test on those sandboxes.
  pub any-wanted :
      (f : Command V → Bool) (g : Sandbox → Bool) (st : Store) (req : PollRequest) (now : ℕ)
      (ws : List Sandbox)
      → ((w : Sandbox) → any f (commands_for specs sign st req now w) ≡ g w)
      → any f (wanted_commands specs sign st req now ws) ≡ any g ws
  unfolding wanted_commands any
  any-wanted f g st req now [] h = refl
  any-wanted f g st req now (w ∷ ws) h =
      any-append f (commands_for specs sign st req now w) _
      ∙ ground (arith, h w, any-wanted f g st req now ws h)

  create_for-creates :
      (id : String) (st : Store) (node : String) (now : ℕ) (w : Sandbox)
      → any (creates_it id) (create_for specs sign st node now w)
        ≡ (same w.id id && is_some (get_template st w.template))
  unfolding create_for any
  create_for-creates id st node now w = elim (Option-cases (get_template st w.template)) [
    | inl e ↦ rw e ground arith
    | inr ((root, spec), e) ↦ rw e ground arith
  ]

  -- It is a create, or nothing.
  create_for-only :
      (f : Command V → Bool) (st : Store) (node : String) (now : ℕ) (w : Sandbox)
      → ((c : CreateArgs V) → f (create c) ≡ false)
      → any f (create_for specs sign st node now w) ≡ false
  unfolding create_for any
  create_for-only f st node now w h = elim (Option-cases (get_template st w.template)) [
    | inl e ↦ rw (any, e) refl
    | inr ((root, spec), e) ↦ rw (any, e) (or_false _ (h _))
  ]

  pub commands-creates :
      (id : String) (st : Store) (req : PollRequest) (now : ℕ) (w : Sandbox)
      → any (creates_it id) (commands_for specs sign st req now w)
        ≡ (same w.id id && to_create st req w)
  unfolding commands_for move_for any
  commands-creates id st req now w = elim (Option-cases (find (observes w.id) req.observed)) [
    | inl e ↦
        let seen : any (observes w.id) req.observed ≡ false =
          sym (is_some-find (observes w.id) req.observed) ∙ ap is_some e in
        rw (e, seen) ground (arith, create_for-creates id st req.node_id now w)
    | inr (o, e) ↦
        let seen : any (observes w.id) req.observed ≡ true =
          sym (is_some-find (observes w.id) req.observed) ∙ ap is_some e in
        rw (e, seen) ground arith
  ]

  pub commands-moves :
      (id : String) (t : Tier) (st : Store) (req : PollRequest) (now : ℕ) (w : Sandbox)
      → any (moves_it id t) (commands_for specs sign st req now w)
        ≡ (same w.id id && tier_eq w.tier t && to_move req w)
  unfolding commands_for move_for any
  commands-moves id t st req now w = elim (Option-cases (find (observes w.id) req.observed)) [
    | inl e ↦ rw e ground (arith, create_for-only (moves_it id t) st req.node_id now w (λ c. refl))
    | inr (o, e) ↦ rw e ground arith
  ]

  pub commands-destroys :
      (id : String) (st : Store) (req : PollRequest) (now : ℕ) (w : Sandbox)
      → any (destroys_it id) (commands_for specs sign st req now w) ≡ false
  unfolding commands_for move_for any
  commands-destroys id st req now w = elim (Option-cases (find (observes w.id) req.observed)) [
    | inl e ↦ rw e ground (arith, create_for-only (destroys_it id) st req.node_id now w (λ c. refl))
    | inr (o, e) ↦ rw e ground arith
  ]
