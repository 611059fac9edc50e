-- ===== src/Master/E2b/Make/Answers.antt =====
-- crates/sandstorm-core/src/master/e2b.rs (`create`): a sandbox that is made for E2B serves, or is gone.
use forkd.Prelude.{
  ℕ, ◌≡◌, refl, subst, ◌∙◌, String, true, not, Option, none, some, List, [], ◌∷◌, ◌⊎◌, inl, inr,
  find, retain, same, same_refl, Bool-cases, Option-cases, Either-cases,
}
use forkd.Store.Sandboxes.{delete_sandbox, get_sandbox}
use forkd.Store.Sandboxes.Laws.{get-delete}
use forkd.Store.Snapshots.{get_template}
use forkd.Master.{wake_node}
use forkd.Master.Handlers.{remove_sandbox}
use forkd.Master.Create.{Texts}
use forkd.Master.Create.Batch.{Random, create_sandbox, default_rules}
use forkd.Master.Create.Place.{SpecView}
use forkd.Master.E2b.{E2bSandbox}
use forkd.Master.E2b.Life.Waits.{IsTimed, enough_looks, init_envd_ends}
use forkd.Master.E2b.Life.{
  Scene, Envd, E2bReply, InitError, delete_both, insert_e2b, made_handle, no_template, bad_network,
  not_kept, not_created, not_served, row_is, secs, with_master, with_rows,
}
use forkd.Master.E2b.Make.{
  NewE2bSandbox, Drawn, e2b_egress, named, row_for, served, recorded, of_created, create,
}

module _ {V : Type 0} (t : Texts) (view : SpecView) (rand : Random) (envd : Envd V) where
  no-row :
      (id : String) (rows : List E2bSandbox)
      → find (row_is id) (retain (λ e. not (row_is id e)) rows) ≡ none
  unfolding find retain
  no-row id [] = refl
  no-row id (e ∷ es) = elim (Bool-cases (same e.id id)) [
    | inl f ↦ rw f (no-row id es)
    | inr f ↦ rw (f, find, f) (no-row id es)
  ]

  -- Neither the sandbox nor the row.
  abbrev pub IsGone : String → Scene V → Type 0
  IsGone id s = (get_sandbox s.e2b.master.store id ≡ none) × (find (row_is id) s.e2b.rows ≡ none)

  delete_both-IsGone : (s : Scene V) (id : String) → IsGone id (delete_both s id)
  unfolding delete_both remove_sandbox wake_node
  delete_both-IsGone s id = (sandbox_gone, no-row id s.e2b.rows)
    where
      deleted : get_sandbox (delete_sandbox s.e2b.master.store id) id ≡ none
      deleted =
          let h : same id id ≡ true = same_refl id in
          get-delete s.e2b.master.store id id ∙ rw h refl

      sandbox_gone : get_sandbox (delete_both s id).e2b.master.store id ≡ none
      sandbox_gone = elim (Option-cases (get_sandbox s.e2b.master.store id)) [
        | inl e ↦ rw (remove_sandbox, e) deleted
        | inr (sb, e) ↦ rw (remove_sandbox, e) deleted
      ]

  -- What is left for each answer.
  abbrev pub Settled : Scene V → NewE2bSandbox → Drawn → Scene V × E2bReply → Type 0
  Settled s req d (after, made_handle rec) = rec.access_token ≡ d.access_token
  Settled s req d (after, not_kept) = IsGone d.id after
  Settled s req d (after, not_served why) = IsGone d.id after
  Settled s req d (after, not_created why) = after.e2b.rows ≡ s.e2b.rows
  Settled s req d (after, _) = after ≡ s

  served-Settled :
      (s : Scene V) (req : NewE2bSandbox) (d : Drawn) (rec : E2bSandbox)
      → rec.id ≡ d.id
      → rec.access_token ≡ d.access_token
      → (out : Scene V × (Option String ⊎ InitError))
      → Settled s req d (served t view rand envd rec out)
  unfolding served
  served-Settled s req d rec p q (after, inr why) =
      subst (λ i. IsGone i (delete_both after rec.id)) p (delete_both-IsGone after rec.id)
  served-Settled s req d rec p q (after, inl version) = q

  module _ (timed : IsTimed envd) where
    Answer : Scene V → NewE2bSandbox → Drawn → Option (Scene V × E2bReply) → Type 0
    Answer s req d answer = (out : Scene V × E2bReply) × (answer ≡ some out) × Settled s req d out

    recorded-Answer :
        (s s' : Scene V) (req : NewE2bSandbox) (d : Drawn) (now : ℕ)
        → Answer s req d (recorded t view rand envd enough_looks s' (row_for req d now))
    unfolding recorded Answer
    recorded-Answer s s' req d now =
        elim (Option-cases (insert_e2b s'.e2b.rows (row_for req d now))) [
          | inl e ↦
              ((delete_both s' d.id, not_kept), rw (recorded, e) refl, delete_both-IsGone s' d.id)
          | inr (rows, e) ↦
              let (out, q) = init_envd_ends envd timed (with_rows s' rows) (row_for req d now) in
              (
                served t view rand envd (row_for req d now) out,
                rw (recorded, e, q) refl,
                served-Settled s req d (row_for req d now) refl refl out,
              )
        ]

    -- A request to make a sandbox is answered within the looks that its wait has time for, and if it is answered with an error,
    -- there is neither a sandbox of its id nor a row, or no row was touched; and with a sandbox, it has
    -- the token that was drawn for it.
    pub create-Answer :
        (s : Scene V) (req : NewE2bSandbox) (d : Drawn)
        → (out : Scene V × E2bReply) × (create t view rand envd enough_looks s req d ≡ some out)
          × Settled s req d out
    unfolding create recorded Answer
    create-Answer s req d = elim (Option-cases (get_template s.e2b.master.store req.template_id)) [
      | inl e ↦ ((s, no_template), rw (create, e) refl, refl)
      | inr (known, e) ↦
          elim (Option-cases (
            e2b_egress t (default_rules s.e2b.master.store.default_egress) req.allow_internet_access
              req.network)) [
                | inl f ↦ ((s, bad_network), rw (create, e, f) refl, refl)
                | inr (egress, f) ↦
                    let m =
                      (create_sandbox t view rand s.e2b.master (named d.id req.template_id egress)
                        (secs s)).0 in
                    elim (Either-cases
                      (create_sandbox t view rand s.e2b.master (named d.id req.template_id egress)
                        (secs s)).1) [
                          | inr (why, g) ↦ (
                            (with_master s m, not_created why),
                            rw (create, e, f, of_created, g) refl,
                            refl,
                          )
                          | inl (made, g) ↦
                              let (out, q, settled) =
                                recorded-Answer s (with_master s m) req d (secs s) in
                              (out, rw (create, e, f, of_created, g) q, settled)
                        ]
              ]
    ]
