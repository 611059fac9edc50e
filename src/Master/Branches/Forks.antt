-- ===== src/Master/Branches/Forks.antt =====
-- crates/sandstorm-core/src/master/api.rs (`branch_sandbox`, `create_sandbox`): a branch, then a fork of it.
use forkd.Prelude.{
  ℕ, ◌≡◌, refl, sym, ap, ◌∙◌, String, true, Option, none, some, arith, inl, inr, ◌⊎◌, Bool-cases,
  Option-cases, Either-cases, if◌then◌else◌,
}
use forkd.Store.{Sandbox, SnapshotTag, Store}
use forkd.Store.Nodes.{agent_node, node_fingerprint}
use forkd.Store.Snapshots.{get_snapshot, snapshot_fingerprint}
use forkd.Master.{MasterState}
use forkd.Master.Create.{Texts, NewSandbox, Wanted}
use forkd.Master.Create.Place.{SpecView, is_there, like, on_node, place_for}
use forkd.Proto.{CommandResult, branch}
use forkd.Master.Handlers.{queue_exec}
use forkd.Master.Create.Rows.{inl-injective}
use forkd.Master.Branches.{
  BranchError, BranchReq, branch_answered, branch_sandbox, is_zero, parent_of, record_branch,
  refused_fields, snap_of,
}
use forkd.Tier.{hot, tier_eq}
use forkd.Store.Sandboxes.{get_sandbox}
use forkd.Master.Branches.Rows.{recorded, record_branch-nodes, placement, place_anywhere}

-- What a branch that was made says.
module _ {V : Type 0} (t : Texts) (st : MasterState V) (id : String) (breq : BranchReq)
    (result_id : String) (later : MasterState V → MasterState V) (answer : Option CommandResult)
    (now : ℕ) where
  abbrev pub asked_of : Sandbox → MasterState V
  asked_of sb = later (queue_exec st sb.node_id (branch id breq.tag result_id))

  abbrev pub branched : MasterState V × (SnapshotTag ⊎ BranchError)
  branched = branch_sandbox t st id breq result_id later answer now

  branch-made :
      (snap : SnapshotTag)
      → branched.1 ≡ inl snap
      → (sb : Sandbox) × (r : CommandResult) × (parent_of st.store id breq ≡ inl sb)
        × (snap ≡ snap_of sb breq now r)
        × (branched.0.store ≡ record_branch (asked_of sb).store snap)
  unfolding branch_sandbox branch_answered
  branch-made snap = elim (Option-cases (refused_fields t breq)) [
    | inr (x, e) ↦ rw (branch_sandbox, e) (λ q. absurd (ground arith))
    | inl e ↦ elim (Either-cases (parent_of st.store id breq)) [
      | inr (x, f) ↦ rw (branch_sandbox, e, f) (λ q. absurd (ground arith))
      | inl (sb, f) ↦ elim (Option-cases answer) [
        | inl g ↦ rw (branch_sandbox, e, f, g) (λ q. absurd (ground arith))
        | inr (r, g) ↦ elim (Bool-cases (is_zero r.exit_code)) [
          | inr i ↦ rw (branch_sandbox, e, f, g, branch_answered, i) (λ q. absurd (ground arith))
          | inl i ↦
              rw (branch_sandbox, e, f, g, branch_answered, i)
                (λ q. (
                  sb,
                  r,
                  refl,
                  sym (inl-injective q),
                  ap (record_branch (asked_of sb).store) (inl-injective q),
                ))
        ]
      ]
    ]
  ]

  parent_of-found :
      (sb : Sandbox)
      → parent_of st.store id breq ≡ inl sb
      → (get_snapshot st.store breq.tag ≡ none)
        × (get_sandbox st.store id ≡ some sb)
        × (tier_eq sb.tier hot ≡ true)
  unfolding parent_of
  parent_of-found sb = elim (Option-cases (get_snapshot st.store breq.tag)) [
    | inr (x, e) ↦ rw (parent_of, e) (λ q. absurd (ground arith))
    | inl e ↦ elim (Option-cases (get_sandbox st.store id)) [
      | inl f ↦ rw (parent_of, e, f) (λ q. absurd (ground arith))
      | inr (s, f) ↦ elim (Bool-cases (tier_eq s.tier hot)) [
        | inl g ↦
            rw (parent_of, e, f, g)
              (λ q. (
                refl,
                ap some (inl-injective q),
                ap (λ (x : Sandbox). tier_eq x.tier hot) (sym (inl-injective q)) ∙ g,
              ))
        | inr g ↦ rw (parent_of, e, f, g) (λ q. absurd (ground arith))
      ]
    ]
  ]

  -- A branch that is answered with a tag was made of a sandbox that was there and hot, under a tag that was free. A fork
  -- of the tag for which no node is named is then placed: with the sandbox's template and port, on its node, or on any
  -- node of the same fingerprint if the master can dial its node. The node is still registered when it answers.
  pub branch_then_fork :
      (view : SpecView) (snap : SnapshotTag) (fp : String) (req : NewSandbox) (w : Wanted)
      → branched.1 ≡ inl snap
      → node_fingerprint (branched.0).store snap.node_id ≡ some fp
      → req.node_id ≡ none
      → w.from_tag ≡ some snap.tag
      → (sb : Sandbox) × (get_snapshot st.store snap.tag ≡ none)
        × (get_sandbox st.store id ≡ some sb)
        × (tier_eq sb.tier hot ≡ true)
        × (place_for (branched.0) view req w
            ≡ inl (
              sb.template,
              (if is_there (agent_node (branched.0).store sb.node_id)
                  then like fp snap.tag
                  else on_node sb.node_id),
              sb.port,
            ))
  branch_then_fork view snap fp req w made known anywhere tag =
      let (sb, r, parent, is_snap, after) = branch-made snap made in
      let (free, there, is_hot) = parent_of-found sb parent in
      let s = (asked_of sb).store in
      let fp_of : node_fingerprint s snap.node_id ≡ some fp =
        sym (
          ap (λ (x : Store). node_fingerprint x snap.node_id) after
          ∙ record_branch-nodes s snap snap.node_id)
        ∙ known in
      let (here, print) = recorded s snap fp fp_of in
      let placed =
        place_anywhere (branched.0) view req w snap.tag fp snap
          (ap (λ (x : Store). get_snapshot x snap.tag) after ∙ here)
          (ap (λ (x : Store). snapshot_fingerprint x snap.tag) after ∙ print) anywhere tag in
      (
        sb,
        ap (λ (x : SnapshotTag). get_snapshot st.store x.tag) is_snap ∙ free,
        there,
        is_hot,
        placed ∙ ap (placement (branched.0) fp snap.tag) is_snap,
      )
