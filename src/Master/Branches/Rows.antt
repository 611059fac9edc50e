-- ===== src/Master/Branches/Rows.antt =====
-- crates/sandstorm-core/src/state.rs and master/api.rs: the row of a recorded branch, and where a fork of it may go.
use forkd.Prelude.{
  ℕ, ◌≡◌, refl, sym, ap, ◌∙◌, String, Bool, true, Option, none, some, List, [], ◌∷◌, arith, inl,
  inr, ◌⊎◌, find, any, update_where, same_refl, Bool-cases, Option-cases, if◌then◌else◌,
}
use forkd.Store.{SnapshotTag, SnapshotRow, Store}
use forkd.Store.Nodes.{agent_node, node_fingerprint}
use forkd.Store.Snapshots.{
  get_snapshot, put_snapshot, set_snapshot_fingerprint, snapshot_fingerprint, tag_is,
}
use forkd.Master.{MasterState}
use forkd.Master.Create.{NewSandbox, Wanted, CreateError}
use forkd.Master.Create.Place.{Place, SpecView, fork_place, is_there, like, on_node, place_for}
use forkd.Master.Branches.{record_branch}
use mathlib.Core.Option.{some-injective}

find-update_tag :
    (tag : String) (f : SnapshotRow → SnapshotRow) (rows : List SnapshotRow)
    → ((r : SnapshotRow) → tag_is tag r ≡ true → tag_is tag (f r) ≡ true)
    → any (tag_is tag) rows ≡ true
    → (r : SnapshotRow) × (find (tag_is tag) rows ≡ some r)
      × (find (tag_is tag) (update_where (tag_is tag) f rows) ≡ some (f r))
unfolding find any update_where
find-update_tag tag f [] keeps there = absurd (ground arith)
find-update_tag tag f (r ∷ rs) keeps there = elim (Bool-cases (tag_is tag r)) [
  | inl e ↦ (r, rw e refl, rw e (rw (keeps r e) refl))
  | inr e ↦
      let rest : any (tag_is tag) rs ≡ true = ground (arith, e, there) in
      let (x, a, b) = find-update_tag tag f rs keeps rest in (x, rw e a, rw (e, e) b)
]

find-any :
    (p : SnapshotRow → Bool) (r : SnapshotRow) (rows : List SnapshotRow)
    → find p rows ≡ some r
    → any p rows ≡ true
unfolding find any
find-any p r [] h = absurd (ground arith)
find-any p r (x ∷ xs) h = elim (Bool-cases (p x)) [
  | inl e ↦ rw e refl
  | inr e ↦ rw e (find-any p r xs (rw e at h))
]

-- The row of a tag that was just put.
put-row :
    (st : Store) (snap : SnapshotTag)
    → (r : SnapshotRow) × (find (tag_is snap.tag) (put_snapshot st snap).snapshots ≡ some r)
      × (r.snapshot ≡ snap)
unfolding put_snapshot find
put-row st snap = elim (Bool-cases (any (tag_is snap.tag) st.snapshots)) [
  | inl e ↦
      let (r, _, b) =
        find-update_tag snap.tag (λ r. record r { snapshot = snap }) st.snapshots
          (λ r h. same_refl snap.tag) e in
      (record r { snapshot = snap }, rw e b, refl)
  | inr e ↦
      (record { snapshot = snap; fingerprint = none }, rw e (rw (same_refl snap.tag) refl), refl)
]

put-fingerprint :
    (st : Store) (snap : SnapshotTag)
    → node_fingerprint (put_snapshot st snap) snap.node_id ≡ node_fingerprint st snap.node_id
unfolding node_fingerprint put_snapshot
put-fingerprint st snap = refl

fingerprint-row :
    (st : Store) (tag fp : String) (r : SnapshotRow)
    → find (tag_is tag) st.snapshots ≡ some r
    → find (tag_is tag) (set_snapshot_fingerprint st tag fp).snapshots
      ≡ some (record r { fingerprint = some fp })
unfolding set_snapshot_fingerprint
fingerprint-row st tag fp r h =
    let (x, a, b) =
      find-update_tag tag (λ r. record r { fingerprint = some fp }) st.snapshots (λ r e. e)
        (find-any (tag_is tag) r st.snapshots h) in
    b
    ∙ ap (λ (y : SnapshotRow). some (record y { fingerprint = some fp }))
        (some-injective x r (sym a ∙ h))

-- A branch that was recorded is found, with the fingerprint of the node that made it.
pub recorded :
    (st : Store) (snap : SnapshotTag) (fp : String)
    → node_fingerprint st snap.node_id ≡ some fp
    → (get_snapshot (record_branch st snap) snap.tag ≡ some snap)
      × (snapshot_fingerprint (record_branch st snap) snap.tag ≡ some fp)
unfolding record_branch get_snapshot snapshot_fingerprint
recorded st snap fp h =
    let (r, here, is_snap) = put-row st snap in
    let row = fingerprint-row (put_snapshot st snap) snap.tag fp r here in
    rw (record_branch, put-fingerprint st snap, h)
      (rw (get_snapshot, row) (ap some is_snap), rw (snapshot_fingerprint, row) refl)

pub record_branch-nodes :
    (st : Store) (snap : SnapshotTag) (id : String)
    → node_fingerprint (record_branch st snap) id ≡ node_fingerprint st id
unfolding record_branch node_fingerprint put_snapshot set_snapshot_fingerprint
record_branch-nodes st snap id =
    elim (Option-cases (node_fingerprint (put_snapshot st snap) snap.node_id)) [
      | inl e ↦ rw (record_branch, e) refl
      | inr (fp, e) ↦ rw (record_branch, e) refl
    ]

abbrev pub placement :
    {V : Type 0}
    → MasterState V
    → String
    → String
    → SnapshotTag
    → (String × Place × Option ℕ) ⊎ CreateError
placement m fp tag snap = inl (
  snap.template,
  (if is_there (agent_node m.store snap.node_id) then like fp tag else on_node snap.node_id),
  snap.port,
)

-- Where a fork may go when no node is named, by its template, node and port.
pub place_anywhere :
    {V : Type 0} (m : MasterState V) (view : SpecView) (req : NewSandbox) (w : Wanted)
    (tag fp : String) (snap : SnapshotTag)
    → get_snapshot m.store tag ≡ some snap
    → snapshot_fingerprint m.store tag ≡ some fp
    → req.node_id ≡ none
    → w.from_tag ≡ some tag
    → place_for m view req w
      ≡ inl (
        snap.template,
        (if is_there (agent_node m.store snap.node_id) then like fp tag else on_node snap.node_id),
        snap.port,
      )
unfolding place_for fork_place
place_anywhere m view req w tag fp snap here known anywhere from =
    elim (Bool-cases (is_there (agent_node m.store snap.node_id))) [
      | inl e ↦ rw (place_for, from, here, fork_place, anywhere, known, e) refl
      | inr e ↦ rw (place_for, from, here, fork_place, anywhere, known, e) refl
    ]
