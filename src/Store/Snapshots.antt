-- ===== src/Store/Snapshots.antt =====
-- crates/sandstorm-core/src/state.rs: snapshot tags, templates and their pulls.
use forkd.Prelude.{
  ℕ, suc, String, Bool, true, false, not, ◌&&◌, Option, none, some, ◌∷◌, same, if◌then◌else◌, any,
  find, retain, update_where,
}
use forkd.Store.{SnapshotTag, SnapshotRow, Template, PullRow, Store}

abbrev pub tag_is : String → SnapshotRow → Bool
tag_is tag r = same r.tag tag

-- A conflict keeps the fingerprint column, which the statement does not name.
unfoldable pub put_snapshot : Store → SnapshotTag → Store
put_snapshot st s = record st {
  snapshots =
      if any (tag_is s.tag) st.snapshots
      then update_where (tag_is s.tag) (λ r. record r { snapshot = s }) st.snapshots
      else record { snapshot = s; fingerprint = none } ∷ st.snapshots;
}

unfoldable pub get_snapshot : Store → String → Option SnapshotTag
get_snapshot st tag = elim (find (tag_is tag) st.snapshots) [
  | none ↦ none
  | some r ↦ some r.snapshot
]

unfoldable pub snapshot_fingerprint : Store → String → Option String
snapshot_fingerprint st tag = elim (find (tag_is tag) st.snapshots) [
  | none ↦ none
  | some r ↦ r.fingerprint
]

unfoldable pub set_snapshot_fingerprint : Store → String → String → Store
set_snapshot_fingerprint st tag fp = record st {
  snapshots = update_where (tag_is tag) (λ r. record r { fingerprint = some fp }) st.snapshots;
}

unfoldable pub delete_snapshot : Store → String → Store × Bool
delete_snapshot st tag = (
  record st { snapshots = retain (λ r. not (tag_is tag r)) st.snapshots },
  any (tag_is tag) st.snapshots,
)

abbrev pub name_is : String → Template → Bool
name_is name t = same t.name name

unfoldable pub get_template : Store → String → Option (String × String)
get_template st name = elim (find (name_is name) st.templates) [
  | none ↦ none
  | some t ↦ some (t.rootfs, t.spec)
]

abbrev image_is : Option String → String → Bool
image_is none image = false
image_is (some i) image = same i image

-- The second result is false for a name that means something else.
unfoldable pub put_image_template : Store → String → String → String → ℕ → Store × Bool
put_image_template st name image spec now = elim (find (name_is name) st.templates) [
  | none ↦
      let row : Template = record {
        name = name;
        rootfs = "rootfs";
        spec = spec;
        created_at = now;
        image = some image;
        attempt = 1;
      } in
      (record st { templates = row ∷ st.templates }, true)
  | some t ↦
      if image_is t.image image
      then (
        record st {
          templates =
              update_where (name_is name) (λ r. record r { attempt = suc r.attempt }) st.templates;
          template_pulls = retain (λ (p : PullRow). not (same p.template name)) st.template_pulls;
        },
        true,
      )
      else (st, false)
]

unfoldable pub set_template_spec : Store → String → String → Store
set_template_spec st name spec = record st {
  templates = update_where (name_is name) (λ r. record r { spec = spec }) st.templates;
}

unfoldable pub record_pull : Store → PullRow → Store
record_pull st p =
    let here = λ (r : PullRow). same r.template p.template && same r.node_id p.node_id in
    record st {
      template_pulls =
          if any here st.template_pulls
          then update_where here
              (λ r. record r { attempt = p.attempt; done = p.done; error = p.error })
              st.template_pulls
          else p ∷ st.template_pulls;
    }
