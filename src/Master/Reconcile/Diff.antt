-- ===== src/Master/Reconcile/Diff.antt =====
-- crates/sandstorm-core/src/master/api.rs: the answer to a node's report.
use Prim.Native.String.{compare}
use text.Mathlib.Text.{is_le}
use forkd.Prelude.{
  ℕ, String, Bool, true, false, not, ◌&&◌, ◌||◌, Option, none, some, List, [], ◌∷◌, ◌++◌, same,
  ◌==◌, any, find, sort_by, if◌then◌else◌,
}
use forkd.Proto.{Command, HostInfo, ImageConfig, PollRequest, TemplatePull, pull_template}
use forkd.Store.{PullRow, Store, Template}
use forkd.Store.Sandboxes.{is_some, sandboxes_on_node}
use forkd.Store.Nodes.{set_node_health, set_node_host}
use forkd.Store.Pools.{refingerprint_node}
use forkd.Store.Snapshots.{record_pull, set_template_spec}
use forkd.Backend.{BackendKind, backend_eq, backend_of_engine}
use forkd.Master.{MasterState, Switching, get, put, remove}
use forkd.Master.Reconcile.{Specs, destroys, dropped_tags, host_eq, note_ips, wanted_commands}

pub record ImageTemplate : Type 0 where
  pub name : String
  pub image : String
  pub attempt : ℕ
  pub spec : String

abbrev with_image : Template → Option String → List ImageTemplate
with_image t none = []
with_image t (some i) = record { name = t.name; image = i; attempt = t.attempt; spec = t.spec } ∷ []

from_images : List Template → List ImageTemplate
from_images [] = []
from_images (t ∷ ts) = with_image t t.image ++ from_images ts

-- The templates that have an image, in the order of their names.
unfoldable pub image_templates : Store → List ImageTemplate
unfolding from_images
image_templates st = sort_by (λ a b. is_le (compare a.name b.name)) (from_images st.templates)

-- A text that is there and not empty.
abbrev non_empty : Option String → Option String
non_empty none = none
non_empty (some s) = if same s "" then none else some s

abbrev is_empty {ℓ} : {A : Type ℓ} → List A → Bool
is_empty [] = true
is_empty (x ∷ xs) = false

abbrev option_backend_eq : Option BackendKind → Option BackendKind → Bool
option_backend_eq none none = true
option_backend_eq none (some _) = false
option_backend_eq (some _) none = false
option_backend_eq (some a) (some b) = backend_eq a b

abbrev switching_kind : Option Switching → Option BackendKind
switching_kind none = none
switching_kind (some s) = some s.backend

-- The host is the one that was last seen.
abbrev pub is_seen : HostInfo → Option HostInfo → Bool
is_seen host none = false
is_seen host (some h) = host_eq h host

note_fingerprint : Store → String → Option String → ℕ → Store
note_fingerprint st node fp now = elim (non_empty fp) [
  | none ↦ st
  | some f ↦ (refingerprint_node st node f now).0
]

module _ {V : Type 0} where
  -- The host's description is written when it is not the one that was last seen.
  unfoldable pub record_host : MasterState V → String → HostInfo → MasterState V
  record_host st node host = if is_seen host (get node st.node_hosts) then st else record st {
    store = set_node_host st.store node host;
    node_hosts = put node host st.node_hosts;
  }

  note_host : MasterState V → String → Option HostInfo → MasterState V
  note_host st node none = st
  note_host st node (some h) =
      let seen = record_host st node h in
      let back =
        option_backend_eq (switching_kind (get node seen.switching)) (backend_of_engine h.engine) in
      if back then record seen { switching = remove node seen.switching } else seen

  note_templates : MasterState V → String → Option (List String) → MasterState V
  note_templates st node none = st
  note_templates st node (some ts) = record st { node_templates = put node ts st.node_templates }

  note_features : MasterState V → String → List String → MasterState V
  note_features st node [] = st
  note_features st node (f ∷ fs) = record st { node_features = put node (f ∷ fs) st.node_features }

  -- What the report changes before the desired state is read.
  unfoldable pub note_report : MasterState V → PollRequest → ℕ → MasterState V
  unfolding note_host note_templates note_features note_fingerprint
  note_report st req now =
      let healthy = record st {
        store =
            set_node_health st.store req.node_id req.free_memory_mib req.pressure_some_avg10 now;
      } in
      let hosted =
        note_host
          (note_templates (note_features healthy req.node_id req.features) req.node_id
            req.templates)
          req.node_id req.host in
      record hosted {
        store =
            note_ips req.observed (note_fingerprint hosted.store req.node_id req.fingerprint now);
      }

abbrev pub no_args : {V : Type 0} → Specs V → String → ImageConfig → Bool
no_args specs spec c = is_empty c.args && not (specs.spec_has_args spec)

-- The error of a pull that the node reports: its own, or that the image names no program.
abbrev pub pull_error : {V : Type 0} → Specs V → ImageTemplate → TemplatePull → Option String
pull_error specs t p = elim p.error [
  | some e ↦ some e
  | none ↦ elim p.config [
    | none ↦ none
    | some c ↦
        if p.done && no_args specs t.spec c
        then some "the image names no program; give args"
        else none
  ]
]

abbrev pub finish :
    {V : Type 0} → Specs V → Store → ImageTemplate → Option ImageConfig → Option String → Store
finish specs st t (some c) none =
    if specs.is_pending t.spec
    then set_template_spec st t.name (specs.finished_spec t.spec c)
    else st
finish specs st t _ _ = st

-- What a report on one template's pull writes.
unfoldable pub note_pull :
    {V : Type 0} → Specs V → Store → PollRequest → ImageTemplate → TemplatePull → Store
note_pull specs st req t p =
    let row : PullRow = record {
      template = t.name;
      node_id = req.node_id;
      attempt = p.attempt;
      done = p.done;
      error = pull_error specs t p;
    } in
    finish specs (record_pull st row) t p.config (pull_error specs t p)

module _ {V : Type 0} (specs : Specs V) where
  -- The rows of pulls, as they were before the report, are `before`.
  unfoldable pub pull_each :
      Store
      → PollRequest
      → List String
      → List PullRow
      → List ImageTemplate
      → Store × List (Command V)
  pull_each st req installed before [] = (st, [])
  pull_each st req installed before (t ∷ ts) =
      elim (find (λ (p : TemplatePull). same p.name t.name && p.attempt == t.attempt) req.pulls) [
        | some p ↦ pull_each (note_pull specs st req t p) req installed before ts
        | none ↦
            let failed =
              any
                (λ (p : PullRow).
                  same p.template t.name && same p.node_id req.node_id && is_some p.error)
                before in
            let wanted =
              not failed && (not (any (λ i. same i t.name) installed) || specs.is_pending t.spec) in
            let (after, rest) = pull_each st req installed before ts in
            (after, if wanted then pull_template t.name t.image t.attempt ∷ rest else rest)
      ]

  abbrev pub pulls_of : Store → PollRequest → Option (List String) → Store × List (Command V)
  pulls_of st req none = (st, [])
  pulls_of st req (some installed) =
      pull_each st req installed st.template_pulls (image_templates st)

  -- Records how the node's image pulls stand, and says which to start.
  unfoldable pub pulls_for : Store → PollRequest → Store × List (Command V)
  pulls_for st req = pulls_of st req req.templates

  -- Desired state less what the node reports holding.
  unfoldable pub diff :
      (String → String → String → ℕ → String)
      → MasterState V
      → PollRequest
      → ℕ
      → MasterState V × List (Command V)
  diff sign st req now =
      let noted = note_report st req now in
      let desired = sandboxes_on_node noted.store req.node_id in
      let (pulled, pulls) = pulls_for noted.store req in
      (
        record noted { store = pulled },
        pulls
            ++ (wanted_commands specs sign pulled req now desired
                ++ (destroys specs sign desired req.observed
                    ++ dropped_tags specs sign pulled req.tags)),
      )
