-- ===== src/Master/Create/Place.antt =====
-- crates/sandstorm-core/src/master/api.rs (`create_sandbox`): where the children may go, and the node of
-- each, decided before any is written.
use forkd.Prelude.{
  ℕ, suc, zero, String, Bool, true, false, not, Option, none, some, List, [], ◌∷◌, ◌⊎◌, inl, inr,
  find, same, if◌then◌else◌,
}
use forkd.Maps.{get, put}
use forkd.Backend.{BackendKind}
use forkd.Store.{Node, SnapshotTag, Store}
use forkd.Store.Nodes.{agent_node, list_nodes, node_fingerprint}
use forkd.Store.Pools.{node_is}
use forkd.Store.Snapshots.{get_snapshot, get_template, snapshot_fingerprint}
use forkd.Master.{MasterState, can_start}
use forkd.Master.Placement.{Pick, picked, pick_node, pick_node_where}
use forkd.Master.Switch.{backend_on, is_on}
use forkd.Master.Create.{
  NewSandbox, Wanted, CreateError, no_snapshot, other_host, not_fetchable, unknown_fingerprint,
  unknown_template, still_pulling, wrong_backend, lacks_template, no_node,
}

pub data Place : Type 0 where
  in_pool_of : (pool : String) → Option BackendKind → Place
  on_node : (node : String) → Place
  like : (fingerprint tag : String) → Place

-- What is read of a template's spec: whether it is still being pulled, and its image's port.
pub record SpecView : Type 0 where
  pub is_pending : String → Bool
  pub image_port : String → Option ℕ

abbrev or_default : Option String → String
or_default none = "default"
or_default (some p) = p

abbrev pub is_there : {A : Type 0} → Option A → Bool
is_there none = false
is_there (some a) = true

-- Another node than the one that holds the image: only one that can restore it and that can fetch it.
unfoldable pub asked_elsewhere : Option String → Option String → Bool → String → Place ⊎ CreateError
asked_elsewhere none node_fp fetchable asked = inr unknown_fingerprint
asked_elsewhere (some t) none fetchable asked = inr unknown_fingerprint
asked_elsewhere (some t) (some n) fetchable asked =
    if not (same t n)
    then inr other_host
    else if fetchable
    then inl (on_node asked)
    else inr not_fetchable

unfoldable pub fork_place : Store → NewSandbox → String → SnapshotTag → Place ⊎ CreateError
unfolding asked_elsewhere
fork_place st req tag snap =
    let fp = snapshot_fingerprint st tag in
    let fetchable = is_there (agent_node st snap.node_id) in
    elim req.node_id [
      | some asked ↦
          if same asked snap.node_id
          then inl (on_node asked)
          else asked_elsewhere fp (node_fingerprint st asked) fetchable asked
      | none ↦ elim fp [
        | none ↦ inl (on_node snap.node_id)
        | some f ↦ if fetchable then inl (like f tag) else inl (on_node snap.node_id)
      ]
    ]

abbrev runs_other : Store → String → Option BackendKind → Bool
runs_other st node none = false
runs_other st node (some want) = not (is_on (backend_on st node) want)

module _ {V : Type 0} (st : MasterState V) (view : SpecView) where
  unfoldable pub template_place : NewSandbox → Wanted → Place ⊎ CreateError
  template_place req w = elim req.node_id [
    | none ↦ inl (in_pool_of (or_default req.pool) w.backend)
    | some node ↦
        if runs_other st.store node w.backend
        then inr wrong_backend
        else if not (can_start st node w.template)
        then inr lacks_template
        else inl (on_node node)
  ]

  -- The template, the place, and the port that the tag or the image says.
  unfoldable pub place_for : NewSandbox → Wanted → (String × Place × Option ℕ) ⊎ CreateError
  unfolding fork_place template_place
  place_for req w = elim w.from_tag [
    | some tag ↦ elim (get_snapshot st.store tag) [
      | none ↦ inr no_snapshot
      | some snap ↦ elim (fork_place st.store req tag snap) [
        | inr e ↦ inr e
        | inl place ↦ inl (snap.template, place, snap.port)
      ]
    ]
    | none ↦ elim (get_template st.store w.template) [
      | none ↦ inr unknown_template
      | some (rootfs, spec) ↦
          if view.is_pending spec then inr still_pulling else elim (template_place req w) [
            | inr e ↦ inr e
            | inl place ↦ inl (w.template, place, view.image_port spec)
          ]
    ]
  ]

abbrev pub Placed : Type 0
Placed = List (String × String)

unfoldable pub copies : ℕ → String × String → Placed
copies zero p = []
copies (suc k) p = p ∷ copies k p

abbrev pub more_on : String → List (String × ℕ) → List (String × ℕ)
more_on id extra = put id (suc (elim (get id extra) [ none ↦ 0 | some k ↦ k ])) extra

module _ {V : Type 0} (st : MasterState V) (now : ℕ) where
  -- Each child to the least loaded matching node, counting those placed already.
  unfoldable pub spread : ℕ → String → List (String × ℕ) → Placed ⊎ Pick
  spread zero fingerprint extra = inl []
  spread (suc k) fingerprint extra =
      elim (pick_node_where st now extra 1 (λ (n : Node). same n.fingerprint fingerprint)) [
        | picked n ↦ elim (spread k fingerprint (more_on n.id extra)) [
          | inl ps ↦ inl ((n.id, n.pool) ∷ ps)
          | inr why ↦ inr why
        ]
        | why ↦ inr why
      ]

  abbrev pool_of : NewSandbox → String → String
  pool_of req node = elim (find (node_is node) (list_nodes st.store)) [
    | some n ↦ n.pool
    | none ↦ or_default req.pool
  ]

  unfoldable pub placed_on : NewSandbox → String → ℕ → Place → Placed ⊎ CreateError
  unfolding spread copies
  placed_on req template count (in_pool_of pool backend) =
      elim (pick_node st now pool backend template count) [
        | picked n ↦ inl (copies count (n.id, n.pool))
        | why ↦ inr (no_node why)
      ]
  placed_on req template count (on_node node) = inl (copies count (node, pool_of req node))
  placed_on req template count (like fingerprint tag) = elim (spread count fingerprint []) [
    | inl ps ↦ inl ps
    | inr why ↦ inr (no_node why)
  ]
