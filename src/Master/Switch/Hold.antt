-- ===== src/Master/Switch/Hold.antt =====
-- crates/sandstorm-core/src/master/api.rs: `set_node_backend` against `switching_to`.
use forkd.Prelude.{
  ℕ, ◌+◌, ◌-◌, ◌<◌, ◌≡◌, refl, sym, ap, ◌∙◌, ◌≢◌, inl, inr, String, Bool, true, Option, none, some,
  List, [], ◌∷◌, arith, ltb, same_refl, retain, Option-cases, find,
}
use forkd.Store.{Node, Store}
use forkd.Store.Nodes.{list_nodes}
use forkd.Store.Pools.{node_is}
use forkd.Store.Sandboxes.{count_sandboxes_on_node}
use forkd.Backend.{BackendKind}
use forkd.Master.{MasterState, Switching, get, put, remove, switch_hold, switching_to, wake_node}
use forkd.Master.Handlers.{queue_exec}
use forkd.Master.Switch.{
  Asked, asked, nothing_to_do, refused, count_snapshots_on_node, enact, has_switch, judge, live,
  set_node_backend,
}

get-live-live :
    (id : String) (m : List (String × Switching)) (now : ℕ)
    → get id (live (live m now) now) ≡ get id (live m now)
unfolding get retain
get-live-live id [] now = refl
get-live-live id (e ∷ m) now = ground (arith, get-live-live id m now)

get-live-remove :
    (id : String) (m : List (String × Switching)) (now : ℕ) → get id (live (remove id m) now) ≡ none
unfolding get retain remove
get-live-remove id [] now = refl
get-live-remove id (e ∷ m) now = ground (arith, get-live-remove id m now)

to : Option Switching → Option BackendKind
to none = none
to (some s) = some s.backend

switching_to-get :
    {V : Type 0} (st : MasterState V) (now : ℕ) (id : String)
    → switching_to st now id ≡ to (get id (live st.switching now))
unfolding switching_to to
switching_to-get st now id = elim (Option-cases (get id (live st.switching now))) [
  | inl e ↦ rw (switching_to, e) refl
  | inr (s, e) ↦ rw (switching_to, e) refl
]

-- The command is asked of a node only when it holds nothing.
judge-asked :
    (st : Store) (switchable : Bool) (id : String) (want : BackendKind)
    → judge st switchable id want ≡ asked
    → (count_sandboxes_on_node st id ≡ 0) × (count_snapshots_on_node st id ≡ 0)
unfolding judge
judge-asked st switchable id want h = go (find (node_is id) (list_nodes st)) refl
  where
    go :
        (o : Option Node)
        → find (node_is id) (list_nodes st) ≡ o
        → (count_sandboxes_on_node st id ≡ 0) × (count_snapshots_on_node st id ≡ 0)
    go none e = absurd (ground (arith, e, h))
    go (some n) e = ground (arith, e, h)

get-live-put :
    (id : String) (s : Switching) (m : List (String × Switching)) (now : ℕ)
    → ltb (now - s.at) switch_hold ≡ true
    → get id (live (put id s m) now) ≡ some s
unfolding get retain put
get-live-put id s m now h = ground (arith, h, same_refl id)

-- What is asked of the node leaves the entry, and all else removes it.
enact-asked :
    {V : Type 0} (held : MasterState V) (id : String) (want : BackendKind) (result_id : String)
    (later : ℕ) (j : Asked)
    → (enact held id want result_id j).1 ≡ asked
    → (j ≡ asked)
      × (switching_to (enact held id want result_id j).0 later id
          ≡ to (get id (live held.switching later)))
unfolding queue_exec wake_node
enact-asked held id want result_id later asked h =
    (refl, switching_to-get (queue_exec held id _) later id)
enact-asked held id want result_id later nothing_to_do h = absurd (ground (arith, h))
enact-asked held id want result_id later (refused why) h = absurd (ground (arith, h))

enact_other :
    {V : Type 0} (held : MasterState V) (id : String) (want : BackendKind) (result_id : String)
    (now : ℕ) (j : Asked)
    → (enact held id want result_id j).1 ≢ asked
    → switching_to (enact held id want result_id j).0 now id ≡ none
unfolding to
enact_other held id want result_id now asked h = absurd (h refl)
enact_other held id want result_id now nothing_to_do h =
    switching_to-get _ now id ∙ ap to (get-live-remove id held.switching now)
enact_other held id want result_id now (refused why) h =
    switching_to-get _ now id ∙ ap to (get-live-remove id held.switching now)

module _ {V : Type 0} (st : MasterState V) (id : String) (want : BackendKind) (result_id : String)
    (now : ℕ) where
  abbrev held : MasterState V
  held = record st {
    switching = put id (record { backend = want; at = now }) (live st.switching now);
  }

  abbrev switchable : Bool
  switchable = has_switch (get id st.node_features)

  -- When the node is asked to switch, the master has no sandbox and no snapshot on record for it, and
  -- until the hold has passed placement knows the node as restarting onto that backend.
  pub asked_holds :
      (later : ℕ)
      → later < now + switch_hold
      → (set_node_backend st id want result_id now).1 ≡ asked
      → (count_sandboxes_on_node st.store id ≡ 0)
        × (count_snapshots_on_node st.store id ≡ 0)
        × (switching_to (set_node_backend st id want result_id now).0 later id ≡ some want)
  unfolding set_node_backend to
  asked_holds later h k = elim (Option-cases (get id (live st.switching now))) [
    | inr (s, e) ↦ absurd (ground (arith, e, k))
    | inl e ↦
        let (is_asked, kept) =
          enact-asked held id want result_id later (judge st.store switchable id want)
            (rw (set_node_backend, e) at k) in
        let (sandboxes, snapshots) = judge-asked st.store switchable id want is_asked in
        (
          sandboxes,
          snapshots,
          rw (set_node_backend, e)
              (kept ∙ ap to (get-live-put id _ (live st.switching now) later (ground arith))),
        )
  ]

  -- When the node is not asked to switch, placement knows of it, at the time of the request, what it knew
  -- before.
  pub not_asked_keeps :
      (set_node_backend st id want result_id now).1 ≢ asked
      → switching_to (set_node_backend st id want result_id now).0 now id ≡ switching_to st now id
  unfolding set_node_backend to
  not_asked_keeps k = elim (Option-cases (get id (live st.switching now))) [
    | inr (s, e) ↦
        rw (set_node_backend, e)
          (switching_to-get _ now id
            ∙ ap to (get-live-live id st.switching now)
            ∙ sym (switching_to-get st now id))
    | inl e ↦
        rw (set_node_backend, e)
          (enact_other held id want result_id now (judge st.store switchable id want)
              (rw (set_node_backend, e) at k)
            ∙ ap to (sym e)
            ∙ sym (switching_to-get st now id))
  ]
