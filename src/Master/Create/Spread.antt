-- ===== src/Master/Create/Spread.antt =====
-- crates/sandstorm-core/src/master/api.rs (`create_sandbox`): the children of a fork over the nodes.
use forkd.Prelude.{
  ℕ, suc, zero, ◌+◌, ◌≤◌, ◌≡◌, refl, sym, ap, ◌∙◌, subst, String, true, List, [], ◌∷◌, arith, Memᴰ,
  ◌⊎◌, inl, inr, Either-cases, same, same-cases, if◌then◌else◌,
}
use forkd.Maps.{get, get-put}
use forkd.Store.{Node}
use forkd.Store.Sandboxes.{count_sandboxes_on_node}
use forkd.Master.{MasterState}
use forkd.Master.Placement.{picked, pick_node_where, or_zero, load_of}
use forkd.Master.Placement.Least.{pick_node_where_admits, pick_node_where_least}
use forkd.Master.Create.Place.{Placed, spread, more_on}
use forkd.Master.Create.Rows.{inl-injective}
use forkd.Master.Create.Whole.{Pick-cases}

-- How many children are placed on a node.
abbrev pub placed_at : String → Placed → ℕ
placed_at id [] = 0
placed_at id ((node, pool) ∷ ps) = if same node id then suc (placed_at id ps) else placed_at id ps

get-more_on :
    (id j : String) (extra : List (String × ℕ))
    → or_zero (get j (more_on id extra))
      ≡ (if same id j then suc (or_zero (get j extra)) else or_zero (get j extra))
get-more_on id j extra = elim (same-cases id j) [
  | inl (e, p) ↦ ap or_zero (get-put id j _ extra) ∙ rw (e, p) refl
  | inr (e, p) ↦ ap or_zero (get-put id j _ extra) ∙ rw e refl
]

module _ {V : Type 0} (st : MasterState V) (now : ℕ) (fingerprint : String) where
  -- A node of this id is connected, has the fingerprint, and its cap allows it so many more.
  abbrev pub HasRoom : String → ℕ → Type 0
  HasRoom id k =
      (n : Node) × Memᴰ n st.store.nodes
      × (n.id ≡ id)
      × (n.connected ≡ true)
      × (same n.fingerprint fingerprint ≡ true)
      × ((n.max_sandboxes ≡ 0) ⊎ (count_sandboxes_on_node st.store id + k ≤ n.max_sandboxes))

  first :
      (m : Node) (rest : Placed) (extra : List (String × ℕ)) (id : String)
      → pick_node_where st now extra 1 (λ (n : Node). same n.fingerprint fingerprint) ≡ picked m
      → (placed_at id rest ≡ 0)
        ⊎ HasRoom id (or_zero (get id (more_on m.id extra)) + placed_at id rest)
      → (placed_at id ((m.id, m.pool) ∷ rest) ≡ 0)
        ⊎ HasRoom id (or_zero (get id extra) + placed_at id ((m.id, m.pool) ∷ rest))
  unfolding load_of
  first m rest extra id e r = elim (same-cases m.id id) [
    | inr (ne, p) ↦ rw ne (rw (get-more_on m.id id extra, ne) at r)
    | inl (eq, p) ↦
        let (mem, up, fits, _) =
          (pick_node_where_least st now extra 1 (λ (n : Node). same n.fingerprint fingerprint) m
            e).0 in
        let (_, cap, _, _) =
          pick_node_where_admits st now extra 1 (λ (n : Node). same n.fingerprint fingerprint) m
            e in
        inr (
          rw eq (elim (rw (get-more_on m.id id extra, eq) at r) [
            | inl z ↦ (
              m,
              mem,
              p,
              up,
              fits,
              elim cap [ inl c ↦ inl c | inr c ↦ inr (rw z (omega (arith, rw p at c))) ],
            )
            | inr (n, mem2, p2, up2, fits2, cap2) ↦ (
              n,
              mem2,
              p2,
              up2,
              fits2,
              elim cap2 [ inl c ↦ inl c | inr c ↦ inr (omega (arith, c)) ],
            )
          ]))
  ]

  spread-HasRoom :
      (count : ℕ) (extra : List (String × ℕ)) (ps : Placed) (id : String)
      → spread st now count fingerprint extra ≡ inl ps
      → (placed_at id ps ≡ 0) ⊎ HasRoom id (or_zero (get id extra) + placed_at id ps)
  unfolding spread
  spread-HasRoom zero extra ps id = λ q. inl (sym (ap (placed_at id) (inl-injective q)))
  spread-HasRoom (suc count) extra ps id =
      elim (Pick-cases
        (pick_node_where st now extra 1 (λ (n : Node). same n.fingerprint fingerprint))) [
          | inl (m, e) ↦
              elim (Either-cases (spread st now count fingerprint (more_on m.id extra))) [
                | inl (rest, f) ↦
                    rw (spread, e, f)
                      (λ q.
                        subst
                          (λ p.
                            (placed_at id p ≡ 0)
                            ⊎ HasRoom id (or_zero (get id extra) + placed_at id p))
                          (inl-injective q)
                          (first m rest extra id e
                            (spread-HasRoom count (more_on m.id extra) rest id f)))
                | inr (x, f) ↦ rw (spread, e, f) (λ q. absurd (ground arith))
              ]
          | inr (inl (rs, e)) ↦ rw (spread, e) (λ q. absurd (ground arith))
          | inr (inr (inl e)) ↦ rw (spread, e) (λ q. absurd (ground arith))
          | inr (inr (inr e)) ↦ rw (spread, e) (λ q. absurd (ground arith))
        ]

  -- When the children of a fork are spread over the nodes, every node that is given any is connected, has the
  -- fingerprint that the image was made on, and stays within its cap with all the children of this request.
  pub spread_within_caps :
      (count : ℕ) (ps : Placed) (id : String)
      → spread st now count fingerprint [] ≡ inl ps
      → (placed_at id ps ≡ 0) ⊎ HasRoom id (placed_at id ps)
  unfolding get
  spread_within_caps count ps id e =
      let z : 0 + placed_at id ps ≡ placed_at id ps = omega arith in
      subst (λ k. (placed_at id ps ≡ 0) ⊎ HasRoom id k) z (spread-HasRoom count [] ps id e)
