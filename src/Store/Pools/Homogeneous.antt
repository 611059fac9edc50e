-- ===== src/Store/Pools/Homogeneous.antt =====
-- crates/sandstorm-core/src/state.rs: invariants of the nodes under `refingerprint_node`.
use forkd.Prelude.{
  ℕ, ◌≡◌, refl, ◌≢◌, sym, ap, ◌∙◌, ◌⊎◌, inl, inr, String, true, false, List, Memᴰ, arith, same,
  same_iff, same-cases, Bool-cases, find, Option-cases,
}
use forkd.Store.{Node, Store}
use forkd.Store.Pools.{
  before_hash, derived_pool, node_is, others_match, target_pool, refingerprint_row,
  refingerprint_node,
}
use forkd.Store.Pools.Names.{before_hash_idem, before_hash-derived_pool, derived_pool-ne}
use forkd.Store.Pools.Rows.{
  IsHomogeneous, Names, IsWellNamed, IsTold, new_row, mem-refingerprint_row, base, target,
  new_row-revoked, new_row_self, new_row-other, in_derived, in_base,
}

module _ (ns : List Node) (n : Node) (fp : String) where
  target_cases :
      (x : Node)
      → same x.id n.id ≡ false
      → (new_row ns n fp x).pool ≡ (target ns n fp)
      → (x.pool ≡ derived_pool (base ns n fp) fp)
        ⊎ ((x.pool ≡ (base ns n fp)) × (others_match ns (base ns n fp) n.id fp ≡ true))
  unfolding new_row target_pool
  target_cases x h e = ground (
    arith,
    same_iff (base ns n fp) (base ns n fp),
    same_iff (derived_pool (base ns n fp) fp) (base ns n fp),
    derived_pool-ne (base ns n fp) fp,
    same_iff x.pool (derived_pool (base ns n fp) fp),
  )

  -- A row that is not the node's own and ends in the target pool has the new fingerprint.
  new_row-target :
      (x : Node)
      → IsWellNamed ns
      → IsTold ns fp
      → Memᴰ x ns
      → x.revoked ≡ false
      → same x.id n.id ≡ false
      → (new_row ns n fp x).pool ≡ (target ns n fp)
      → x.fingerprint ≡ fp
  new_row-target x named told m r h e = elim (target_cases x h e) [
    | inl d ↦ in_derived ns n fp x named told m d
    | inr (b, o) ↦ in_base ns n fp x m r h b o
  ]

  -- So a row in the target pool has the new fingerprint, whichever row it is.
  target_fingerprint :
      (x : Node)
      → IsWellNamed ns
      → IsTold ns fp
      → Memᴰ x ns
      → x.revoked ≡ false
      → (new_row ns n fp x).pool ≡ (target ns n fp)
      → (new_row ns n fp x).fingerprint ≡ fp
  target_fingerprint x named told m r e = elim (Bool-cases (same x.id n.id)) [
    | inl own ↦ (new_row_self ns n fp x own).1
    | inr other ↦ (new_row-other ns n fp x other).0 ∙ new_row-target x named told m r other e
  ]

  -- And a row elsewhere is as it was.
  elsewhere :
      (x : Node)
      → (new_row ns n fp x).pool ≢ (target ns n fp)
      → ((new_row ns n fp x).pool ≡ x.pool) × ((new_row ns n fp x).fingerprint ≡ x.fingerprint)
  elsewhere x h = elim (Bool-cases (same x.id n.id)) [
    | inl own ↦ absurd (h (new_row_self ns n fp x own).0)
    | inr other ↦ ground (arith, new_row-other ns n fp x other)
  ]

  pair_fingerprint :
      (x z : Node)
      → IsHomogeneous ns
      → IsWellNamed ns
      → IsTold ns fp
      → Memᴰ x ns
      → Memᴰ z ns
      → x.revoked ≡ false
      → z.revoked ≡ false
      → (new_row ns n fp x).pool ≡ (new_row ns n fp z).pool
      → (new_row ns n fp x).fingerprint ≡ (new_row ns n fp z).fingerprint
  pair_fingerprint x z hom named told mx mz rx rz e =
      elim (same-cases (new_row ns n fp x).pool (target ns n fp)) [
        | inl (_, t) ↦
            target_fingerprint x named told mx rx t
            ∙ sym (target_fingerprint z named told mz rz (sym e ∙ t))
        | inr (_, u) ↦
            let (px, fx) = elsewhere x u in
            let (pz, fz) = elsewhere z (λ t. u (e ∙ t)) in
            fx ∙ hom x z mx mz rx rz (sym px ∙ e ∙ pz) ∙ sym fz
      ]

  base-Names : (pool x : String) → pool ≡ (base ns n fp) → Names pool x
  base-Names pool x e = inl (e ∙ sym (before_hash_idem n.pool) ∙ ap before_hash (sym e))

  target-Names : Names (target ns n fp) fp
  unfolding target_pool
  target-Names = elim (Bool-cases (others_match ns (base ns n fp) n.id fp)) [
    | inl o ↦ rw o (base-Names (base ns n fp) fp refl)
    | inr o ↦ rw o (inr (ap (λ b. derived_pool b fp) (sym (before_hash-derived_pool n.pool fp))))
  ]

  other_pool :
      (x : Node)
      → same x.id n.id ≡ false
      → ((new_row ns n fp x).pool ≡ x.pool) ⊎ ((new_row ns n fp x).pool ≡ (base ns n fp))
  unfolding new_row
  other_pool x h = ground arith

  new_row-Names :
      (x : Node)
      → Names x.pool x.fingerprint
      → Names (new_row ns n fp x).pool (new_row ns n fp x).fingerprint
  new_row-Names x named = elim (Bool-cases (same x.id n.id)) [
    | inl own ↦ rw ((new_row_self ns n fp x own).0, (new_row_self ns n fp x own).1) target-Names
    | inr other ↦ elim (other_pool x other) [
      | inl kept ↦ rw (kept, (new_row-other ns n fp x other).0) named
      | inr back ↦ base-Names _ _ back
    ]
  ]

-- The node is not known, keeps its fingerprint, or is moved.
pub refingerprint_cases {ℓ} :
    (P : Store → Type ℓ) (st : Store) (id fp : String) (now : ℕ)
    → P st
    → ((n : Node) → P (refingerprint_row st n fp now).0)
    → P (refingerprint_node st id fp now).0
unfolding refingerprint_node
refingerprint_cases P st id fp now kept moved = elim (Option-cases (find (node_is id) st.nodes)) [
  | inl e ↦ rw (e, refingerprint_node) kept
  | inr (n, e) ↦
      rw (e, refingerprint_node)
        (elim (Bool-cases (same n.fingerprint fp)) [ inl s ↦ rw s kept | inr d ↦ rw d (moved n) ])
]

-- A change of one node's fingerprint keeps the nodes of every pool that are not revoked to one
-- fingerprint, when they were before, the groups' names are in step with the fingerprints in them, and
-- the new fingerprint's first characters tell it from the others at hand.
pub refingerprint_node-IsHomogeneous :
    (st : Store) (id fp : String) (now : ℕ)
    → IsHomogeneous st.nodes
    → IsWellNamed st.nodes
    → IsTold st.nodes fp
    → IsHomogeneous (refingerprint_node st id fp now).0.nodes
refingerprint_node-IsHomogeneous st id fp now hom named told =
    refingerprint_cases (λ t. IsHomogeneous t.nodes) st id fp now hom moved
  where
    moved : (n : Node) → IsHomogeneous (refingerprint_row st n fp now).0.nodes
    moved n a b ma mb ra rb e =
        let (x, mx, ex) = mem-refingerprint_row st n fp now a ma in
        let (z, mz, ez) = mem-refingerprint_row st n fp now b mb in
        ap (λ r. r.fingerprint) ex
        ∙ pair_fingerprint st.nodes n fp x z hom named told mx mz
            (sym (new_row-revoked st.nodes n fp x) ∙ sym (ap (λ r. r.revoked) ex) ∙ ra)
            (sym (new_row-revoked st.nodes n fp z) ∙ sym (ap (λ r. r.revoked) ez) ∙ rb)
            (sym (ap (λ r. r.pool) ex) ∙ e ∙ ap (λ r. r.pool) ez)
        ∙ sym (ap (λ r. r.fingerprint) ez)

-- When every node is in a pool by its plain name, or in the group that the name and the node's own
-- fingerprint give, a change of one node's fingerprint keeps that so for every node.
pub refingerprint_node-IsWellNamed :
    (st : Store) (id fp : String) (now : ℕ)
    → IsWellNamed st.nodes
    → IsWellNamed (refingerprint_node st id fp now).0.nodes
refingerprint_node-IsWellNamed st id fp now named =
    refingerprint_cases (λ t. IsWellNamed t.nodes) st id fp now named moved
  where
    moved : (n : Node) → IsWellNamed (refingerprint_row st n fp now).0.nodes
    moved n a m =
        let (x, mx, ex) = mem-refingerprint_row st n fp now a m in
        rw ex (new_row-Names st.nodes n fp x (named x mx))
