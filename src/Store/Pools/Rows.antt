-- ===== src/Store/Pools/Rows.antt =====
-- crates/sandstorm-core/src/state.rs: `refingerprint_node` on one row of `nodes`, and the predicates on
-- the rows together.
use forkd.Prelude.{
  ℕ, ◌≡◌, refl, sym, ap, ◌∙◌, ◌⊎◌, inl, inr, String, Bool, true, false, not, ◌&&◌, List, Memᴰ,
  arith, same, same_iff, if◌then◌else◌, all-retain, update_where, mem-update_where,
}
use forkd.Store.{Node, Store}
use forkd.Store.Pools.{
  before_hash, fp8, derived_pool, node_is, pool_is, others_match, target_pool, move_node,
  bring_back, refingerprint_row,
}
use forkd.Store.Pools.Names.{before_hash-derived_pool, derived_pool_injective, derived_pool-ne}

-- Nodes of one pool that are not revoked have one fingerprint.
abbrev pub IsHomogeneous : List Node → Type 0
IsHomogeneous ns =
    (a b : Node)
    → Memᴰ a ns
    → Memᴰ b ns
    → a.revoked ≡ false
    → b.revoked ≡ false
    → a.pool ≡ b.pool
    → a.fingerprint ≡ b.fingerprint

-- A node is in a pool by its name, or in the group derived from that name by its own fingerprint.
abbrev pub Names : String → String → Type 0
Names pool fp = (pool ≡ before_hash pool) ⊎ (pool ≡ derived_pool (before_hash pool) fp)

abbrev pub IsWellNamed : List Node → Type 0
IsWellNamed ns = (a : Node) → Memᴰ a ns → Names a.pool a.fingerprint

-- Among the fingerprints at hand, the first characters tell `fp` from the others.
abbrev pub IsTold : List Node → String → Type 0
IsTold ns fp = (a : Node) → Memᴰ a ns → fp8 a.fingerprint ≡ fp8 fp → a.fingerprint ≡ fp

-- What the transaction makes of one row of `nodes`.
unfoldable pub moved_row : String → String → String → Node → Node
moved_row id fp target n = if node_is id n then record n { fingerprint = fp; pool = target } else n

unfoldable pub brought_row : String → String → Node → Node
brought_row derived base n = if pool_is derived n then record n { pool = base } else n

unfoldable pub new_row : List Node → Node → String → Node → Node
unfolding moved_row brought_row
new_row ns n fp x =
    let base = before_hash n.pool in
    let derived = derived_pool base fp in
    let target = target_pool ns base n.id fp in
    let moved = moved_row n.id fp target x in
    if same target base && not (same derived base) then brought_row derived base moved else moved

-- Whether the group that went ahead comes back.
returns : List Node → Node → String → Bool
returns ns n fp =
    let base = before_hash n.pool in
    let derived = derived_pool base fp in
    same (target_pool ns base n.id fp) base && not (same derived base)

moved_rows : List Node → Node → String → List Node
moved_rows ns n fp =
    let target = target_pool ns (before_hash n.pool) n.id fp in
    update_where (node_is n.id) (λ x. record x { fingerprint = fp; pool = target }) ns

nodes-refingerprint_row :
    (st : Store) (n : Node) (fp : String) (now : ℕ)
    → (refingerprint_row st n fp now).0.nodes ≡ (
        if returns st.nodes n fp
        then update_where
            (pool_is (derived_pool (before_hash n.pool) fp))
            (λ x. record x { pool = before_hash n.pool })
            (moved_rows st.nodes n fp)
        else moved_rows st.nodes n fp)
unfolding refingerprint_row move_node bring_back returns moved_rows
nodes-refingerprint_row st n fp now = ground arith

mem-moved_rows :
    (ns : List Node) (n : Node) (fp : String) (y : Node)
    → Memᴰ y (moved_rows ns n fp)
    → (x : Node) × Memᴰ x ns
      × (y ≡ moved_row n.id fp (target_pool ns (before_hash n.pool) n.id fp) x)
unfolding moved_rows moved_row
mem-moved_rows ns n fp y m = mem-update_where _ _ y ns m

mem-new_row :
    (ns : List Node) (n : Node) (fp : String) (b : Bool) (y : Node)
    → returns ns n fp ≡ b
    → Memᴰ y (
        if b
        then update_where
            (pool_is (derived_pool (before_hash n.pool) fp))
            (λ x. record x { pool = before_hash n.pool })
            (moved_rows ns n fp)
        else moved_rows ns n fp)
    → (x : Node) × Memᴰ x ns × (y ≡ new_row ns n fp x)
unfolding new_row returns brought_row
mem-new_row ns n fp true y t m =
    let (z, mz, e) = mem-update_where _ _ y (moved_rows ns n fp) m in
    let (x, mx, d) = mem-moved_rows ns n fp z mz in
    (
      x,
      mx,
      rw t (e ∙ ap (brought_row (derived_pool (before_hash n.pool) fp) (before_hash n.pool)) d),
    )
mem-new_row ns n fp false y t m = let (x, mx, d) = mem-moved_rows ns n fp y m in (x, mx, rw t d)

pub mem-refingerprint_row :
    (st : Store) (n : Node) (fp : String) (now : ℕ) (y : Node)
    → Memᴰ y (refingerprint_row st n fp now).0.nodes
    → (x : Node) × Memᴰ x st.nodes × (y ≡ new_row st.nodes n fp x)
mem-refingerprint_row st n fp now y m =
    mem-new_row st.nodes n fp (returns st.nodes n fp) y refl
      (rw (nodes-refingerprint_row st n fp now) at m)

module _ (ns : List Node) (n : Node) (fp : String) where
  abbrev pub base : String
  base = before_hash n.pool

  abbrev pub target : String
  target = target_pool ns base n.id fp

  pub new_row-revoked : (x : Node) → (new_row ns n fp x).revoked ≡ x.revoked
  unfolding new_row
  new_row-revoked x = ground arith

  -- The node itself lands in the target pool with its new fingerprint.
  pub new_row_self :
      (x : Node)
      → same x.id n.id ≡ true
      → ((new_row ns n fp x).pool ≡ target) × ((new_row ns n fp x).fingerprint ≡ fp)
  unfolding new_row target_pool
  new_row_self x h = ground (arith, same_iff (derived_pool base fp) base)

  -- Any other keeps its fingerprint, and its pool unless it comes back to the target.
  pub new_row-other :
      (x : Node)
      → same x.id n.id ≡ false
      → ((new_row ns n fp x).fingerprint ≡ x.fingerprint)
        × (((new_row ns n fp x).pool ≡ x.pool) ⊎ ((new_row ns n fp x).pool ≡ target))
  unfolding new_row
  new_row-other x h = ground (arith, same_iff target base)

  pub in_derived :
      (x : Node)
      → IsWellNamed ns
      → IsTold ns fp
      → Memᴰ x ns
      → x.pool ≡ derived_pool base fp
      → x.fingerprint ≡ fp
  in_derived x named told m e = go (named x m)
    where
      at_base : before_hash x.pool ≡ base
      at_base = ap before_hash e ∙ before_hash-derived_pool n.pool fp

      go :
          (x.pool ≡ before_hash x.pool) ⊎ (x.pool ≡ derived_pool (before_hash x.pool) x.fingerprint)
          → x.fingerprint ≡ fp
      go (inl plain) = absurd (derived_pool-ne base fp (sym e ∙ plain ∙ at_base))
      go (inr split) = told x m (
          derived_pool_injective base x.fingerprint fp
            (ap (λ b. derived_pool b x.fingerprint) (sym at_base) ∙ sym split ∙ e))

  pub in_base :
      (x : Node)
      → Memᴰ x ns
      → x.revoked ≡ false
      → same x.id n.id ≡ false
      → x.pool ≡ base
      → others_match ns base n.id fp ≡ true
      → x.fingerprint ≡ fp
  unfolding others_match
  in_base x m r h e o =
      (same_iff x.fingerprint fp).0 (all-retain _ _ x ns o m (ground (arith, same_iff x.pool base)))
