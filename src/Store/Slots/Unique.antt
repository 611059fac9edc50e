-- ===== src/Store/Slots/Unique.antt =====
-- crates/sandstorm-core/src/state.rs: `allocate_net_index` and `insert_sandbox` together.
use mathlib.Core.Option.{some-injective}
use forkd.Prelude.{
  ℕ, ◌≤◌, ◌≡◌, refl, sym, ap, String, Bool, false, ◌&&◌, Option, none, some, List, [], ◌∷◌, arith,
  same, same_iff, ◌==◌, any, retain, length, Bool-cases, inl, inr,
}
use forkd.Store.{Sandbox, Store}
use forkd.Store.Sandboxes.{has_id, insert_sandbox}
use forkd.Store.Slots.{allocate_net_index}
use forkd.Store.Slots.Lowest.{allocate_slot_lowest, holds, is_taken}

abbrev net_index_of : Sandbox → Option ℕ
net_index_of s = s.net_index

-- How many of the rows hold this slot of the node.
abbrev pub holders : String → ℕ → List Sandbox → ℕ
holders node v ss = length (retain (holds net_index_of node v) ss)

-- A slot of a node has at most one holder.
abbrev pub IsUnique : List Sandbox → Type 0
IsUnique ss = (node : String) (v : ℕ) → holders node v ss ≤ 1

length-retain_none :
    {A : Type 0} (p : A → Bool) (xs : List A) → any p xs ≡ false → length (retain p xs) ≡ 0
unfolding any retain
length-retain_none p [] h = refl
length-retain_none p (x ∷ xs) h = ground (arith, length-retain_none p xs)

inserted :
    (st st' : Store) (s : Sandbox)
    → insert_sandbox st s ≡ some st'
    → st'.sandboxes ≡ record s { last_error = none; error_attempts = 0; ip = none } ∷ st.sandboxes
unfolding insert_sandbox
inserted st st' s h = elim (Bool-cases (any (has_id s.id) st.sandboxes)) [
  | inl e ↦ absurd (ground (arith, e, h))
  | inr e ↦ ap (λ (t : Store). t.sandboxes) (sym (some-injective _ st' (rw e at h)))
]

-- When every slot of a node has at most one holder, inserting a sandbox with the slot that its node
-- allocated for it keeps that so.
pub insert_sandbox-IsUnique :
    (st st' : Store) (s : Sandbox) (max_index v : ℕ)
    → IsUnique st.sandboxes
    → allocate_net_index st s.node_id max_index ≡ some v
    → s.net_index ≡ some v
    → insert_sandbox st s ≡ some st'
    → IsUnique st'.sandboxes
unfolding allocate_net_index retain
insert_sandbox-IsUnique st st' s max_index v unique found slot done node w =
    rw (inserted st st' s done, slot)
      (elim (Bool-cases (same s.node_id node && v == w)) [
        | inr e ↦ rw e (unique node w)
        | inl e ↦
            let at : s.node_id ≡ node = (same_iff s.node_id node).0 (ground (arith, e)) in
            let it : v ≡ w = ground (arith, e) in
            let empty : holders node w st.sandboxes ≡ 0 =
              rw (← at, ← it)
                (length-retain_none (holds net_index_of s.node_id v) st.sandboxes free) in
            rw e omega (arith, empty)
      ])
  where
    free : is_taken st net_index_of s.node_id v ≡ false
    free = (allocate_slot_lowest st net_index_of s.node_id 0 max_index v found).2
