-- ===== src/Master/Create/Rows.antt =====
-- crates/sandstorm-core/src/master/api.rs (`create_sandbox`): the rows that a request writes.
use mathlib.Core.Option.{some-injective}
use forkd.Prelude.{
  ℕ, suc, ◌≡◌, refl, sym, ap, ◌∙◌, subst, String, Option, none, some, List, [], ◌∷◌, arith, length,
  ◌⊎◌, inl, inr, Option-cases, Either-cases, Bool-cases, any,
}
use forkd.Store.{Sandbox, Store}
use forkd.Store.Sandboxes.{insert_sandbox, has_id}
use forkd.Store.Sandboxes.Laws.{IsKeyed}
use forkd.Store.Slots.{allocate_gateway_port, allocate_net_index}
use forkd.Store.Slots.Unique.{IsUnique, insert_sandbox-IsUnique}
use forkd.Master.{MasterState}
use forkd.Master.Create.{NewSandbox, Wanted}
use forkd.Master.Create.Place.{Placed}
use forkd.Master.Create.Batch.{Random, child, write_each}

pub inl-injective : {A B : Type 0} {a b : A} → ◌≡◌ {A = A ⊎ B} (inl a) (inl b) → a ≡ b
inl-injective {a = a} p = ap (λ s. elim s [ inl x ↦ x | inr y ↦ a ]) p

-- The rows with the ones made in front, the last one first.
abbrev pub prepend : List Sandbox → List Sandbox → List Sandbox
prepend [] rows = rows
prepend (m ∷ made) rows = prepend made (m ∷ rows)

-- No two rows have one id, and no two rows of a node hold one slot.
abbrev pub IsSound : List Sandbox → Type 0
IsSound rows = IsKeyed rows × IsUnique rows

-- What a transaction makes of the store: the rows of as many children as were placed, and nothing else.
abbrev pub Written : Store → ℕ → Store × List Sandbox → Type 0
Written store n r =
    (length r.1 ≡ n)
    × (r.0 ≡ record store { sandboxes = prepend r.1 store.sandboxes })
    × (IsSound store.sandboxes → IsSound r.0.sandboxes)

inserted :
    (st st' : Store) (s : Sandbox)
    → insert_sandbox st s ≡ some st'
    → st' ≡ record st {
      sandboxes = record s { last_error = none; error_attempts = 0; ip = none } ∷ st.sandboxes;
    }
unfolding insert_sandbox
inserted st st' s h = elim (Bool-cases (any (has_id s.id) st.sandboxes)) [
  | inl e ↦ absurd (ground (arith, e, h))
  | inr e ↦ sym (some-injective _ st' (rw e at h))
]

insert_sandbox-IsKeyed :
    (st st' : Store) (s : Sandbox)
    → insert_sandbox st s ≡ some st'
    → IsKeyed st.sandboxes
    → IsKeyed st'.sandboxes
unfolding insert_sandbox
insert_sandbox-IsKeyed st st' s h k = elim (Bool-cases (any (has_id s.id) st.sandboxes)) [
  | inl e ↦ absurd (ground (arith, e, h))
  | inr e ↦ subst (λ (t : Store). IsKeyed t.sandboxes) (some-injective _ st' (rw e at h)) (e, k)
]

module _ {V : Type 0} (st : MasterState V) (rand : Random) (req : NewSandbox) (w : Wanted)
    (template : String) (tag_port : Option ℕ) (now : ℕ) where
  pub write_each-Written :
      (k : ℕ) (placed : Placed) (store : Store) (r : Store × List Sandbox)
      → write_each st rand req w template tag_port now k placed store ≡ inl r
      → Written store (length placed) r
  unfolding write_each
  write_each-Written k [] store r =
      λ q. subst (Written store 0) (inl-injective q) (refl, refl, λ s. s)
  write_each-Written k ((node, pool) ∷ rest) store r =
      elim (Option-cases (allocate_net_index store node st.max_net_index)) [
        | inl e ↦ rw (write_each, e) (λ q. absurd (ground arith))
        | inr (i, e) ↦
            let sb =
              child st rand req w template tag_port now k (node, pool)
                (allocate_gateway_port store node st.port_range.0 st.port_range.1) i in
            elim (Option-cases (insert_sandbox store sb)) [
              | inl f ↦ rw (write_each, e, f) (λ q. absurd (ground arith))
              | inr (next, f) ↦
                  elim (Either-cases
                    (write_each st rand req w template tag_port now (suc k) rest next)) [
                      | inr (x, g) ↦ rw (write_each, e, f, g) (λ q. absurd (ground arith))
                      | inl (a, g) ↦
                          rw (write_each, e, f, g)
                            (λ q.
                              let (n, rows, sound) = write_each-Written (suc k) rest next a g in
                              let row = inserted store next sb f in
                              subst (Written store (suc (length rest))) (inl-injective q) (
                                ap suc n,
                                rows
                                    ∙ ap
                                        (λ (t : Store). record t {
                                          sandboxes = prepend a.1 t.sandboxes;
                                        })
                                        row,
                                λ s. sound (
                                  insert_sandbox-IsKeyed store next sb f s.0,
                                  insert_sandbox-IsUnique store next sb st.max_net_index i s.1 e
                                      refl f,
                                ),
                              ))
                    ]
            ]
      ]
