-- ===== src/Master/Create/Whole.antt =====
-- crates/sandstorm-core/src/master/api.rs (`create_sandbox`): the handler from the request to the rows.
use forkd.Prelude.{
  same, ℕ, suc, zero, ◌≤◌, ◌≡◌, refl, sym, ap, ◌∙◌, subst, String, Option, none, List, [], arith,
  length, ◌⊎◌, inl, inr, Option-cases, Either-cases, Bool-cases,
}
use forkd.Proto.{Egress}
use forkd.Store.{Sandbox, Node}
use forkd.Master.{MasterState}
use forkd.Master.Demotion.Steps.{wake_all-store}
use forkd.Master.Placement.{
  Pick, Refusal, picked, pick_node, pick_node_where, too_loaded, not_connected, no_template,
}
use forkd.Master.Create.{
  NewSandbox, Wanted, CreateError, Texts, validate, or_one, is_true, is_given, max_fork_width,
  count_error, source_of, egress_of, backend_of, unsafe_tag,
}
use forkd.Master.Create.Place.{
  Place, Placed, SpecView, copies, spread, placed_on, place_for, more_on, in_pool_of, on_node, like,
}
use forkd.Master.Create.Batch.{Random, create_sandbox, write, write_each, default_rules}
use forkd.Master.Create.Rows.{Written, write_each-Written, inl-injective}

count_error-none :
    (t : Texts) (req : NewSandbox)
    → count_error t req ≡ none
    → (1 ≤ or_one req.n) × (or_one req.n ≤ max_fork_width)
unfolding count_error
count_error-none t req h = ground arith

-- A request that passes asks for between one child and the most a fork may have.
validate-count :
    (t : Texts) (req : NewSandbox) (d : Egress) (w : Wanted)
    → validate t req d ≡ inl w
    → (w.count ≡ or_one req.n) × (1 ≤ or_one req.n) × (or_one req.n ≤ max_fork_width)
unfolding validate
validate-count t req d w = elim (Bool-cases (is_true req.live_fork)) [
  | inl a ↦ rw (validate, a) (λ q. absurd (ground arith))
  | inr a ↦ elim (Bool-cases (is_true req.hugepages)) [
    | inl b ↦ rw (validate, a, b) (λ q. absurd (ground arith))
    | inr b ↦ elim (Bool-cases (unsafe_tag t req.snapshot_tag)) [
      | inl c ↦ rw (validate, a, b, c) (λ q. absurd (ground arith))
      | inr c ↦ elim (Either-cases (source_of t req)) [
        | inr (x, e) ↦ rw (validate, a, b, c, e) (λ q. absurd (ground arith))
        | inl ((template, from_tag), e) ↦ elim (Option-cases (egress_of t req d)) [
          | inl f ↦ rw (validate, a, b, c, e, f) (λ q. absurd (ground arith))
          | inr (egress, f) ↦ elim (Option-cases (count_error t req)) [
            | inr (x, g) ↦ rw (validate, a, b, c, e, f, g) (λ q. absurd (ground arith))
            | inl g ↦ elim (Either-cases (backend_of t req (is_given from_tag))) [
              | inr (x, i) ↦ rw (validate, a, b, c, e, f, g, i) (λ q. absurd (ground arith))
              | inl (backend, i) ↦
                  rw (validate, a, b, c, e, f, g, i)
                    (λ q.
                      let (low, high) = count_error-none t req g in
                      (sym (ap (λ (v : Wanted). v.count) (inl-injective q)), low, high))
            ]
          ]
        ]
      ]
    ]
  ]
]

length-copies : (n : ℕ) (p : String × String) → length (copies n p) ≡ n
unfolding copies
length-copies zero p = refl
length-copies (suc n) p = ap suc (length-copies n p)

-- A choice of a node, or one of its refusals.
pub Pick-cases :
    (p : Pick)
    → ((n : Node) × (p ≡ picked n))
      ⊎ (((rs : List (String × Refusal)) × (p ≡ too_loaded rs))
          ⊎ ((p ≡ not_connected) ⊎ (p ≡ no_template)))
Pick-cases (picked n) = inl (n, refl)
Pick-cases (too_loaded rs) = inr (inl (rs, refl))
Pick-cases not_connected = inr (inr (inl refl))
Pick-cases no_template = inr (inr (inr refl))

length-spread :
    {V : Type 0} (st : MasterState V) (now n : ℕ) (fingerprint : String) (extra : List (String × ℕ))
    (ps : Placed)
    → spread st now n fingerprint extra ≡ inl ps
    → length ps ≡ n
unfolding spread
length-spread st now zero fingerprint extra ps = λ q. sym (ap length (inl-injective q))
length-spread st now (suc n) fingerprint extra ps =
    elim (Pick-cases
      (pick_node_where st now extra 1 (λ (n : Node). same n.fingerprint fingerprint))) [
        | inl (m, e) ↦ elim (Either-cases (spread st now n fingerprint (more_on m.id extra))) [
          | inl (rest, f) ↦
              rw (spread, e, f)
                (λ q.
                  ap length (sym (inl-injective q))
                  ∙ ap suc (length-spread st now n fingerprint (more_on m.id extra) rest f))
          | inr (x, f) ↦ rw (spread, e, f) (λ q. absurd (ground arith))
        ]
        | inr (inl (rs, e)) ↦ rw (spread, e) (λ q. absurd (ground arith))
        | inr (inr (inl e)) ↦ rw (spread, e) (λ q. absurd (ground arith))
        | inr (inr (inr e)) ↦ rw (spread, e) (λ q. absurd (ground arith))
      ]

length-placed_on :
    {V : Type 0} (st : MasterState V) (now : ℕ) (req : NewSandbox) (template : String) (n : ℕ)
    (p : Place) (ps : Placed)
    → placed_on st now req template n p ≡ inl ps
    → length ps ≡ n
unfolding placed_on
length-placed_on st now req template n (in_pool_of pool backend) ps =
    elim (Pick-cases (pick_node st now pool backend template n)) [
      | inl (m, e) ↦
          rw (placed_on, e)
            (λ q. ap length (sym (inl-injective q)) ∙ length-copies n (m.id, m.pool))
      | inr (inl (rs, e)) ↦ rw (placed_on, e) (λ q. absurd (ground arith))
      | inr (inr (inl e)) ↦ rw (placed_on, e) (λ q. absurd (ground arith))
      | inr (inr (inr e)) ↦ rw (placed_on, e) (λ q. absurd (ground arith))
    ]
length-placed_on st now req template n (on_node node) ps =
    λ q. ap length (sym (inl-injective q)) ∙ length-copies n _
length-placed_on st now req template n (like fingerprint tag) ps =
    elim (Either-cases (spread st now n fingerprint [])) [
      | inl (qs, e) ↦
          rw (placed_on, e)
            (λ q. ap length (sym (inl-injective q)) ∙ length-spread st now n fingerprint [] qs e)
      | inr (x, e) ↦ rw (placed_on, e) (λ q. absurd (ground arith))
    ]

-- What a request leaves: as it was when it is refused, and else that many rows more.
abbrev pub Whole :
    {V : Type 0} → MasterState V → ℕ → MasterState V × (List Sandbox ⊎ CreateError) → Type 0
Whole st n (after, inr e) = after ≡ st
Whole st n (after, inl made) =
    (1 ≤ n) × (n ≤ max_fork_width) × Written st.store n (after.store, made)

write-Whole :
    {V : Type 0} (st : MasterState V) (rand : Random) (req : NewSandbox) (w : Wanted)
    (template : String) (tag_port : Option ℕ) (now : ℕ) (placed : Placed)
    → (1 ≤ length placed) × (length placed ≤ max_fork_width)
    → Whole st (length placed) (write st rand req w template tag_port now placed)
unfolding write
write-Whole st rand req w template tag_port now placed (low, high) =
    elim (Either-cases (write_each st rand req w template tag_port now 0 placed st.store)) [
      | inr (x, e) ↦ rw (write, e) refl
      | inl ((after, made), e) ↦
          rw (write, e)
            (
              low,
              high,
              subst (λ s. Written st.store (length placed) (s, made)) (sym (wake_all-store _ _))
                  (write_each-Written st rand req w template tag_port now 0 placed st.store
                    (after, made) e),
            )
    ]

-- A request to create sandboxes that is refused leaves the master as it was. One that is granted asked for one
-- to 256 children, adds that many rows to the store and changes nothing else in it, and if no two rows had one
-- id and no two of a node one slot, that still holds.
pub create_sandbox-Whole :
    {V : Type 0} (t : Texts) (view : SpecView) (rand : Random) (st : MasterState V)
    (req : NewSandbox) (now : ℕ)
    → Whole st (or_one req.n) (create_sandbox t view rand st req now)
unfolding create_sandbox
create_sandbox-Whole t view rand st req now =
    elim (Either-cases (validate t req (default_rules st.store.default_egress))) [
      | inr (x, e) ↦ rw (create_sandbox, e) refl
      | inl (w, e) ↦ elim (Either-cases (place_for st view req w)) [
        | inr (x, f) ↦ rw (create_sandbox, e, f) refl
        | inl ((template, place, tag_port), f) ↦
            elim (Either-cases (placed_on st now req template w.count place)) [
              | inr (x, g) ↦ rw (create_sandbox, e, f, g) refl
              | inl (placed, g) ↦
                  let (count, low, high) =
                    validate-count t req (default_rules st.store.default_egress) w e in
                  let n = length-placed_on st now req template w.count place placed g ∙ count in
                  rw (create_sandbox, e, f, g)
                    (subst (λ k. Whole st k (write st rand req w template tag_port now placed)) n
                      (write-Whole st rand req w template tag_port now placed (rw n (low, high))))
            ]
      ]
    ]
