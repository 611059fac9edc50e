-- ===== src/Node/Admission/Floor.antt =====
-- crates/sandstorm-core/src/node/mod.rs: laws of `holding_back_at` and `backoff_for`.
use forkd.Prelude.{
  String, refl, true, ℕ, zero, suc, ◌*◌, ◌/◌, ◌^◌, ◌≤◌, ◌<◌, ◌≡◌, ◌↔◌, ◌⊎◌, inl, inr, none, arith,
  ltb, min, Bool-cases,
}
use forkd.Tier.{hot, frozen, snapshot, detached}
use forkd.Proto.{
  Command, CreateArgs, create, set_tier, pull_template, set_egress, destroy, branch, drop_tag, exec,
  set_backend,
}
use forkd.Node.Admission.{
  HostReading, swap_floor_mib, swap_short, short_of, costs_memory, holding_back_at, backoff_for,
}

-- There is room on the host, by a node's own floor and ceiling. A reading of no memory at all is one
-- that failed.
pub record HasRoom (min_free_mib max_psi : ℕ) (r : HostReading) : Type 0 where
  pub memory : (r.free_mib ≡ 0) ⊎ (min_free_mib ≤ r.free_mib)
  pub swap :
      (r.swap_total_mib ≡ 0)
      ⊎ (min_free_mib ≤ r.swap_free_mib)
      ⊎ (r.swap_total_mib / 4 ≤ r.swap_free_mib)
  pub pressure : r.psi ≤ max_psi

-- What brings a sandbox up: its creation, and the tier Hot.
abbrev pub BringsUp : {V : Type 0} → Command V → Type 0
BringsUp {V = V} cmd =
    ((c : CreateArgs V) × (cmd ≡ create c)) ⊎ ((id : String) × (cmd ≡ set_tier id hot))

BringsUp-costs_memory : {V : Type 0} (cmd : Command V) → BringsUp cmd → costs_memory cmd ≡ true
unfolding costs_memory
BringsUp-costs_memory cmd (inl (c, e)) = rw e refl
BringsUp-costs_memory cmd (inr (id, e)) = rw e refl

costs_memory-BringsUp : {V : Type 0} (cmd : Command V) → costs_memory cmd ≡ true → BringsUp cmd
unfolding costs_memory
costs_memory-BringsUp (create c) h = inl (c, refl)
costs_memory-BringsUp (set_tier id hot) h = inr (id, refl)
costs_memory-BringsUp (set_tier id frozen) h = cc
costs_memory-BringsUp (set_tier id snapshot) h = cc
costs_memory-BringsUp (set_tier id detached) h = cc
costs_memory-BringsUp (pull_template a b c) h = cc
costs_memory-BringsUp (set_egress a b) h = cc
costs_memory-BringsUp (destroy a b) h = cc
costs_memory-BringsUp (branch a b c) h = cc
costs_memory-BringsUp (drop_tag a) h = cc
costs_memory-BringsUp (exec a b c d) h = cc
costs_memory-BringsUp (set_backend a b) h = cc

-- The test of a reading holds a command back exactly when the command brings a sandbox up and there is no room on the host.
pub runs_exactly :
    {V : Type 0} (min_free_mib max_psi : ℕ) (cmd : Command V) (r : HostReading)
    → (holding_back_at min_free_mib max_psi cmd r ≡ none)
      ↔ ((¬ BringsUp cmd) ⊎ HasRoom min_free_mib max_psi r)
unfolding holding_back_at short_of swap_short swap_floor_mib
runs_exactly m p cmd r = (forth, back)
  where
    forth : holding_back_at m p cmd r ≡ none → (¬ BringsUp cmd) ⊎ HasRoom m p r
    forth h = elim (Bool-cases (costs_memory cmd)) [
      | inr e ↦ inl (λ b. ground (arith, e, BringsUp-costs_memory cmd b))
      | inl e ↦ inr (record {
        memory = ground (arith, e, h);
        swap = ground (arith, e, h);
        pressure = ground (arith, e, h);
      })
    ]

    back : (¬ BringsUp cmd) ⊎ HasRoom m p r → holding_back_at m p cmd r ≡ none
    back (inl n) = elim (Bool-cases (costs_memory cmd)) [
      | inl e ↦ absurd (n (costs_memory-BringsUp cmd e))
      | inr e ↦ ground (arith, e)
    ]
    back (inr room) = ground (arith, room.memory, room.swap, room.pressure)

pow_positive : (k : ℕ) → 1 ≤ 2 ^ k
pow_positive zero = omega arith
pow_positive (suc k) = omega (arith, pow_positive k)

pow_mono : (k m : ℕ) → k ≤ m → 2 ^ k ≤ 2 ^ m
pow_mono zero m h = pow_positive m
pow_mono (suc k) zero h = absurd (omega arith)
pow_mono (suc k) (suc m) h = omega (arith, pow_mono k m (omega arith))

-- The exponent of the next attempt is one more, until it stops at 7.
exponent : (a : ℕ) → (min (suc a) 7 ≡ suc (min a 7)) ⊎ (min (suc a) 7 ≡ min a 7)
exponent a = elim (Bool-cases (ltb a 7)) [ inl e ↦ inl (ground arith) | inr e ↦ inr (ground arith) ]

-- The backoff lies between its bounds, never shrinks with another attempt, and doubles until the
-- seventh attempt would pass the upper bound.
pub backoff_growth :
    (a : ℕ)
    → (500 ≤ backoff_for a)
      × (backoff_for a ≤ 60000)
      × (backoff_for a ≤ backoff_for (suc a))
      × (a < 6 → backoff_for (suc a) ≡ 2 * backoff_for a)
unfolding backoff_for
backoff_growth a = elim (exponent a) [
  | inl e ↦ (
    omega (arith, pow_positive (min a 7)),
    omega arith,
    rw e (omega (arith, pow_positive (min a 7))),
    λ h. rw e (omega (arith, pow_mono (min a 7) 5 (omega arith))),
  )
  | inr e ↦ (
    omega (arith, pow_positive (min a 7)),
    omega arith,
    rw e (omega arith),
    λ h. absurd (omega arith),
  )
]
