-- ===== src/Node/Admission.antt =====
-- crates/sandstorm-core/src/node/mod.rs, node/runtime.rs: which commands a node does not run for want of
-- memory, and how long it backs off. A pressure average is in hundredths, a duration in milliseconds. A
-- refusal is a constructor with the numbers that the source prints into its message.
pub mod Floor
use forkd.Prelude.{
  ℕ, ◌*◌, ◌/◌, ◌^◌, Bool, true, false, ◌&&◌, Option, none, some, ltb, min, if◌then◌else◌,
}
use forkd.Tier.{hot, tier_eq}
use forkd.Proto.{Command, create, set_tier}

pub record HostReading : Type 0 where
  pub free_mib : ℕ
  pub swap_free_mib : ℕ
  pub swap_total_mib : ℕ
  pub psi : ℕ

unfoldable pub swap_floor_mib : HostReading → ℕ → Option ℕ
swap_floor_mib r min_free_mib =
    if ltb 0 r.swap_total_mib then some (min min_free_mib (r.swap_total_mib / 4)) else none

abbrev below : ℕ → Option ℕ → Bool
below free none = false
below free (some floor) = ltb free floor

unfoldable pub swap_short : HostReading → ℕ → Bool
unfolding swap_floor_mib
swap_short r min_free_mib = below r.swap_free_mib (swap_floor_mib r min_free_mib)

pub data HeldBack : Type 0 where
  memory : (free_mib min_free_mib : ℕ) → HeldBack
  swap : (swap_free_mib floor_mib : ℕ) → HeldBack
  pressure : (psi max_psi : ℕ) → HeldBack

abbrev or_zero : Option ℕ → ℕ
or_zero none = 0
or_zero (some n) = n

unfoldable pub short_of : ℕ → HostReading → Option HeldBack
unfolding swap_floor_mib swap_short
short_of min_free_mib r =
    if ltb 0 r.free_mib && ltb r.free_mib min_free_mib
    then some (memory r.free_mib min_free_mib)
    else if swap_short r min_free_mib
    then some (swap r.swap_free_mib (or_zero (swap_floor_mib r min_free_mib)))
    else none

unfoldable pub costs_memory : {V : Type 0} → Command V → Bool
costs_memory (create c) = true
costs_memory (set_tier id tier) = tier_eq tier hot
costs_memory _ = false

unfoldable pub holding_back_at : {V : Type 0} → ℕ → ℕ → Command V → HostReading → Option HeldBack
unfolding short_of costs_memory
holding_back_at min_free_mib max_psi cmd r =
    if costs_memory cmd
    then elim (short_of min_free_mib r) [
      | some why ↦ some why
      | none ↦ if ltb max_psi r.psi then some (pressure r.psi max_psi) else none
    ]
    else none

abbrev pub backoff_min : ℕ
backoff_min = 500

abbrev pub backoff_max : ℕ
backoff_max = 60000

-- The shift stays below 2 ^ 32, and the product far below where `saturating_mul` stops.
unfoldable pub backoff_for : ℕ → ℕ
backoff_for attempts = min (backoff_min * 2 ^ min attempts 7) backoff_max
