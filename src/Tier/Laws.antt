-- ===== src/Tier/Laws.antt =====
-- crates/sandstorm-core/src/tier.rs: laws of the tiers, their names and the idle policy.
use forkd.Prelude.{ℕ, suc, ◌≤◌, ◌<◌, ◌≡◌, refl, ◌⊎◌, some, arith}
use forkd.Tier.{
  Tier, hot, frozen, snapshot, detached, rank, as_str, from_str, colder, IdlePolicy, tier_for_idle,
}

-- Every tier's name reads back as the tier.
pub from_str-as_str : (t : Tier) → from_str (as_str t) ≡ some t
unfolding from_str as_str
from_str-as_str hot = refl
from_str-as_str frozen = refl
from_str-as_str snapshot = refl
from_str-as_str detached = refl

-- Demotion goes one rank at a time.
pub rank-colder : (t u : Tier) → colder t ≡ some u → rank u ≡ suc (rank t)
unfolding colder
rank-colder t u h = ground arith

pub rank_injective : (t u : Tier) → rank t ≡ rank u → t ≡ u
rank_injective t u h = ground arith

-- The thresholds in the order that the policy's documentation gives them.
pub record IsOrdered (p : IdlePolicy) : Type 0 where
  pub frozen_first : p.to_frozen ≤ p.to_snapshot
  pub snapshot_first : p.to_snapshot ≤ p.to_detached

-- When the thresholds are in order, a longer idle time never asks for a warmer tier.
pub tier_for_idle_mono :
    (p : IdlePolicy) (a b : ℕ)
    → IsOrdered p
    → a ≤ b
    → rank (tier_for_idle p a) ≤ rank (tier_for_idle p b)
unfolding tier_for_idle
tier_for_idle_mono p a b o h = ground arith

-- When the thresholds are in order, the tier that the policy asks for is the coldest whose threshold
-- has passed, and hot when none has.
pub tier_for_idle_thresholds :
    (p : IdlePolicy) (idle : ℕ)
    → IsOrdered p
    → ((tier_for_idle p idle ≡ hot) × (idle < p.to_frozen))
      ⊎ ((tier_for_idle p idle ≡ frozen) × (p.to_frozen ≤ idle) × (idle < p.to_snapshot))
      ⊎ ((tier_for_idle p idle ≡ snapshot) × (p.to_snapshot ≤ idle) × (idle < p.to_detached))
      ⊎ ((tier_for_idle p idle ≡ detached) × (p.to_detached ≤ idle))
unfolding tier_for_idle
tier_for_idle_thresholds p idle o = ground arith
