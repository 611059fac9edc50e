-- ===== src/Tier.antt =====
-- crates/sandstorm-core/src/tier.rs: the four lifecycle tiers and the idle policy.
pub mod Laws
use forkd.Prelude.{
  ℕ, ◌+◌, ◌*◌, String, Bool, true, false, Option, none, some, List, [], ◌∷◌, ltb, leb, same,
  if◌then◌else◌,
}

pub data Tier : Type 0 where
  hot frozen snapshot detached : Tier

unfoldable pub order : List Tier
order = hot ∷ frozen ∷ snapshot ∷ detached ∷ []

-- The derived order: a constructor's place in the declaration, coldest last.
abbrev pub rank : Tier → ℕ
rank hot = 0
rank frozen = 1
rank snapshot = 2
rank detached = 3

-- The derived `<`, `>=` and `==`.
abbrev pub warmer : Tier → Tier → Bool
warmer a b = ltb (rank a) (rank b)

abbrev pub at_least : Tier → Tier → Bool
at_least a b = leb (rank b) (rank a)

abbrev pub tier_eq : Tier → Tier → Bool
tier_eq hot hot = true
tier_eq frozen frozen = true
tier_eq snapshot snapshot = true
tier_eq detached detached = true
tier_eq _ _ = false

unfoldable pub as_str : Tier → String
as_str hot = "hot"
as_str frozen = "frozen"
as_str snapshot = "snapshot"
as_str detached = "detached"

unfoldable pub colder : Tier → Option Tier
colder hot = some frozen
colder frozen = some snapshot
colder snapshot = some detached
colder detached = none

unfoldable pub path_to_hot : Tier → List Tier
path_to_hot hot = []
path_to_hot frozen = hot ∷ []
path_to_hot snapshot = hot ∷ []
path_to_hot detached = hot ∷ []

unfoldable pub holds_memory : Tier → Bool
holds_memory hot = true
holds_memory frozen = true
holds_memory _ = false

unfoldable pub holds_local_disk : Tier → Bool
holds_local_disk detached = false
holds_local_disk _ = true

abbrev pub is_serving : Tier → Bool
is_serving hot = true
is_serving _ = false

-- The `match` of `from_str`; `none` is its error.
unfoldable pub from_str : String → Option Tier
unfolding same
from_str s =
    if same s "hot"
    then some hot
    else if same s "frozen"
    then some frozen
    else if same s "snapshot"
    then some snapshot
    else if same s "detached"
    then some detached
    else none

-- Durations in seconds.
pub record IdlePolicy : Type 0 where
  pub to_frozen : ℕ
  pub to_snapshot : ℕ
  pub to_detached : ℕ

unfoldable pub default_policy : IdlePolicy
default_policy = record { to_frozen = 30; to_snapshot = 5 * 60; to_detached = 60 * 60 }

unfoldable pub tier_for_idle : IdlePolicy → ℕ → Tier
tier_for_idle p idle =
    if leb p.to_detached idle
    then detached
    else if leb p.to_snapshot idle
    then snapshot
    else if leb p.to_frozen idle
    then frozen
    else hot
