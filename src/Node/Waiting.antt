-- ===== src/Node/Waiting.antt =====
-- crates/sandstorm-core/src/node/mod.rs, master/api.rs: commands that a node puts off, how the master
-- leaves them out of its answer, and the order in which a batch is run. An `Instant` is a number of
-- nanoseconds, and a map of them a list of its entries.
pub mod Due
pub mod Groups
use forkd.Prelude.{
  ℕ, zero, suc, ◌+◌, ◌-◌, ◌*◌, ◌/◌, ◌%◌, String, Bool, true, false, Option, none, some, List, [],
  ◌∷◌, map, leb, ltb, same, min, max, find, retain, if◌then◌else◌,
}
use forkd.Proto.{Command, Deferred, PollRequest, command_id, create}

abbrev pub nanos_per_ms : ℕ
nanos_per_ms = 1000000

abbrev pub u64_size : ℕ
u64_size = 18446744073709551616

-- The entries that are not due yet, and what the node says of them. The number of milliseconds is cut to 64 bits, and one
-- more than it wraps there.
unfoldable pub still_deferred : List (String × ℕ) → ℕ → List (String × ℕ) × List Deferred
still_deferred deferred now =
    let left = retain (λ e. ltb now e.1) deferred in
    (
      left,
      map
          (λ e. record {
            id = e.0;
            retry_in_ms = suc ((e.1 - now) / nanos_per_ms % u64_size) % u64_size;
          })
          left,
    )

abbrev pub least : List ℕ → Option ℕ
least [] = none
least (x ∷ xs) = elim (least xs) [ none ↦ some x | some y ↦ some (min x y) ]

unfoldable pub hold_for : List (String × ℕ) → ℕ → ℕ → ℕ
hold_for deferred hold now = elim (least (map (λ e. e.1 - now) deferred)) [
  | none ↦ hold
  | some due ↦ min due hold
]

-- Collecting into a map keeps the last entry of an id.
abbrev pub last_retry : String → List Deferred → Option ℕ
last_retry id [] = none
last_retry id (d ∷ ds) = elim (last_retry id ds) [
  | some ms ↦ some ms
  | none ↦ if same d.id id then some d.retry_in_ms else none
]

abbrev pub is_due : ℕ → Option ℕ → Bool
is_due waited none = true
is_due waited (some ms) = leb (ms * nanos_per_ms) waited

abbrev pub left_in : {V : Type 0} → List Deferred → ℕ → List (Command V) → List (Command V)
left_in [] waited commands = commands
left_in (d ∷ ds) waited commands =
    retain (λ cmd. is_due waited (last_retry (command_id cmd) (d ∷ ds))) commands

unfoldable pub leave_out_deferred :
    {V : Type 0} → List (Command V) → PollRequest → ℕ → List (Command V)
leave_out_deferred commands req waited = left_in req.deferred waited commands

abbrev pub is_create : {V : Type 0} → Command V → Bool
is_create (create c) = true
is_create _ = false

unfoldable pub count_creates : {V : Type 0} → List (Command V) → ℕ
count_creates [] = 0
count_creates (c ∷ cs) = let rest = count_creates cs in if is_create c then suc rest else 0

unfoldable pub split_at {ℓ} : {A : Type ℓ} → ℕ → List A → List A × List A
split_at zero xs = ([], xs)
split_at (suc n) [] = ([], [])
split_at (suc n) (x ∷ xs) = let (front, rest) = split_at n xs in (x ∷ front, rest)

abbrev pub count : {V : Type 0} → List (Command V) → ℕ
count [] = 0
count (c ∷ cs) = suc (count cs)

unfoldable pub next_group : {V : Type 0} → List (Command V) → List (Command V) × List (Command V)
next_group commands = split_at (min (max (count_creates commands) 1) (count commands)) commands
