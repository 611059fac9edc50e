-- ===== src/Node/Starting.antt =====
-- crates/sandstorm-core/src/node/starting.rs: memory that a node has promised and not yet seen used.
-- Times are in milliseconds. The map is a list of its entries, and the sum is not bounded.
pub mod Kept
use forkd.Prelude.{
  ℕ, suc, ◌+◌, ◌-◌, String, Bool, true, false, not, Option, none, some, List, [], ◌∷◌, leb, same,
  retain, if◌then◌else◌,
}

abbrev pub sample : ℕ
sample = 300

abbrev flat_mib : ℕ
flat_mib = 2

abbrev flat_looks : ℕ
flat_looks = 2

abbrev pub window : ℕ
window = 30000

abbrev no_limit_mib : ℕ
no_limit_mib = 512

pub record Entry : Type 0 where
  pub started : ℕ
  pub limit_mib : ℕ
  pub seen_mib : ℕ
  pub seen_at : ℕ
  pub flat : ℕ
  pub promised : Bool

abbrev or_no_limit : Option ℕ → ℕ
or_no_limit none = no_limit_mib
or_no_limit (some n) = n

abbrev pub Starting : Type 0
Starting = List (String × Entry)

unfoldable pub forget : String → Starting → Starting
forget id s = retain (λ e. not (same e.0 id)) s

unfoldable pub insert : String → Option ℕ → ℕ → Bool → Starting → Starting
unfolding forget
insert id limit_mib now promised s =
    (
      id,
      record {
        started = now;
        limit_mib = or_no_limit limit_mib;
        seen_mib = 0;
        seen_at = now;
        flat = 0;
        promised = promised;
      },
    )
    ∷ forget id s

unfoldable pub add : String → Option ℕ → ℕ → Starting → Starting
add id limit_mib now s = insert id limit_mib now false s

unfoldable pub promise : String → Option ℕ → ℕ → Starting → Starting
promise id limit_mib now s = insert id limit_mib now true s

-- The entry after a look at its sandbox's memory, when enough time has passed for one.
abbrev pub look : Entry → ℕ → ℕ → Entry
look e now mib =
    if leb sample (now - e.seen_at)
    then record e {
      flat = if leb mib (e.seen_mib + flat_mib) then suc e.flat else 0;
      seen_mib = mib;
      seen_at = now;
    }
    else e

-- The entry is let go only right after a look.
abbrev pub stopped : Entry → ℕ → ℕ → Bool
stopped e now mib =
    if leb sample (now - e.seen_at) then leb flat_looks (look e now mib).flat else false

-- What becomes of one entry, and what it adds to the sum.
unfoldable pub owed_by : ℕ → Option ℕ → Entry → Option (Entry × ℕ)
owed_by now used e =
    if leb window (now - e.started)
    then none
    else if e.promised
    then some (e, e.limit_mib)
    else elim used [
      | none ↦ none
      | some mib ↦ if stopped e now mib then none else some (look e now mib, e.limit_mib - mib)
    ]

unfoldable pub owed_mib : ℕ → (String → Option ℕ) → Starting → Starting × ℕ
owed_mib now used [] = ([], 0)
owed_mib now used ((id, e) ∷ s) =
    let (kept, owed) = owed_mib now used s in
    elim (owed_by now (used id) e) [
      | none ↦ (kept, owed)
      | some (e', more) ↦ ((id, e') ∷ kept, more + owed)
    ]
