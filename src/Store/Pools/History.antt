-- ===== src/Store/Pools/History.antt =====
-- crates/sandstorm-core/src/state.rs: laws of `note_pool` and the history that it keeps.
use forkd.Prelude.{
  ℕ, ◌≤◌, ◌≡◌, refl, ap, ◌≢◌, inl, inr, String, true, false, Option, none, some, List, [], ◌∷◌,
  arith, same, same_refl, same_iff, Bool-cases, find, length, retain, update_where,
}
use forkd.Store.{PoolStretch}
use forkd.Store.Pools.{is_open, in_it, note_pool, open_pool}

abbrev close : ℕ → PoolStretch → PoolStretch
close now s = record s { until = some now }

-- How many stretches of the node have no end.
abbrev pub open_stretches : String → List PoolStretch → ℕ
open_stretches node ps = length (retain (is_open node) ps)

find-closed :
    (node other : String) (now : ℕ) (ps : List PoolStretch)
    → node ≢ other
    → find (is_open other) (update_where (is_open node) (close now) ps) ≡ find (is_open other) ps
unfolding find update_where
find-closed node other now [] h = refl
find-closed node other now (s ∷ ps) h =
    ground (arith, find-closed node other now ps h, same_iff s.node node, same_iff s.node other)

none_open :
    (node : String) (now : ℕ) (ps : List PoolStretch)
    → open_stretches node (update_where (is_open node) (close now) ps) ≡ 0
unfolding retain update_where
none_open node now [] = refl
none_open node now (s ∷ ps) = ground (arith, none_open node now ps)

others_open :
    (node other : String) (now : ℕ) (ps : List PoolStretch)
    → node ≢ other
    → open_stretches other (update_where (is_open node) (close now) ps) ≡ open_stretches other ps
unfolding retain update_where
others_open node other now [] h = refl
others_open node other now (s ∷ ps) h =
    ground (arith, others_open node other now ps h, same_iff s.node node, same_iff s.node other)

open_pool-here :
    (ps : List PoolStretch) (node pool : String)
    → in_it (open_pool ps node) pool ≡ true
    → open_pool ps node ≡ some pool
open_pool-here ps node pool h = go (open_pool ps node) h
  where
    go : (o : Option String) → in_it o pool ≡ true → o ≡ some pool
    go none h = ground (arith, h)
    go (some p) h = ap some ((same_iff p pool).0 h)

-- When a node that has at most one stretch without an end is noted in a pool, the history has it there,
-- it still has at most one such stretch, and another node is where it was, with the stretches it had.
pub note_pool_current :
    (ps : List PoolStretch) (node pool other : String) (now : ℕ)
    → node ≢ other
    → open_stretches node ps ≤ 1
    → (open_pool (note_pool ps node pool now) node ≡ some pool)
      × (open_pool (note_pool ps node pool now) other ≡ open_pool ps other)
      × (open_stretches node (note_pool ps node pool now) ≤ 1)
      × (open_stretches other (note_pool ps node pool now) ≡ open_stretches other ps)
unfolding note_pool find retain
note_pool_current ps node pool other now h one =
    elim (Bool-cases (in_it (open_pool ps node) pool)) [
      | inl e ↦ rw e (open_pool-here ps node pool e, refl, one, refl)
      | inr e ↦ rw e (
        rw (open_pool, same_refl node) refl,
        rw (open_pool, apart, find-closed node other now ps h) refl,
        rw (same_refl node) (omega (arith, none_open node now ps)),
        rw apart (others_open node other now ps h),
      )
    ]
  where
    apart : same node other ≡ false
    apart = ground (arith, h, same_iff node other)
