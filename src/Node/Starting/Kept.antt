-- ===== src/Node/Starting/Kept.antt =====
-- crates/sandstorm-core/src/node/starting.rs: laws of `owed_mib`.
use forkd.Prelude.{
  ℕ, ◌+◌, ◌-◌, ◌<◌, ◌≡◌, refl, inl, inr, String, true, Option, none, some, [], ◌∷◌, arith, ltb, all,
  Option-cases, Bool-cases, if◌then◌else◌,
}
use forkd.Node.Starting.{Entry, Starting, window, owed_by, owed_mib}

-- What a sandbox can yet take: all its limit before it runs, then the limit less what it uses.
abbrev pub room : (String → Option ℕ) → String × Entry → ℕ
room used (id, e) =
    if e.promised then e.limit_mib else elim (used id) [ none ↦ 0 | some mib ↦ e.limit_mib - mib ]

abbrev pub total_room : (String → Option ℕ) → Starting → ℕ
total_room used [] = 0
total_room used (e ∷ es) = room used e + total_room used es

-- One entry: what it adds is its room, and it is young.
owed_by-room :
    (now : ℕ) (used : String → Option ℕ) (id : String) (e e' : Entry) (more : ℕ)
    → owed_by now (used id) e ≡ some (e', more)
    → (more ≡ room used (id, e')) × (now - e'.started < window)
unfolding owed_by
owed_by-room now used id e e' more h = elim (Bool-cases e.promised) [
  | inl p ↦ ground (arith, p, h)
  | inr p ↦ elim (Option-cases (used id)) [
    | inl u ↦ absurd ground (arith, p, h, u)
    | inr (mib, u) ↦ ground (arith, p, h, u)
  ]
]

-- After a look, the memory spoken for is the sum of what the sandboxes still watched can yet take, and
-- every one of them started within the window.
pub owed_mib_room :
    (now : ℕ) (used : String → Option ℕ) (s : Starting)
    → ((owed_mib now used s).1 ≡ total_room used (owed_mib now used s).0)
      × (all (λ e. ltb (now - e.1.started) window) (owed_mib now used s).0 ≡ true)
unfolding owed_mib all
owed_mib_room now used [] = (refl, refl)
owed_mib_room now used ((id, e) ∷ s) = elim (Option-cases (owed_by now (used id) e)) [
  | inl h ↦ rw (owed_mib, h) (owed_mib_room now used s)
  | inr ((e', more), h) ↦
      let (sum, young) = owed_mib_room now used s in
      let (here, fresh) = owed_by-room now used id e e' more h in
      (rw (owed_mib, h) ground (arith, sum, here), rw (owed_mib, h) ground (arith, young, fresh))
]
