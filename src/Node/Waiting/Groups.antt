-- ===== src/Node/Waiting/Groups.antt =====
-- crates/sandstorm-core/src/node/mod.rs: laws of `next_group`.
use forkd.Prelude.{
  ℕ, zero, suc, ◌≤◌, ◌≡◌, refl, ◌⊎◌, inl, inr, Bool, true, false, List, [], ◌∷◌, ◌++◌, arith, min,
  max, all, ap, Bool-cases,
}
use forkd.Proto.{Command}
use forkd.Node.Waiting.{is_create, count_creates, next_group, split_at, count}

split_at-append : {A : Type 0} (n : ℕ) (xs : List A) → (split_at n xs).0 ++ (split_at n xs).1 ≡ xs
unfolding split_at
split_at-append zero xs = refl
split_at-append (suc n) [] = refl
split_at-append (suc n) (x ∷ xs) = ap (λ ys. x ∷ ys) (split_at-append n xs)

-- A group of more than one command holds only creates, and the command after such a group is none.
abbrev pub starts_create : {V : Type 0} → List (Command V) → Bool
starts_create [] = false
starts_create (c ∷ cs) = is_create c

count_creates-split :
    {V : Type 0} (cs : List (Command V))
    → (all is_create (split_at (count_creates cs) cs).0 ≡ true)
      × (starts_create (split_at (count_creates cs) cs).1 ≡ false)
      × (count_creates cs ≤ count cs)
unfolding count_creates split_at all
count_creates-split [] = (refl, refl, omega arith)
count_creates-split (c ∷ cs) = elim (Bool-cases (is_create c)) [
  | inl e ↦
      let (a, b, l) = count_creates-split cs in rw e (ground (arith, e, a), b, omega (arith, l))
  | inr e ↦ rw e (refl, e, omega arith)
]

-- Taking the next group of a batch that is not empty loses and reorders nothing, and takes either one
-- command that is not a create, or all the creates at the front, of which there is at least one.
pub next_group_runs :
    {V : Type 0} (c : Command V) (cs : List (Command V))
    → ((next_group (c ∷ cs)).0 ++ (next_group (c ∷ cs)).1 ≡ c ∷ cs)
      × (((is_create c ≡ false) × (next_group (c ∷ cs) ≡ (c ∷ [], cs)))
          ⊎ ((is_create c ≡ true)
              × (all is_create (next_group (c ∷ cs)).0 ≡ true)
              × (starts_create (next_group (c ∷ cs)).1 ≡ false)))
unfolding next_group count_creates split_at
next_group_runs c cs = (
  split_at-append _ (c ∷ cs),
  elim (Bool-cases (is_create c)) [
    | inr e ↦
        let one : min (max (count_creates (c ∷ cs)) 1) (count (c ∷ cs)) ≡ suc zero =
          rw e (omega arith) in
        inl (e, rw one refl)
    | inl e ↦
        let (all_creates, ends, few) = count_creates-split (c ∷ cs) in
        let more : count_creates (c ∷ cs) ≡ suc (count_creates cs) = rw e refl in
        let size : min (max (count_creates (c ∷ cs)) 1) (count (c ∷ cs)) ≡ count_creates (c ∷ cs) =
          omega (arith, few, more) in
        inr (e, rw size all_creates, rw size ends)
  ],
)
