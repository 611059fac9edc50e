-- ===== src/Store/Sandboxes/Laws.antt =====
-- crates/sandstorm-core/src/state.rs: the updates of the table of sandboxes, against `get_sandbox`.
use mathlib.Core.Option
use forkd.Prelude.{
  ℕ, ◌≡◌, refl, String, Bool, false, not, none, some, List, [], ◌∷◌, arith, same, same_iff, find,
  retain, any, update_where, if◌then◌else◌, map, same-cases, inl, inr,
}
use forkd.Store.{Sandbox, Store}
use forkd.Tier.{Tier}
use forkd.Store.Sandboxes.{
  has_id, update_sandbox, get_sandbox, delete_sandbox, set_tier, touch, set_sandbox_error,
  clear_sandbox_error,
}

find-update_where :
    (id j : String) (f : Sandbox → Sandbox) (ss : List Sandbox)
    → ((s : Sandbox) → (f s).id ≡ s.id)
    → find (has_id j) (update_where (has_id id) f ss)
      ≡ (if same id j then Option.map f (find (has_id j) ss) else find (has_id j) ss)
unfolding find update_where
find-update_where id j f [] h = ground arith
find-update_where id j f (s ∷ ss) h = ground (
  arith,
  h s,
  find-update_where id j f ss h,
  same_iff s.id id,
  same_iff s.id j,
  same_iff id j,
  same_iff (f s).id j,
)

-- An update that keeps the ids changes the row of its id, and no other.
pub get-update :
    (st : Store) (id j : String) (f : Sandbox → Sandbox)
    → ((s : Sandbox) → (f s).id ≡ s.id)
    → get_sandbox (update_sandbox id f st) j
      ≡ (if same id j then Option.map f (get_sandbox st j) else get_sandbox st j)
unfolding get_sandbox update_sandbox
get-update st id j f h = find-update_where id j f st.sandboxes h

find-retain :
    (id j : String) (ss : List Sandbox)
    → find (has_id j) (retain (λ s. not (has_id id s)) ss)
      ≡ (if same id j then none else find (has_id j) ss)
unfolding find retain
find-retain id j [] = ground arith
find-retain id j (s ∷ ss) =
    ground (arith, find-retain id j ss, same_iff s.id id, same_iff s.id j, same_iff id j)

-- A deleted sandbox is gone, and the others stay.
pub get-delete :
    (st : Store) (id j : String)
    → get_sandbox (delete_sandbox st id) j ≡ (if same id j then none else get_sandbox st j)
unfolding get_sandbox delete_sandbox
get-delete st id j = find-retain id j st.sandboxes

-- What the single updates leave for a query.
pub get-set_tier :
    (st : Store) (id j : String) (t : Tier)
    → get_sandbox (set_tier st id t) j ≡ (
        if same id j
        then Option.map (λ (s : Sandbox). record s { tier = t }) (get_sandbox st j)
        else get_sandbox st j)
unfolding set_tier
get-set_tier st id j t = get-update st id j _ (λ s. refl)

pub get-touch :
    (st : Store) (id j : String) (now : ℕ)
    → get_sandbox (touch st id now) j ≡ (
        if same id j
        then Option.map (λ (s : Sandbox). record s { last_active_at = now }) (get_sandbox st j)
        else get_sandbox st j)
unfolding touch
get-touch st id j now = get-update st id j _ (λ s. refl)

pub get-set_error :
    (st : Store) (id j error : String) (attempts : ℕ)
    → get_sandbox (set_sandbox_error st id error attempts) j ≡ (
        if same id j
        then Option.map
            (λ (s : Sandbox). record s { last_error = some error; error_attempts = attempts })
            (get_sandbox st j)
        else get_sandbox st j)
unfolding set_sandbox_error
get-set_error st id j error attempts = get-update st id j _ (λ s. refl)

pub get-clear_error :
    (st : Store) (id j : String)
    → get_sandbox (clear_sandbox_error st id) j ≡ (
        if same id j
        then Option.map
            (λ (s : Sandbox). record s { last_error = none; error_attempts = 0 })
            (get_sandbox st j)
        else get_sandbox st j)
unfolding clear_sandbox_error
get-clear_error st id j = get-update st id j _ (λ s. refl)

find-has_id :
    (j : String) (s : Sandbox) (ss : List Sandbox) → find (has_id j) ss ≡ some s → s.id ≡ j
unfolding find
find-has_id j s [] h = cc
find-has_id j s (x ∷ ss) h = ground (arith, find-has_id j s ss, same_iff x.id j)

-- A row that is found has the id that was asked for.
pub get-id : (st : Store) (j : String) (s : Sandbox) → get_sandbox st j ≡ some s → s.id ≡ j
unfolding get_sandbox
get-id st j s h = find-has_id j s st.sandboxes h

-- The primary key: no two rows have one id.
abbrev pub IsKeyed : List Sandbox → Type 0
IsKeyed [] = Unit
IsKeyed (s ∷ ss) = (any (has_id s.id) ss ≡ false) × IsKeyed ss

errored-absent :
    (p : Sandbox → Bool) (j : String) (ss : List Sandbox)
    → any (has_id j) ss ≡ false
    → any (λ i. same i j) (map (λ (s : Sandbox). s.id) (retain p ss)) ≡ false
unfolding any retain
errored-absent p j [] h = refl
errored-absent p j (s ∷ ss) h = ground (arith, errored-absent p j ss)

-- The ids that a filter of keyed rows keeps.
pub ids-retain :
    (p : Sandbox → Bool) (j : String) (ss : List Sandbox)
    → IsKeyed ss
    → any (λ i. same i j) (map (λ (s : Sandbox). s.id) (retain p ss))
      ≡ elim (find (has_id j) ss) [ none ↦ false | some s ↦ p s ]
unfolding any retain find
ids-retain p j [] k = refl
ids-retain p j (s ∷ ss) k = elim (same-cases s.id j) [
  | inl (e, i) ↦ rw e (ground (arith, errored-absent p j ss (rw i at k.0)))
  | inr (e, _) ↦ rw e (ground (arith, ids-retain p j ss k.1))
]
