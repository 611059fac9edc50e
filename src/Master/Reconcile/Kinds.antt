-- ===== src/Master/Reconcile/Kinds.antt =====
-- crates/sandstorm-core/src/master/api.rs, `diff`: kinds of commands, the rows that ask for them, and
-- tests on lists that are put together.
use forkd.Prelude.{
  any-append, ◌≡◌, refl, ◌∙◌, String, Bool, false, not, ◌&&◌, ◌||◌, Option, none, some, List, [],
  ◌∷◌, ◌++◌, leb, ltb, same, arith, any, find, retain, any-sort_by,
}
use forkd.Tier.{Tier, detached, tier_eq}
use forkd.Proto.{Command, ObservedSandbox, PollRequest, create, destroy, set_tier}
use forkd.Store.{Sandbox, Store}
use forkd.Store.Sandboxes.{is_some, sandboxes_on_node}
use forkd.Store.Snapshots.{get_template}
use forkd.Master.{max_failures}
use forkd.Master.Reports.{observes}

-- A command of this kind, for this sandbox.
abbrev pub destroys_it : {V : Type 0} → String → Command V → Bool
destroys_it id (destroy i _) = same i id
destroys_it id _ = false

abbrev pub creates_it : {V : Type 0} → String → Command V → Bool
creates_it id (create c) = same c.id id
creates_it id _ = false

abbrev pub moves_it : {V : Type 0} → String → Tier → Command V → Bool
moves_it id t (set_tier i u) = same i id && tier_eq u t
moves_it id t _ = false

-- The row puts the sandbox on this node.
abbrev pub wants : String → String → Sandbox → Bool
wants node id s = same s.node_id node && same s.id id

pub or_false : (b : Bool) → b ≡ false → (b || false) ≡ false
or_false b h = ground arith

-- Four lists end to end, of which neither the first nor the last passes.
pub any-parts :
    {A : Type 0} (p : A → Bool) (xs ys zs us : List A)
    → any p xs ≡ false
    → any p us ≡ false
    → any p (xs ++ (ys ++ (zs ++ us))) ≡ (any p ys || any p zs)
any-parts p xs ys zs us h k = ground (
  arith,
  any-append p xs (ys ++ (zs ++ us)),
  any-append p ys (zs ++ us),
  any-append p zs us,
  h,
  k,
)

any-retain :
    {A : Type 0} (p q : A → Bool) (xs : List A) → any p (retain q xs) ≡ any (λ x. q x && p x) xs
unfolding any retain
any-retain p q [] = refl
any-retain p q (x ∷ xs) = ground (arith, any-retain p q xs)

pub any-false : {A : Type 0} (xs : List A) → any (λ x. false) xs ≡ false
unfolding any
any-false [] = refl
any-false (x ∷ xs) = any-false xs

any-ext :
    {A : Type 0} (p q : A → Bool) → ((x : A) → p x ≡ q x) → (xs : List A) → any p xs ≡ any q xs
unfolding any
any-ext p q h [] = refl
any-ext p q h (x ∷ xs) = ground (arith, any-ext p q h xs, h x)

-- The test over the desired sandboxes is one over the rows.
pub any-on_node :
    (p : Sandbox → Bool) (st : Store) (node : String)
    → any p (sandboxes_on_node st node) ≡ any (λ s. same s.node_id node && p s) st.sandboxes
unfolding sandboxes_on_node
any-on_node p st node =
    any-sort_by p (λ a b. leb a.created_at b.created_at) _ ∙ any-retain p _ st.sandboxes

pub is_some-find : {A : Type 0} (p : A → Bool) (xs : List A) → is_some (find p xs) ≡ any p xs
unfolding find any
is_some-find p [] = refl
is_some-find p (x ∷ xs) = ground (arith, is_some-find p xs)

-- The node is to be sent a create for this row.
abbrev pub to_create : Store → PollRequest → Sandbox → Bool
to_create st req w =
    ltb w.error_attempts max_failures
    && not (any (observes w.id) req.observed)
    && not (tier_eq w.tier detached)
    && is_some (get_template st w.template)

abbrev pub differs : Sandbox → Option ObservedSandbox → Bool
differs w none = false
differs w (some o) = not (tier_eq o.tier w.tier)

-- The node is to be sent a move for this row: what it reports first is at another tier.
abbrev pub to_move : PollRequest → Sandbox → Bool
to_move req w = ltb w.error_attempts max_failures && differs w (find (observes w.id) req.observed)
