-- ===== src/Store/Pools/Names.antt =====
-- crates/sandstorm-core/src/state.rs: the names of pools that `refingerprint_node` reads and writes.
use Prim.Native.Char.{Char, code}
use Prim.Native.String.{◌++◌}
use text.Mathlib.TextLemmas.{nil-append, cons-append, append_cancel_left, append-nil, cons-ne-nil}
use forkd.Prelude.{◌≡◌, refl, ◌≢◌, sym, ap, ◌∙◌, String, Bool-cases, inl, inr, ◌==◌, if◌then◌else◌}
use forkd.Store.Pools.{before_hash, derived_pool, fp8}

before_hash-cons :
    (c : Char) (s : String)
    → before_hash (String.◌∷◌ c s)
      ≡ (if code c == b'#' then String.[] else String.◌∷◌ c (before_hash s))
unfolding before_hash
before_hash-cons c s = refl

nil-lem : before_hash String.[] ≡ String.[]
unfolding before_hash
nil-lem = refl

before_hash-hash : (t : String) → before_hash ("#" ++ t) ≡ String.[]
unfolding before_hash
before_hash-hash t = rw cons-append refl

-- Up to its first `#`, a name is followed by whatever comes behind a `#`.
before_hash-append : (s t : String) → before_hash (before_hash s ++ ("#" ++ t)) ≡ before_hash s
before_hash-append String.[] t = rw nil-lem (rw nil-append (before_hash-hash t))
before_hash-append (String.◌∷◌ c s) t = elim (Bool-cases (code c == b'#')) [
  | inl e ↦ rw (before_hash-cons c s, e) (rw nil-append (before_hash-hash t))
  | inr e ↦
      rw (before_hash-cons c s, e)
        (rw (cons-append, before_hash-cons c (before_hash s ++ ("#" ++ t)), e)
          (ap (String.◌∷◌ c) (before_hash-append s t)))
]

pub before_hash_idem : (s : String) → before_hash (before_hash s) ≡ before_hash s
before_hash_idem String.[] = rw (nil-lem, nil-lem)
before_hash_idem (String.◌∷◌ c s) = elim (Bool-cases (code c == b'#')) [
  | inl e ↦ rw (before_hash-cons c s, e) nil-lem
  | inr e ↦
      rw (before_hash-cons c s, e)
        (rw (before_hash-cons c (before_hash s), e) (ap (String.◌∷◌ c) (before_hash_idem s)))
]

-- A derived name belongs to the pool that it was derived from.
pub before_hash-derived_pool :
    (s fp : String) → before_hash (derived_pool (before_hash s) fp) ≡ before_hash s
unfolding derived_pool
before_hash-derived_pool s fp = before_hash-append s (fp8 fp)

-- Two derived names of one pool differ in the fingerprints' first characters.
pub derived_pool_injective :
    (base x y : String) → derived_pool base x ≡ derived_pool base y → fp8 x ≡ fp8 y
unfolding derived_pool
derived_pool_injective base x y e =
    append_cancel_left "#" (fp8 x) (fp8 y) (append_cancel_left base _ _ e)

-- And no derived name is a pool's own.
pub derived_pool-ne : (base fp : String) → derived_pool base fp ≢ base
unfolding derived_pool
derived_pool-ne base fp e =
    append-ne-nil_of_left
      (append_cancel_left base ("#" ++ fp8 fp) String.[] (e ∙ sym (append-nil base)))
  where
    append-ne-nil_of_left : ("#" ++ fp8 fp) ≢ String.[]
    append-ne-nil_of_left h = cons-ne-nil _ _ (sym (cons-append _ _ _) ∙ h)
