-- ===== src/Tag/Path.antt =====
-- crates/sandstorm-core/src/tag.rs: `is_safe`, for a tag that is joined to a path.
use forkd.Prelude.{
  ℕ, ◌≡◌, refl, ap, ◌∙◌, ◌≢◌, Bool, true, false, List, [], ◌∷◌, ◌++◌, arith, ◌==◌, any, Bool-cases,
  inl, inr, if◌then◌else◌,
}
use forkd.Tag.{contains, has_dot_dot, is_safe}

-- A first component with one more byte in front.
abbrev extend : ℕ → List (List ℕ) → List (List ℕ)
extend c [] = (c ∷ []) ∷ []
extend c (p ∷ ps) = (c ∷ p) ∷ ps

-- The components of a path.
abbrev pub components : List ℕ → List (List ℕ)
components [] = [] ∷ []
components (c ∷ cs) = let rest = components cs in if c == b'/' then [] ∷ rest else extend c rest

extend-append :
    (c : ℕ) (b : List ℕ) (cs : List (List ℕ))
    → extend c (components b ++ cs) ≡ extend c (components b) ++ cs
extend-append c [] cs = refl
extend-append c (d ∷ b) cs = elim (Bool-cases (d == b'/')) [
  | inl e ↦ rw e refl
  | inr e ↦ rw e (go (components b))
]
  where
    go : (ps : List (List ℕ)) → extend c (extend d ps ++ cs) ≡ extend c (extend d ps) ++ cs
    go [] = refl
    go (p ∷ ps) = refl

components-join :
    (base tag : List ℕ) → components (base ++ (b'/' ∷ tag)) ≡ components base ++ components tag
components-join [] tag = refl
components-join (c ∷ base) tag = elim (Bool-cases (c == b'/')) [
  | inl e ↦ rw (e, components-join base tag) refl
  | inr e ↦ rw (e, components-join base tag) (extend-append c base (components tag))
]

one_component : (tag : List ℕ) → contains b'/' tag ≡ false → components tag ≡ tag ∷ []
unfolding any
one_component [] h = refl
one_component (c ∷ tag) h =
    let here : (c == b'/') ≡ false = ground (arith, h) in
    rw (here, one_component tag (ground (arith, h))) refl

false≢true : ◌≢◌ {A = Bool} false true
false≢true e = cc

-- A tag that is safe adds one component to a path that it is joined to: itself, which is neither empty,
-- nor the directory, nor its parent.
pub components-is_safe :
    (base tag : List ℕ)
    → is_safe tag ≡ true
    → (components (base ++ (b'/' ∷ tag)) ≡ components base ++ (tag ∷ []))
      × (tag ≢ [])
      × (tag ≢ b'.' ∷ [])
      × (tag ≢ b'.' ∷ b'.' ∷ [])
unfolding is_safe has_dot_dot any
components-is_safe base tag h = (
  components-join base tag ∙ ap (λ t. components base ++ t) (one_component tag (ground (arith, h))),
  λ e. false≢true (rw e at h),
  λ e. false≢true (rw e at h),
  λ e. false≢true (rw e at h),
)
