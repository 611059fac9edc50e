-- ===== src/Maps.antt =====
-- A `HashMap` whose keys are texts: an association list, of which the first entry of a key counts.
pub mod Members
use forkd.Prelude.{
  ◌≡◌, ◌≢◌, refl, ◌∙◌, String, not, Option, none, some, List, [], ◌∷◌, arith, same, same_refl,
  same_iff, retain, if◌then◌else◌,
}

module _ {ℓ} {A : Type ℓ} where
  unfoldable pub get : String → List (String × A) → Option A
  get k [] = none
  get k ((j, v) ∷ m) = if same j k then some v else get k m

  unfoldable pub remove : String → List (String × A) → List (String × A)
  remove k m = retain (λ e. not (same e.0 k)) m

  unfoldable pub put : String → A → List (String × A) → List (String × A)
  put k v m = (k, v) ∷ remove k m

  unfoldable pub keys : List (String × A) → List String
  keys [] = []
  keys ((k, v) ∷ m) = k ∷ keys m

  pub get-remove :
      (k j : String) (m : List (String × A))
      → get j (remove k m) ≡ (if same k j then none else get j m)
  unfolding get remove retain
  get-remove k j [] = ground arith
  get-remove k j ((i, v) ∷ m) =
      ground (arith, get-remove k j m, same_iff i k, same_iff i j, same_iff k j)

  pub get-put :
      (k j : String) (v : A) (m : List (String × A))
      → get j (put k v m) ≡ (if same k j then some v else get j m)
  unfolding get put
  get-put k j v m = ground (arith, get-remove k j m)

  pub get-put_self : (k : String) (v : A) (m : List (String × A)) → get k (put k v m) ≡ some v
  get-put_self k v m = get-put k k v m ∙ rw (same_refl k) refl

  pub get-put_other :
      (k j : String) (v : A) (m : List (String × A)) → k ≢ j → get j (put k v m) ≡ get j m
  get-put_other k j v m h = ground (arith, get-put k j v m, same_iff k j)
