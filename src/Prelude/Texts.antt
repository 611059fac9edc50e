-- ===== src/Prelude/Texts.antt =====
-- The order of texts, character by character, is total.
use Prim.Native.Nat.{compare as compare_ℕ}
use Prim.Native.Char.{Char, code}
use Prim.Native.String.compare as order
use Prim.Native.String.{String, [], ◌∷◌, compare, then}
use mathlib.Core.Path.{◌≡◌, refl, sym, ap, ◌∙◌}
use mathlib.Core.Bool.{Bool, true, false}
use native.Mathlib.Omega.{arith}
use text.Mathlib.Text.{is_le}
use text.Mathlib.TextEquality.{codes_equal}

abbrev pub text_le : String → String → Bool
text_le s t = is_le (compare s t)

le-cons :
    (c d : Char) (s t : String)
    → text_le (c ∷ s) (d ∷ t) ≡ is_le (then (compare_ℕ (code c) (code d)) (compare s t))
le-cons c d s t = ap is_le (order.cons-cons c d s t)

le-nil : (t : String) → text_le [] t ≡ true
le-nil [] = ap is_le order.nil-nil
le-nil (d ∷ t) = ap is_le (order.nil-cons d t)

not-le-nil : (c : Char) (s : String) → text_le (c ∷ s) [] ≡ false
not-le-nil c s = ap is_le (order.cons-nil c s)

pub text_le_total : (s t : String) → text_le s t ≡ false → text_le t s ≡ true
text_le_total [] t h = absurd (cc (sym (le-nil t) ∙ h))
text_le_total (c ∷ s) [] h = le-nil (c ∷ s)
text_le_total (c ∷ s) (d ∷ t) h =
    ground (arith, le-cons c d s t, le-cons d c t s, text_le_total s t)

pub text_le_trans : (s t u : String) → text_le s t ≡ true → text_le t u ≡ true → text_le s u ≡ true
text_le_trans [] t u h k = le-nil u
text_le_trans (c ∷ s) [] u h k = absurd (cc (sym (not-le-nil c s) ∙ h))
text_le_trans (c ∷ s) (d ∷ t) [] h k = absurd (cc (sym (not-le-nil d t) ∙ k))
text_le_trans (c ∷ s) (d ∷ t) (e ∷ u) h k =
    ground (arith, le-cons c d s t, le-cons d e t u, le-cons c e s u, text_le_trans s t u)

pub text_le_antisymm : (s t : String) → text_le s t ≡ true → text_le t s ≡ true → s ≡ t
text_le_antisymm [] [] h k = refl
text_le_antisymm [] (d ∷ t) h k = absurd (cc (sym (not-le-nil d t) ∙ k))
text_le_antisymm (c ∷ s) [] h k = absurd (cc (sym (not-le-nil c s) ∙ h))
text_le_antisymm (c ∷ s) (d ∷ t) h k =
    ground (arith, le-cons c d s t, le-cons d c t s, codes_equal c d, text_le_antisymm s t)
