-- ===== src/Prelude/TextOrder.antt =====
-- Texts compared character by character are totally ordered.
use Prim.Native.String.compare as cmp
use Prim.Native.String.{String, compare}
use text.Mathlib.Text.{is_le}
use text.Mathlib.TextPositions.{compare_refl}
use mathlib.Core.Path.{◌≡◌}
use mathlib.Core.Bool.{Bool, true, false}
use native.Mathlib.Omega.{arith}

-- `s <= t`
abbrev pub text_le : String → String → Bool
text_le s t = is_le (compare s t)

pub text_le_refl : (s : String) → text_le s s ≡ true
text_le_refl s = rw (compare_refl s)

pub text_le-total : (s t : String) → text_le s t ≡ false → text_le t s ≡ true
text_le-total String.[] String.[] h = cc
text_le-total String.[] (String.◌∷◌ d t) h = ground (arith, cmp.nil-cons d t)
text_le-total (String.◌∷◌ c s) String.[] h = ground (arith, cmp.nil-cons c s)
text_le-total (String.◌∷◌ c s) (String.◌∷◌ d t) h =
    ground (arith, cmp.cons-cons c d s t, cmp.cons-cons d c t s, text_le-total s t)

pub text_le_trans : (s t u : String) → text_le s t ≡ true → text_le t u ≡ true → text_le s u ≡ true
text_le_trans String.[] t String.[] h k = ground (arith, cmp.nil-nil)
text_le_trans String.[] t (String.◌∷◌ d u) h k = ground (arith, cmp.nil-cons d u)
text_le_trans (String.◌∷◌ c s) String.[] u h k = ground (arith, cmp.cons-nil c s)
text_le_trans (String.◌∷◌ c s) (String.◌∷◌ d t) String.[] h k = ground (arith, cmp.cons-nil d t)
text_le_trans (String.◌∷◌ c s) (String.◌∷◌ d t) (String.◌∷◌ e u) h k = ground (
  arith,
  cmp.cons-cons c d s t,
  cmp.cons-cons d e t u,
  cmp.cons-cons c e s u,
  text_le_trans s t u,
)
