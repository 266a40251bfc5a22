-- ===== src/Prelude/Text.antt =====
-- `str.upper` on texts. Only the letters a to z are changed: the program's tickers, sides and
-- capability names are ASCII.
use Prim.Native.Char.{Char, code}
use Prim.Native.String.{String}
use mathlib.Core.Path.{◌≡◌, refl}
use mathlib.Core.Logic.{◌↔◌}
use mathlib.Core.Bool.{Bool, true, false}
use mathlib.Core.Option.{Option, none, some}
use native.Mathlib.Omega.{arith}
use text.Mathlib.Text.{◌==◌ as str_eq}
use text.Mathlib.TextEquality.{eq_iff}
use investmentagent.Prelude.Tests.{◌==◌, if◌then◌else◌}

-- the character of the second text that stands where the first text has `c`
abbrev translate : String → String → Char → Char
translate (String.◌∷◌ a s) (String.◌∷◌ b t) c = if code a == code c then b else translate s t c
translate _ _ c = c

upper_char : Char → Char
upper_char = translate "abcdefghijklmnopqrstuvwxyz" "ABCDEFGHIJKLMNOPQRSTUVWXYZ"

unfoldable pub upper : String → String
unfolding upper_char
upper String.[] = String.[]
upper (String.◌∷◌ c s) = String.◌∷◌ (upper_char c) (upper s)

shout : upper "us_equity 7" ≡ "US_EQUITY 7"
unfolding upper
shout = refl

-- `==` of two texts that may be `None`
abbrev pub same_text? : Option String → Option String → Bool
same_text? none none = true
same_text? (some a) (some b) = str_eq a b
same_text? _ _ = false

pub same_text?_iff : (a b : Option String) → (same_text? a b ≡ true) ↔ (a ≡ b)
same_text?_iff none none = (λ _. refl, λ _. refl)
same_text?_iff none (some b) = ground arith
same_text?_iff (some a) none = ground arith
same_text?_iff (some a) (some b) = ground (arith, eq_iff a b)
