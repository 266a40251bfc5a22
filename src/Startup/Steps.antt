-- ===== src/Startup/Steps.antt =====
-- Code that changes a state and may raise: what was changed before an exception stays changed.
use mathlib.Core.Bool.{Bool}
use investmentagent.Prelude.{Result, ok, err, if◌then◌else◌}

abbrev pub Step : Type 0 → Type 0 → Type 0 → Type 0
Step W E A = W → W × Result E A

abbrev pub change : {W E : Type 0} → (W → W) → Step W E Unit
change f w = (f w, ok tt)

module _ {W E A : Type 0} where
  abbrev pub return : A → Step W E A
  return a w = (w, ok a)

  -- a call that changes nothing
  abbrev pub lift : Result E A → Step W E A
  lift r w = (w, r)

  abbrev pub reraise : E → W × Result E Unit → W × Result E A
  reraise e (w, ok _) = (w, err e)
  reraise e (w, err e') = (w, err e')

  abbrev pub handled : (E → Bool) → (E → Step W E Unit) → W × Result E A → W × Result E A
  handled caught handler (w, ok a) = (w, ok a)
  handled caught handler (w, err e) = if caught e then reraise e (handler e w) else (w, err e)

  -- `try: m except (caught …) as exc: handler(exc); raise`
  unfoldable pub on_error : (E → Bool) → (E → Step W E Unit) → Step W E A → Step W E A
  on_error caught handler m w = handled caught handler (m w)

module _ {W E A B : Type 0} where
  abbrev pub finish : (A → Step W E B) → W × Result E A → W × Result E B
  finish f (w, ok a) = f a w
  finish f (w, err e) = (w, err e)

  unfoldable pub bind : Step W E A → (A → Step W E B) → Step W E B
  bind m f w = finish f (m w)

infixl 5 ◌>>=◌ ◌>>◌
abbrev pub ◌>>=◌ : {W E A B : Type 0} → Step W E A → (A → Step W E B) → Step W E B
m >>= f = bind m f

abbrev pub ◌>>◌ : {W E B : Type 0} → Step W E Unit → Step W E B → Step W E B
m >> k = bind m (λ _. k)
