-- ===== src/Prelude/Outcome.antt =====
-- A call that may raise: `err e` is the exception `e`.
use mathlib.Core.Path.{◌≡◌, refl}
use mathlib.Core.Logic.{◌≢◌, ◌⊎◌, inl, inr}
use mathlib.Core.Bool.{Bool, true, false}

pub data Result {ℓ} (E A : Type ℓ) : Type ℓ where
  ok : A → Result E A
  err : E → Result E A

infixl 5 ◌>>=◌ ◌>>◌
abbrev pub ◌>>=◌ {ℓ} : {E A B : Type ℓ} → Result E A → (A → Result E B) → Result E B
err raised >>= next = err raised
ok value >>= next = next value

abbrev pub ◌>>◌ {ℓ} : {E B : Type ℓ} → Result E Unit → Result E B → Result E B
m >> k = m >>= λ _. k

-- `if b: raise e`
abbrev pub raise_if {ℓ} : {E : Type ℓ} → Bool → E → Result E Unit
raise_if true e = err e
raise_if false e = ok tt

-- an inner exception translated, `except X as exc: raise Y(…) from exc`
abbrev pub catch {ℓ} : {E F A : Type ℓ} → (E → F) → Result E A → Result F A
catch f (ok a) = ok a
catch f (err e) = err (f e)

abbrev pub is_ok {ℓ} : {E A : Type ℓ} → Result E A → Bool
is_ok (ok a) = true
is_ok (err e) = false

pub Result-cases {ℓ} :
    {E A : Type ℓ} (r : Result E A) → ((a : A) × (r ≡ ok a)) ⊎ ((e : E) × (r ≡ err e))
Result-cases (ok a) = inl (a, refl)
Result-cases (err e) = inr (e, refl)

-- Inversion of calls that returned.
module _ {ℓ} {E A B : Type ℓ} where
  pub >>=-eq-ok :
      (call : Result E A) (next : A → Result E B) {last : B}
      → (call >>= next) ≡ ok last
      → (value : A) × (call ≡ ok value) × (next value ≡ ok last)
  >>=-eq-ok (ok value) next returned = (value, refl, returned)
  >>=-eq-ok (err raised) next returned = cc

module _ {ℓ} {E B : Type ℓ} where
  pub >>-eq-ok : (m : Result E Unit) (k : Result E B) {b : B} → (m >> k) ≡ ok b → k ≡ ok b
  >>-eq-ok (ok _) k h = h
  >>-eq-ok (err e) k h = cc

  pub ok-injective : {a b : B} → ◌≡◌ {A = Result E B} (ok a) (ok b) → a ≡ b
  ok-injective h = cc

-- An exception that neither part raises is not raised by the whole.
pub >>=-ne-err {ℓ} :
    {E A B : Type ℓ} (m : Result E A) (f : A → Result E B) (e : E)
    → m ≢ err e
    → ((a : A) → f a ≢ err e)
    → (m >>= f) ≢ err e
>>=-ne-err (ok a) f e h k = k a
>>=-ne-err (err x) f e h k = λ r. h (cc r)

pub catch-eq-ok {ℓ} :
    {E F A : Type ℓ} (f : E → F) (r : Result E A) {a : A} → catch f r ≡ ok a → r ≡ ok a
catch-eq-ok f (ok a) h = cc
catch-eq-ok f (err e) h = cc

-- a call that changes a state and may raise
pub returned-cases {ℓ} :
    {W E A : Type ℓ}
    → (r : W × Result E A)
    → ((v : W) × (a : A) × (r ≡ (v, ok a))) ⊎ ((v : W) × (x : E) × (r ≡ (v, err x)))
returned-cases (v, ok a) = inl (v, a, refl)
returned-cases (v, err x) = inr (v, x, refl)
