-- ===== src/MarketCalendar/Walk.antt =====
-- The two loops of agent/market_calendar.py, against the trading days that they step over.
use investmentagent.Prelude.{
  ℕ, zero, suc, ◌+◌, ◌≤◌, ◌<◌, ◌≡◌, ◌≢◌, refl, sym, ap, zero, ◌∙◌, Bool, true, List, [], ◌∷◌, ◌++◌,
  arith, length, filter, length-append, if◌then◌else◌, ok, err, ok-injective, Bool-cases, inl, inr,
  ltb,
}
use mathlib.Core.List.{append-nil, append_assoc}
use native.Mathlib.Nat.{zero-add, add-zero, suc-add, add-suc}
use investmentagent.MarketCalendar.{
  CalendarError, trading, in_range, walk_back, walk_forward, out_of_fuel, first_covered,
  last_covered,
}

-- the number of trading days among the `k` days after `d`
unfoldable pub sessions : ℕ → ℕ → ℕ
sessions d zero = 0
sessions d (suc k) = (if trading (suc d) then 1 else 0) + sessions (suc d) k

pub sessions-add : (d j k : ℕ) → sessions d (j + k) ≡ sessions d j + sessions (d + j) k
unfolding sessions
sessions-add d zero k = simp (zero-add, add-zero)
sessions-add d (suc j) k =
    rw (suc-add, add-suc)
      (omega (arith, sessions-add (suc d) j k, ap (λ t. sessions t k) (suc-add d j)))

-- the `k` days from `lo` on
unfoldable pub interval : ℕ → ℕ → List ℕ
interval lo zero = []
interval lo (suc k) = lo ∷ interval (suc lo) k

interval-suc : (lo k : ℕ) → interval lo (suc k) ≡ interval lo k ++ (lo + k) ∷ []
unfolding interval
interval-suc lo zero = rw add-zero
interval-suc lo (suc k) =
    ap (λ l. lo ∷ l)
      (interval-suc (suc lo) k ∙ ap (λ t. interval (suc lo) k ++ t ∷ []) (omega arith))

filter-append : (p : ℕ → Bool) (xs ys : List ℕ) → filter p (xs ++ ys) ≡ filter p xs ++ filter p ys
filter-append p [] ys = refl
filter-append p (x ∷ xs) ys = elim (Bool-cases (p x)) [
  | inl kept ↦ rw (kept, filter-append p xs ys)
  | inr dropped ↦ rw (dropped, filter-append p xs ys)
]

walk_forward-step :
    (fuel d n : ℕ) {e : ℕ}
    → walk_forward (suc fuel) d (suc n) ≡ ok e
    → (in_range (suc d) ≡ true)
      × (walk_forward fuel (suc d) (if trading (suc d) then n else suc n) ≡ ok e)
unfolding walk_forward
walk_forward-step fuel d n h = elim (Bool-cases (in_range (suc d))) [
  | inl inside ↦ (inside, rw (← h, inside) refl)
  | inr outside ↦ absurd (ground arith)
]

-- the day `e` is the `n`th trading day after `d`, and is covered
abbrev pub IsSessionAfter : ℕ → ℕ → ℕ → Type 0
IsSessionAfter d n e =
    (k : ℕ) × (e ≡ d + suc k) × (sessions d (suc k) ≡ n) × (trading e ≡ true) × (in_range e ≡ true)

IsSessionAfter-next :
    (d n m e : ℕ)
    → IsSessionAfter (suc d) n e
    → (if trading (suc d) then 1 else 0) + n ≡ m
    → IsSessionAfter d m e
unfolding sessions
IsSessionAfter-next d n m e (k, at, passed, last, covered) h =
    (suc k, omega arith, omega (arith, passed, h), last, covered)

-- A walk forward that returns stands on the day that it was to find.
pub walk_forward-IsSessionAfter :
    (fuel d n : ℕ) {e : ℕ} → walk_forward fuel d (suc n) ≡ ok e → IsSessionAfter d (suc n) e
unfolding walk_forward sessions
walk_forward-IsSessionAfter zero d n h = cc
walk_forward-IsSessionAfter (suc fuel) d zero {e} h =
    let (inside, later) = walk_forward-step fuel d zero {e = e} h in
    elim (Bool-cases (trading (suc d))) [
      | inr closed ↦
          IsSessionAfter-next d 1 1 e
            (walk_forward-IsSessionAfter fuel (suc d) zero (rw closed at later))
            (rw closed (omega arith))
      | inl opened ↦
          let here : suc d ≡ e = ok-injective {E = CalendarError} (rw opened at later) in
          (0, omega arith, rw opened (omega arith), rw (← here) opened, rw (← here) inside)
    ]
walk_forward-IsSessionAfter (suc fuel) d (suc n) {e} h =
    let (inside, later) = walk_forward-step fuel d (suc n) {e = e} h in
    elim (Bool-cases (trading (suc d))) [
      | inr closed ↦
          IsSessionAfter-next d (suc (suc n)) (suc (suc n)) e
            (walk_forward-IsSessionAfter fuel (suc d) (suc n) (rw closed at later))
            (rw closed (omega arith))
      | inl opened ↦
          IsSessionAfter-next d (suc n) (suc (suc n)) e
            (walk_forward-IsSessionAfter fuel (suc d) n (rw opened at later))
            (rw opened (omega arith))
    ]

in_range-le : (d : ℕ) → in_range d ≡ true → d ≤ last_covered
in_range-le d h = ground arith

-- With fuel for every day up to the end of the coverage the walk never runs out.
pub walk_forward-ends :
    (fuel d n : ℕ)
    → last_covered < fuel + d
    → d ≤ last_covered
    → walk_forward fuel d n ≢ err out_of_fuel
unfolding walk_forward
walk_forward-ends fuel d zero f h e = cc
walk_forward-ends zero d (suc n) f h e = absurd (omega arith)
walk_forward-ends (suc fuel) d (suc n) f h e = elim (Bool-cases (in_range (suc d))) [
  | inr outside ↦ absurd (ground arith)
  | inl inside ↦
      walk_forward-ends fuel (suc d) (if trading (suc d) then n else suc n) (omega arith)
        (in_range-le (suc d) inside) (rw inside at e)
]

filter-interval-suc :
    (lo k d : ℕ)
    → lo + k ≡ d
    → filter trading (interval lo (suc k))
      ≡ filter trading (interval lo k) ++ (if trading d then d ∷ [] else [])
filter-interval-suc lo k d e =
    ap (filter trading) (interval-suc lo k)
    ∙ filter-append trading (interval lo k) ((lo + k) ∷ [])
    ∙ ap (λ t. filter trading (interval lo k) ++ (if trading t then t ∷ [] else [])) e

walk_back-step :
    (d n : ℕ) (out : List ℕ) {found : List ℕ}
    → walk_back (suc d) (suc n) out ≡ ok found
    → (first_covered ≤ suc d)
      × (walk_back d
            (if trading (suc d) then n else suc n)
            (if trading (suc d) then suc d ∷ out else out)
          ≡ ok found)
unfolding walk_back
walk_back-step d n out h = elim (Bool-cases (ltb (suc d) first_covered)) [
  | inl before ↦ absurd (ground arith)
  | inr covered ↦ (ground arith, rw (← h, covered) refl)
]

-- as many trading days as asked, all those of an unbroken interval that ends at `d`
abbrev pub IsWindow : ℕ → ℕ → List ℕ → List ℕ → Type 0
IsWindow d n out found =
    (lo k : ℕ) × (lo + k ≡ suc d)
    × (found ≡ filter trading (interval lo k) ++ out)
    × (length (filter trading (interval lo k)) ≡ n)

-- A walk back that returns has found such a window.
pub walk_back-IsWindow :
    (d n : ℕ) (out : List ℕ) {found : List ℕ}
    → walk_back d n out ≡ ok found
    → IsWindow d n out found
unfolding walk_back interval
walk_back-IsWindow d zero out h =
    (suc d, 0, omega arith, sym (ok-injective {E = CalendarError} h), refl)
walk_back-IsWindow zero (suc n) out h = cc
walk_back-IsWindow (suc d) (suc n) out {found} h =
    let (covered, later) = walk_back-step d n out {found = found} h in
    elim (Bool-cases (trading (suc d))) [
      | inl opened ↦
          let (lo, k, ends, same, many) =
            walk_back-IsWindow d n (suc d ∷ out) {found = found} (rw opened at later) in
          let more = rw opened at (filter-interval-suc lo k (suc d) ends) in
          (
            lo,
            suc k,
            omega arith,
            same
                ∙ sym (append_assoc (filter trading (interval lo k)) (suc d ∷ []) out)
                ∙ ap (λ l. l ++ out) (sym more),
            ap length more
                ∙ length-append (filter trading (interval lo k)) (suc d ∷ [])
                ∙ omega arith,
          )
      | inr closed ↦
          let (lo, k, ends, same, many) =
            walk_back-IsWindow d (suc n) out {found = found} (rw closed at later) in
          let more = rw closed at (filter-interval-suc lo k (suc d) ends) in
          let kept = more ∙ append-nil (filter trading (interval lo k)) in
          (lo, suc k, omega arith, same ∙ ap (λ l. l ++ out) (sym kept), ap length kept ∙ many)
    ]
