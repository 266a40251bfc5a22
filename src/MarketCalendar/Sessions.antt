-- ===== src/MarketCalendar/Sessions.antt =====
-- What the calls of agent/market_calendar.py return.
use investmentagent.Prelude.{
  ℕ, zero, suc, ◌+◌, ◌-◌, ◌≤◌, String, ◌≡◌, ◌≢◌, sym, ap, ◌∙◌, true, Option, List, [], arith,
  length, filter, ok, err, Bool-cases, inl, inr, not, ◌==◌, raise_if, >>-eq-ok,
}
use mathlib.Core.List.{append-nil}
use native.Mathlib.Decide.{dec_le}
use native.Mathlib.Nat.{add-zero, add-suc}
use investmentagent.MarketCalendar.{
  CalendarWarning, trading, in_range, last_covered, days_left, out_of_fuel, is_trading_day,
  trailing_sessions, next_trading_day, settlement_date, assert_calendar_coverage_at_startup,
  exercises_calendar,
}
use investmentagent.MarketCalendar.Walk.{
  sessions, sessions-add, interval, IsSessionAfter, walk_forward-IsSessionAfter, walk_forward-ends,
  walk_back-IsWindow,
}

-- The trailing window has `n` sessions, and they are all the trading days of an unbroken interval
-- that ends at `as_of`, in order.
pub trailing_sessions-IsWindow :
    (as_of n : ℕ) {found : List ℕ}
    → trailing_sessions as_of n ≡ ok found
    → (lo k : ℕ) × (lo + k ≡ suc as_of)
      × (found ≡ filter trading (interval lo k))
      × (length found ≡ n)
unfolding trailing_sessions
trailing_sessions-IsWindow as_of n {found} h =
    let walked =
      >>-eq-ok (raise_if (n == 0) _) _ (>>-eq-ok (raise_if (not (in_range as_of)) _) _ h) in
    let (lo, k, ends, same, many) = walk_back-IsWindow as_of n [] {found = found} walked in
    let plain = same ∙ append-nil (filter trading (interval lo k)) in
    (lo, k, ends, plain, ap length plain ∙ many)

-- A fill settles on the `t_plus`th trading day after its own session: settlement skips weekends and
-- holidays, and only a fill on a covered trading day has a settlement date.
pub settlement_date-IsSessionAfter :
    (fill_date t_plus : ℕ) {e : ℕ}
    → settlement_date fill_date t_plus ≡ ok e
    → (in_range fill_date ≡ true) × (trading fill_date ≡ true) × IsSessionAfter fill_date t_plus e
unfolding settlement_date is_trading_day
settlement_date-IsSessionAfter fill_date zero h = absurd (ground arith)
settlement_date-IsSessionAfter fill_date (suc n) {e} h = elim (Bool-cases (in_range fill_date)) [
  | inr outside ↦ absurd (ground arith)
  | inl inside ↦ elim (Bool-cases (trading fill_date)) [
    | inr closed ↦ absurd (ground arith)
    | inl opened ↦ (
      inside,
      opened,
      walk_forward-IsSessionAfter (days_left fill_date) fill_date n (ground arith),
    )
  ]
]

-- The next trading day is the first trading day after the date.
pub next_trading_day-IsSessionAfter :
    (d : ℕ) {e : ℕ} → next_trading_day d ≡ ok e → IsSessionAfter d 1 e
unfolding next_trading_day
next_trading_day-IsSessionAfter d h =
    walk_forward-IsSessionAfter (days_left d) d 0 (>>-eq-ok (raise_if (not (in_range d)) _) _ h)

-- The loops end: for any dates and counts no call stops for lack of fuel.
pub calendar_ends :
    (d n : ℕ) → (next_trading_day d ≢ err out_of_fuel) × (settlement_date d n ≢ err out_of_fuel)
unfolding next_trading_day settlement_date is_trading_day
calendar_ends d n = elim (Bool-cases (in_range d)) [
  | inr outside ↦ ((λ h. ground arith), λ h. ground arith)
  | inl inside ↦ (
    (λ h. walk_forward-ends (days_left d) d 1 (ground arith) (ground arith) (ground arith)),
    λ h. elim (Bool-cases (trading d)) [
      | inr closed ↦ absurd (ground arith)
      | inl opened ↦ elim (Bool-cases (n == 0)) [
        | inl nothing ↦ absurd (ground arith)
        | inr some_days ↦
            walk_forward-ends (days_left d) d n (ground arith) (ground arith) (ground arith)
      ]
    ],
  )
]

sessions_mono : (d j k : ℕ) → j ≤ k → sessions d j ≤ sessions d k
sessions_mono d j k h = omega (arith, sessions-add d j (k - j), ap (sessions d) (sub_add j k h))
  where
    sub_add : (j k : ℕ) → j ≤ k → j + (k - j) ≡ k
    sub_add j k h = omega arith

sessions-last : (d j : ℕ) → trading (d + suc j) ≡ true → sessions d (suc j) ≡ sessions d j + 1
unfolding sessions
sessions-last d zero h = rw (rw (add-suc, add-zero) at h) (omega arith)
sessions-last d (suc j) h = omega (arith, sessions-last (suc d) j (rw (← shift d j) at h))
  where
    shift : (d j : ℕ) → suc d + suc j ≡ d + suc (suc j)
    shift d j = omega arith

after-le :
    (a m j k : ℕ)
    → sessions a (suc j) ≡ sessions (a + m) (suc k)
    → trading (a + suc j) ≡ true
    → suc j ≤ m + suc k
after-le a m j k same last = elim (dec_le (suc j) (m + suc k)) [
  | yes h ↦ h
  | no h ↦ absurd (
      omega (
        arith,
        h,
        same,
        sessions-last a j last,
        sessions-add a m (suc k),
        sessions_mono a (m + suc k) j (omega arith),
      ))
]

-- A later fill never settles earlier.
pub settlement_date_mono :
    (a b t_plus : ℕ) {e f : ℕ}
    → a ≤ b
    → settlement_date a t_plus ≡ ok e
    → settlement_date b t_plus ≡ ok f
    → e ≤ f
settlement_date_mono a b t_plus {e} {f} h p q =
    let (_, _, (j, at_e, many, last, _)) = settlement_date-IsSessionAfter a t_plus {e = e} p in
    let (_, _, (k, at_f, many', _, _)) = settlement_date-IsSessionAfter b t_plus {e = f} q in
    let b_at : a + (b - a) ≡ b = omega arith in
    omega (
      arith,
      after-le a (b - a) j k (many ∙ sym many' ∙ ap (λ t. sessions t (suc k)) (sym b_at))
          (rw at_e at last),
    )

-- If the startup check lets a mode through that trades, the day is inside the coverage.
pub coverage_at_startup :
    (mode : String) (today : ℕ) {warning : Option CalendarWarning}
    → exercises_calendar mode ≡ true
    → assert_calendar_coverage_at_startup mode today ≡ ok warning
    → today ≤ last_covered
unfolding assert_calendar_coverage_at_startup
coverage_at_startup mode today h k = ground arith
