-- ===== src/MarketCalendar.antt =====
-- agent/market_calendar.py: trading days, sessions and settlement. A date is its proleptic Gregorian
-- ordinal (Python's `toordinal`), an instant a count of microseconds. The time zone database is the
-- parameter `Zone`.
pub mod Walk
pub mod Sessions
mod Tests
use investmentagent.Prelude.{
  ℕ, zero, suc, ◌+◌, ◌-◌, ◌*◌, ◌/◌, ◌%◌, String, Bool, true, false, not, ◌&&◌, ◌||◌, Option, none,
  some, List, [], ◌∷◌, ◌==◌, str_eq, ltb, leb, any, if◌then◌else◌, Result, ok, err, ◌>>=◌, ◌>>◌,
  raise_if,
}

-- whether a year has a 29th of February
abbrev is_leap : ℕ → Bool
is_leap y = y % 4 == 0 && (not (y % 100 == 0) || y % 400 == 0)

abbrev month_lengths : Bool → List ℕ
month_lengths leap =
    31 ∷ (if leap then 29 else 28) ∷ 31 ∷ 30 ∷ 31 ∷ 30 ∷ 31 ∷ 31 ∷ 30 ∷ 31 ∷ 30 ∷ 31 ∷ []

abbrev days_before_month : ℕ → List ℕ → ℕ
days_before_month zero lengths = 0
days_before_month (suc m) [] = 0
days_before_month (suc m) (n ∷ lengths) = n + days_before_month m lengths

-- the ordinal of a date: 1 is the first of January of the year 1
abbrev pub date : ℕ → ℕ → ℕ → ℕ
date y m d =
    let before = y - 1 in
    before * 365
    + before / 4
    - before / 100
    + before / 400
    + days_before_month (m - 1) (month_lengths (is_leap y))
    + d

-- `MIN_YEAR` and `MAX_YEAR`, by the first and the last date that they cover
abbrev pub first_covered : ℕ
first_covered = date 2024 1 1

abbrev pub last_covered : ℕ
last_covered = date 2028 12 31

-- `_HOLIDAYS`
abbrev pub holidays : List ℕ
holidays =
    date 2024 1 1
    ∷ date 2024 1 15
    ∷ date 2024 2 19
    ∷ date 2024 3 29
    ∷ date 2024 5 27
    ∷ date 2024 6 19
    ∷ date 2024 7 4
    ∷ date 2024 9 2
    ∷ date 2024 11 28
    ∷ date 2024 12 25
    ∷ date 2025 1 1
    ∷ date 2025 1 20
    ∷ date 2025 2 17
    ∷ date 2025 4 18
    ∷ date 2025 5 26
    ∷ date 2025 6 19
    ∷ date 2025 7 4
    ∷ date 2025 9 1
    ∷ date 2025 11 27
    ∷ date 2025 12 25
    ∷ date 2026 1 1
    ∷ date 2026 1 19
    ∷ date 2026 2 16
    ∷ date 2026 4 3
    ∷ date 2026 5 25
    ∷ date 2026 6 19
    ∷ date 2026 7 3
    ∷ date 2026 9 7
    ∷ date 2026 11 26
    ∷ date 2026 12 25
    ∷ date 2027 1 1
    ∷ date 2027 1 18
    ∷ date 2027 2 15
    ∷ date 2027 3 26
    ∷ date 2027 5 31
    ∷ date 2027 6 18
    ∷ date 2027 7 5
    ∷ date 2027 9 6
    ∷ date 2027 11 25
    ∷ date 2027 12 24
    ∷ date 2028 1 17
    ∷ date 2028 2 21
    ∷ date 2028 4 14
    ∷ date 2028 5 29
    ∷ date 2028 6 19
    ∷ date 2028 7 4
    ∷ date 2028 9 4
    ∷ date 2028 11 23
    ∷ date 2028 12 25
    ∷ []

-- `_EARLY_CLOSES`
abbrev pub early_closes : List ℕ
early_closes =
    date 2024 7 3
    ∷ date 2024 11 29
    ∷ date 2024 12 24
    ∷ date 2025 7 3
    ∷ date 2025 11 28
    ∷ date 2025 12 24
    ∷ date 2026 11 27
    ∷ date 2026 12 24
    ∷ date 2027 11 26
    ∷ date 2028 7 3
    ∷ date 2028 11 24
    ∷ []

pub data CalendarError : Type 0 where
  calendar_coverage : CalendarError
  -- the subclass that refuses a startup
  calendar_expiry : CalendarError
  value_error : CalendarError
  -- a loop of the model ran out of fuel; no call below ends so
  out_of_fuel : CalendarError

abbrev pub in_range : ℕ → Bool
in_range d = leb first_covered d && leb d last_covered

-- `_check_range`
abbrev pub check_range : ℕ → Result CalendarError Unit
check_range d = raise_if (not (in_range d)) calendar_coverage

-- Monday is 0
abbrev pub weekday : ℕ → ℕ
weekday d = (d + 6) % 7

-- a weekday that is no holiday
unfoldable pub trading : ℕ → Bool
trading d = ltb (weekday d) 5 && not (any (λ h. h == d) holidays)

unfoldable pub is_trading_day : ℕ → Result CalendarError Bool
is_trading_day d = check_range d >> ok (trading d)

unfoldable pub is_early_close : ℕ → Result CalendarError Bool
is_early_close d = check_range d >> ok (any (λ e. e == d) early_closes)

-- `exercises_calendar`
abbrev pub exercises_calendar : String → Bool
exercises_calendar mode = any (λ m. str_eq m mode) ("PAPER" ∷ "PRODUCTION_ACTIVE" ∷ [])

-- the two warnings of `assert_calendar_coverage_at_startup`
pub data CalendarWarning : Type 0 where
  coverage_ended coverage_ends_soon : CalendarWarning

unfoldable pub assert_calendar_coverage_at_startup :
    String → ℕ → Result CalendarError (Option CalendarWarning)
assert_calendar_coverage_at_startup mode today =
    if ltb last_covered today
    then (if exercises_calendar mode then err calendar_expiry else ok (some coverage_ended))
    else if leb (last_covered - 90) today
    then ok (some coverage_ends_soon)
    else ok none

-- The loop of `trailing_sessions`, from `d` back, with `n` sessions still to find and those found.
unfoldable pub walk_back : ℕ → ℕ → List ℕ → Result CalendarError (List ℕ)
walk_back d zero out = ok out
walk_back zero (suc n) out = err calendar_coverage
walk_back (suc d) (suc n) out =
    let rest =
      walk_back d (if trading (suc d) then n else suc n)
        (if trading (suc d) then suc d ∷ out else out) in
    if ltb (suc d) first_covered then err calendar_coverage else rest

unfoldable pub trailing_sessions : ℕ → ℕ → Result CalendarError (List ℕ)
trailing_sessions as_of n = do
  check_range as_of
  raise_if (n == 0) value_error
  walk_back as_of n []

-- The loop of `settlement_date`: one day forward at a time, with `n` sessions still to pass; fuel.
unfoldable pub walk_forward : ℕ → ℕ → ℕ → Result CalendarError ℕ
walk_forward fuel d zero = ok d
walk_forward zero d (suc n) = err out_of_fuel
walk_forward (suc fuel) d (suc n) =
    let rest = walk_forward fuel (suc d) (if trading (suc d) then n else suc n) in
    if not (in_range (suc d)) then err calendar_coverage else rest

abbrev pub days_left : ℕ → ℕ
days_left d = last_covered + 1 - d

-- `next_trading_day`: the loop that ends at the first session is the other's for one session
unfoldable pub next_trading_day : ℕ → Result CalendarError ℕ
next_trading_day d = check_range d >> walk_forward (days_left d) d 1

unfoldable pub settlement_date : ℕ → ℕ → Result CalendarError ℕ
settlement_date fill_date t_plus = do
  check_range fill_date
  open_day ← is_trading_day fill_date
  raise_if (not open_day) value_error
  raise_if (t_plus == 0) value_error
  walk_forward (days_left fill_date) fill_date t_plus

-- The New York time zone: the date on which an instant falls there, and the instant of a minute of
-- the day there.
pub record Zone : Type 0 where
  pub eastern_date : ℕ → ℕ
  pub eastern_instant : ℕ → ℕ → ℕ

pub record SessionTimes : Type 0 where
  pub session : ℕ
  pub opens : ℕ
  pub closes : ℕ
  pub early : Bool

module _ (zone : Zone) where
  unfoldable pub session_times : ℕ → Result CalendarError SessionTimes
  session_times d = do
    check_range d
    open_day ← is_trading_day d
    raise_if (not open_day) value_error
    early ← is_early_close d
    ok record {
      session = d;
      opens = zone.eastern_instant d (9 * 60 + 30);
      closes = zone.eastern_instant d (if early then 13 * 60 else 16 * 60);
      early = early;
    }

  -- `session_for_instant`; every instant of the model has its time zone
  abbrev pub session_for_instant : ℕ → ℕ
  session_for_instant instant = zone.eastern_date instant

  -- the market's opening on the settlement session
  unfoldable pub settlement_instant : ℕ → ℕ → Result CalendarError ℕ
  settlement_instant filled_at t_plus = do
    settle_session ← settlement_date (session_for_instant filled_at) t_plus
    times ← session_times settle_session
    ok (times.opens)
