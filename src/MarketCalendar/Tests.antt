-- ===== src/MarketCalendar/Tests.antt =====
-- Runs of agent/market_calendar.py around Thanksgiving and New Year.
use investmentagent.Prelude.{ℕ, ◌≡◌, refl, true, some, List, [], ◌∷◌, ok, err}
use investmentagent.MarketCalendar.{
  date, trading, in_range, is_trading_day, trailing_sessions, walk_back, walk_forward,
  settlement_date, next_trading_day, calendar_coverage, assert_calendar_coverage_at_startup,
  coverage_ends_soon,
}
use investmentagent.MarketCalendar.Walk.{IsSessionAfter}
use investmentagent.MarketCalendar.Sessions.{settlement_date-IsSessionAfter}

-- the Wednesday before Thanksgiving 2026, and the Friday after
abbrev wednesday : ℕ
wednesday = date 2026 11 25

abbrev friday : ℕ
friday = date 2026 11 27

settles_over_thanksgiving : settlement_date wednesday 1 ≡ ok friday
unfolding settlement_date is_trading_day walk_forward trading
settles_over_thanksgiving = refl

friday_settles_on_monday : settlement_date friday 1 ≡ ok (date 2026 11 30)
unfolding settlement_date is_trading_day walk_forward trading
friday_settles_on_monday = refl

abbrev week : List ℕ
week = date 2026 11 20 ∷ date 2026 11 23 ∷ date 2026 11 24 ∷ date 2026 11 25 ∷ date 2026 11 27 ∷ []

five_sessions : trailing_sessions (date 2026 11 28) 5 ≡ ok week
unfolding trailing_sessions walk_back trading
five_sessions = refl

before_the_table : trailing_sessions (date 2024 1 2) 2 ≡ err calendar_coverage
unfolding trailing_sessions walk_back trading
before_the_table = refl

next_after_wednesday : next_trading_day wednesday ≡ ok friday
unfolding next_trading_day walk_forward trading
next_after_wednesday = refl

settlement_date-IsSessionAfter_example :
    (in_range wednesday ≡ true) × (trading wednesday ≡ true) × IsSessionAfter wednesday 1 friday
settlement_date-IsSessionAfter_example =
    settlement_date-IsSessionAfter wednesday 1 settles_over_thanksgiving

paper_in_december :
    assert_calendar_coverage_at_startup "PAPER" (date 2028 12 1) ≡ ok (some coverage_ends_soon)
unfolding assert_calendar_coverage_at_startup
paper_in_december = refl
