-- ===== src/DayTrade/Tests.antt =====
-- Runs of agent/daytrade.py around Thanksgiving 2026.
use investmentagent.Prelude.{
  ℕ, ◌<◌, String, ◌≡◌, ◌≢◌, refl, ◌↔◌, none, List, [], ◌∷◌, ok, err, eq_iff, arith,
}
use investmentagent.MarketCalendar.{date, trailing_sessions, walk_back, trading}
use investmentagent.DayTrade.{
  DayTradeGuard, record_round_trip, count, would_breach, check, reconcile, day_trade_blocked,
  unverifiable_day_trade_count,
}
use investmentagent.DayTrade.Window.{Counted, IsTrailingFive, day_trade_check_iff}

abbrev guard : DayTradeGuard
guard = record {
  account_id = "acct";
  max_per_5_sessions = 3;
  round_trips = (date 2026 11 19, "SPY") ∷ (date 2026 11 20, "SPY") ∷ (date 2026 11 25, "QQQ") ∷ [];
}

abbrev friday : ℕ
friday = date 2026 11 27

-- the nineteenth has left the window, which the holiday does not count in
two_in_window : count guard friday ≡ ok 2
unfolding count trailing_sessions walk_back trading
two_in_window = refl

a_third_blocks : check (record_round_trip guard friday "SPY") friday "CASH" ≡ err day_trade_blocked
unfolding check would_breach count record_round_trip trailing_sessions walk_back trading
a_third_blocks = refl

omitted_count : reconcile guard "acct" none friday ≡ err unverifiable_day_trade_count
unfolding reconcile count trailing_sessions walk_back trading
omitted_count = refl

cash_posture : ◌≢◌ {A = String} "CASH" "MARGIN_OVER_25K"
cash_posture h = ground (arith, (eq_iff "CASH" "MARGIN_OVER_25K").1 h)

day_trade_check_iff_example : (check guard friday "CASH" ≡ ok tt) ↔ (
    (window : List ℕ) × (n : ℕ) × (trailing_sessions friday 5 ≡ ok window)
    × IsTrailingFive friday window
    × Counted window guard.round_trips n
    × (n < 3))
day_trade_check_iff_example = day_trade_check_iff guard friday "CASH" cash_posture
