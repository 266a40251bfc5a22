-- ===== src/DayTrade.antt =====
-- agent/daytrade.py: the rolling day-trade guard of one account.
pub mod Window
mod Tests
use investmentagent.Prelude.{
  ℕ, String, Bool, true, false, not, Option, none, some, List, [], ◌∷◌, ◌++◌, ◌==◌, str_eq, leb,
  any, filter, length, if◌then◌else◌, Result, ok, err, ◌>>=◌, ◌>>◌, raise_if, catch,
}
use investmentagent.Accounts.{CrossAccount}
use investmentagent.MarketCalendar.{CalendarError, trailing_sessions}

pub data DayTradeError : Type 0 where
  day_trade_blocked posture_mismatch : DayTradeError
  -- a subclass of `PostureMismatch`
  unverifiable_day_trade_count : DayTradeError
  cross_account : CrossAccount → DayTradeError
  calendar : CalendarError → DayTradeError

pub record DayTradeGuard : Type 0 where
  pub account_id : String
  pub max_per_5_sessions : ℕ
  -- session and symbol of each round trip
  pub round_trips : List (ℕ × String)

-- `_WINDOW_SESSIONS`
abbrev pub window_sessions : ℕ
window_sessions = 5

unfoldable pub record_round_trip : DayTradeGuard → ℕ → String → DayTradeGuard
record_round_trip g session symbol = record g {
  round_trips = g.round_trips ++ (session, symbol) ∷ [];
}

abbrev pub in_window : List ℕ → ℕ × String → Bool
in_window window (session, symbol) = any (λ s. s == session) window

unfoldable pub count : DayTradeGuard → ℕ → Result DayTradeError ℕ
count g as_of = do
  window ← catch calendar (trailing_sessions as_of window_sessions)
  ok (length (filter (in_window window) g.round_trips))

unfoldable pub would_breach : DayTradeGuard → ℕ → Result DayTradeError Bool
would_breach g as_of = count g as_of >>= λ n. ok (leb g.max_per_5_sessions n)

-- `DayTradeGuard.check`
unfoldable pub check : DayTradeGuard → ℕ → String → Result DayTradeError Unit
check g as_of posture =
    if str_eq posture "MARGIN_OVER_25K"
    then ok tt
    else (would_breach g as_of >>= λ breach. raise_if breach day_trade_blocked)

abbrev compare_counts : ℕ → Option ℕ → Result DayTradeError Unit
compare_counts local_count none = raise_if (not (local_count == 0)) unverifiable_day_trade_count
compare_counts local_count (some reported) =
    raise_if (not (reported == local_count)) posture_mismatch

-- `DayTradeGuard.reconcile`; a report of `none` is a field that the broker omitted
unfoldable pub reconcile : DayTradeGuard → String → Option ℕ → ℕ → Result DayTradeError Unit
reconcile g account_id broker_reported as_of = do
  raise_if (not (str_eq account_id g.account_id))
      (cross_account (record { expected = g.account_id; got = account_id }))
  local_count ← count g as_of
  compare_counts local_count broker_reported
