-- ===== src/Ledger/Tests.antt =====
-- Runs of agent/ledger.py on one account: a purchase, a partial sale, a fee and an open order.
use investmentagent.Prelude.{
  ℕ, ◌*◌, ◌+◌, ◌/◌, String, ◌≡◌, refl, none, some, [], ◌∷◌, ok, err, Result,
}
use investmentagent.Prelude.Int.{pos, negsuc, ◌+ℤ◌, ◌-ℤ◌, ◌*ℤ◌}
use investmentagent.Prelude.Text.{upper}
use investmentagent.Prelude.Dict.{get, put}
use investmentagent.Holding as holding
use investmentagent.LotSelection.{alpaca_default_policy}
use investmentagent.MarketCalendar.{
  Zone, date, settlement_instant, settlement_date, session_times, is_trading_day, is_early_close,
  walk_forward, trading,
}
use investmentagent.Ledger.Records.{Fill, CashAdjustment, OrderRecord}
use investmentagent.Ledger.{
  Ledger, LedgerError, new_ledger, from_records, record_each, record_fill, record_order_status,
  record_cash_adjustment, record_opening_balance_correction, sum_qty, lot_overdrawn, duplicate_fill,
  cash_notional, settled_cash, unsettled_cash, settle, await, adjusted, corrected,
}
use investmentagent.Ledger.Soundness.{IsSound}
use investmentagent.Ledger.Replay.{from_records-rebuilds, from_records-IsSound}
use investmentagent.Ledger.Cash.{all_cash, settled-unsettled}

-- one unit of a quantity or an amount
abbrev pub unit : ℕ
unit = 1000000000

abbrev pub registry : holding.Registry
registry =
    (
      "v1",
      record {
        version = "v1";
        minimum_holding_period = 10;
        cooldown_period = 5;
        effective_at = none;
      },
    )
    ∷ []

-- a clock of minutes on which New York is at zero
abbrev pub zone : Zone
zone = record { eastern_date = λ t. t / 1440; eastern_instant = λ d m. d * 1440 + m }

abbrev pub noon : ℕ → ℕ
noon d = d * 1440 + 720

abbrev pub buy : Fill
buy = record {
  fill_id = "f1";
  account_id = "acct";
  symbol = "SPY";
  side = "BUY";
  qty = pos (5 * unit);
  price = pos (100 * unit);
  filled_at = noon (date 2026 11 25);
  lot_id = "lot1";
  holding_policy_version = some "v1";
}

abbrev pub sell : Fill
sell = record buy {
  fill_id = "f2";
  side = "sell";
  qty = pos (2 * unit);
  price = pos (110 * unit);
  filled_at = noon (date 2026 11 27);
  holding_policy_version = none;
}

abbrev pub fee : CashAdjustment
fee = record {
  adjustment_id = "a1";
  account_id = "acct";
  amount = negsuc 9999999;
  activity_type = "FEE";
  description = "CAT";
  effective_date = date 2026 11 27;
  symbol = none;
}

abbrev pub order : String → OrderRecord
order status = record {
  client_order_id = "o1";
  account_id = "acct";
  status = status;
  at = 5;
  lot_id = none;
  holding_policy_version = none;
}

abbrev made : Result LedgerError Ledger
made =
    from_records (new_ledger "acct" (pos (1000 * unit)) registry 1 alpaca_default_policy [])
      (buy ∷ sell ∷ sell ∷ []) (order "OPEN" ∷ []) (fee ∷ fee ∷ []) []

-- the replayed sale and the replayed fee are kept once
abbrev pub ledger : Ledger
ledger = record {
  account_id = "acct";
  opening_settled_cash = pos (1000 * unit);
  opening_positions = [];
  policy_registry = registry;
  t_plus = 1;
  lot_selection_policy = alpaca_default_policy;
  fills = buy ∷ sell ∷ [];
  order_records = order "OPEN" ∷ [];
  fill_ids = ("f1", buy) ∷ ("f2", sell) ∷ [];
  cash_adjustments = fee ∷ [];
  cash_adjustment_ids = ("a1", fee) ∷ [];
  opening_balance_corrections = [];
  opening_balance_correction_ids = [];
}

replayed : made ≡ ok ledger
unfolding from_records new_ledger record_each record_fill record_order_status record_cash_adjustment
    record_opening_balance_correction upper get put sum_qty holding.get_policy ◌+ℤ◌
replayed = refl

overdrawn :
    record_fill ledger (record sell { fill_id = "f3"; qty = pos (4 * unit) }) ≡ err lot_overdrawn
unfolding record_fill upper get sum_qty ◌+ℤ◌
overdrawn = refl

reused_id : record_fill ledger (record sell { qty = pos unit }) ≡ err duplicate_fill
unfolding record_fill upper get
reused_id = refl

-- 1.005 dollars and 1.015 go to the even cent
half_cents :
    (cash_notional (pos unit) (pos 1005000000) ≡ pos 1000000000)
    × (cash_notional (pos unit) (pos 1015000000) ≡ pos 1020000000)
unfolding cash_notional ◌*ℤ◌
half_cents = (refl, refl)

from_records-IsSound_example : IsSound ledger
from_records-IsSound_example =
    from_records-IsSound "acct" (pos (1000 * unit)) registry 1 alpaca_default_policy []
      (buy ∷ sell ∷ sell ∷ []) (order "OPEN" ∷ []) (fee ∷ fee ∷ []) [] ledger replayed

from_records-rebuilds_example :
    from_records
      (new_ledger "acct" (pos (1000 * unit)) registry 1 alpaca_default_policy [])
      ledger.fills
      ledger.order_records
      ledger.cash_adjustments
      ledger.opening_balance_corrections
    ≡ ok ledger
from_records-rebuilds_example =
    from_records-rebuilds "acct" (pos (1000 * unit)) registry 1 alpaca_default_policy []
      (buy ∷ sell ∷ sell ∷ []) (order "OPEN" ∷ []) (fee ∷ fee ∷ []) [] ledger replayed

abbrev later : Ledger
later = record ledger {
  fills = buy ∷ sell ∷ record sell { fill_id = "f3" } ∷ [];
  fill_ids = ("f1", buy) ∷ ("f2", sell) ∷ ("f3", record sell { fill_id = "f3" }) ∷ [];
}

recorded : record_fill ledger (record sell { fill_id = "f3" }) ≡ ok later
unfolding record_fill upper get put sum_qty ◌+ℤ◌
recorded = refl

-- the Friday's sale settles on Monday: until then its 220 dollars are unsettled
settled : settled_cash zone ledger (noon (date 2026 11 27)) ≡ ok (pos 499990000000)
unfolding settled_cash settle cash_notional ◌-ℤ◌ ◌+ℤ◌ ◌*ℤ◌ adjusted corrected upper
    settlement_instant settlement_date session_times is_trading_day is_early_close walk_forward
    trading
settled = refl

unsettled : unsettled_cash zone ledger (noon (date 2026 11 27)) ≡ ok (pos 220000000000)
unfolding unsettled_cash await cash_notional ◌-ℤ◌ ◌+ℤ◌ ◌*ℤ◌ upper settlement_instant settlement_date
    session_times is_trading_day is_early_close walk_forward trading
unsettled = refl

settled-unsettled_example : pos 499990000000 +ℤ pos 220000000000 ≡ all_cash ledger
settled-unsettled_example =
    settled-unsettled zone ledger (noon (date 2026 11 27)) (pos 499990000000) (pos 220000000000)
      (from_records-IsSound "acct" (pos (1000 * unit)) registry 1 alpaca_default_policy []
        (buy ∷ sell ∷ sell ∷ []) (order "OPEN" ∷ []) (fee ∷ fee ∷ []) [] ledger replayed)
      settled unsettled
