-- ===== src/LedgerStore/Tests.antt =====
-- Runs of agent/ledger_store.py: fills of a time before the store was seeded, and a restart.
use investmentagent.Prelude.{◌*◌, ◌/◌, ◌≡◌, refl, some, List, [], ◌∷◌, ok}
use investmentagent.Prelude.Int.{pos, negsuc, ◌+ℤ◌, ◌-ℤ◌, ◌*ℤ◌}
use investmentagent.Prelude.Text.{upper}
use investmentagent.Prelude.Dict.{get, put}
use investmentagent.Holding as holding
use investmentagent.LotSelection.{alpaca_default_policy}
use investmentagent.MarketCalendar.{
  date, settlement_instant, settlement_date, session_times, is_trading_day, is_early_close,
  walk_forward, trading,
}
use investmentagent.Ledger.{
  new_ledger, record_fill, record_order_status, record_cash_adjustment, record_each, sum_qty,
  settled_cash, settle, cash_notional, adjusted, corrected,
}
use investmentagent.Ledger.Tests.{unit, registry, zone, noon, buy, sell, fee, order}
use investmentagent.LedgerStore.{
  LedgerStore, new_store, empty_store, to_ledger, load_rows, set_opening,
  seed_opening_balance_from_broker, write_opening_balance, write_order_record,
}
use investmentagent.LedgerStore.Built.{Built}
use investmentagent.LedgerStore.Restart.{reopened}
use investmentagent.LedgerStore.History.{Call, opens, seeds, fills, orders, adjusts, run, step}
use investmentagent.LedgerStore.Reload.{unwritten, load_rows-run, to_ledger-run}
use investmentagent.LedgerStore.Seed.{seed-to_ledger}

abbrev first : LedgerStore
first = empty_store record {
  account_id = "acct";
  opening_settled_cash = pos 0;
  opening_positions = [];
  policy_registry = registry;
  t_plus = 1;
  lot_selection_policy = alpaca_default_policy;
  fills = [];
  order_records = [];
  fill_ids = [];
  cash_adjustments = [];
  cash_adjustment_ids = [];
  opening_balance_corrections = [];
  opening_balance_correction_ids = [];
}

made : new_store "acct" registry 1 alpaca_default_policy ≡ ok first
unfolding new_store new_ledger
made = refl

-- the broker reports 519.99 after a purchase of 500, a sale that has not settled and a fee
abbrev calls : List Call
calls =
    fills buy
    ∷ fills sell
    ∷ fills sell
    ∷ adjusts fee
    ∷ orders (order "OPEN")
    ∷ seeds (pos (51999 * (unit / 100))) (noon (date 2026 11 27))
    ∷ []

load_rows-run_example :
    load_rows first (run zone calls first).rows ≡ ok (unwritten (run zone calls first))
load_rows-run_example = load_rows-run zone "acct" registry 1 alpaca_default_policy first made calls

abbrev traded : LedgerStore
traded = record first {
  internal = record (first.internal) {
    fills = buy ∷ sell ∷ [];
    fill_ids = ("f1", buy) ∷ ("f2", sell) ∷ [];
    cash_adjustments = fee ∷ [];
    cash_adjustment_ids = ("a1", fee) ∷ [];
  };
}

traded-Built : Built traded.internal
unfolding record_each record_fill record_cash_adjustment get put upper sum_qty ◌+ℤ◌
    holding.get_policy
traded-Built = (refl, refl, refl, refl)

effect : settled_cash zone traded.internal (noon (date 2026 11 27)) ≡ ok (negsuc 500009999999)
unfolding settled_cash settle adjusted corrected cash_notional settlement_instant settlement_date
    session_times is_trading_day is_early_close walk_forward trading upper ◌+ℤ◌ ◌-ℤ◌ ◌*ℤ◌
effect = refl

abbrev seeded : LedgerStore
seeded = set_opening traded (pos (1020 * unit)) (noon (date 2026 11 27))

seeds_back :
    seed_opening_balance_from_broker zone traded
      (pos (51999 * (unit / 100)))
      (noon (date 2026 11 27))
    ≡ ok seeded
unfolding seed_opening_balance_from_broker settled_cash settle adjusted corrected cash_notional
    settlement_instant settlement_date session_times is_trading_day is_early_close walk_forward
    trading upper ◌+ℤ◌ ◌-ℤ◌ ◌*ℤ◌
seeds_back = refl

seed-to_ledger_example :
    (to_ledger seeded ≡ ok (reopened traded.internal (pos (1020 * unit)) []))
    × (settled_cash zone (reopened traded.internal (pos (1020 * unit)) []) (noon (date 2026 11 27))
        ≡ ok (pos (51999 * (unit / 100))))
unfolding ◌-ℤ◌
seed-to_ledger_example =
    seed-to_ledger zone (noon (date 2026 11 27)) traded seeded (pos (51999 * (unit / 100)))
      (negsuc 500009999999) traded-Built refl refl effect refl seeds_back

abbrev opened_calls : List Call
opened_calls = opens (pos (1000 * unit)) 7 ∷ orders (order "OPEN") ∷ []

was_opened : (run zone opened_calls first).opening ≡ some (pos (1000 * unit))
unfolding run step write_opening_balance write_order_record record_order_status
was_opened = refl

to_ledger-run_example :
    to_ledger (run zone opened_calls first)
    ≡ ok (
        reopened
          (run zone opened_calls first).internal
          (pos (1000 * unit))
          (run zone opened_calls first).opening_positions)
to_ledger-run_example =
    to_ledger-run zone "acct" registry 1 alpaca_default_policy first made opened_calls
      (pos (1000 * unit)) was_opened refl
