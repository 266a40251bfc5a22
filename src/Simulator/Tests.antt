-- ===== src/Simulator/Tests.antt =====
-- Runs of agent/broker/simulator.py: a purchase, a sale, and the sale's settlement on the next session.
use investmentagent.Prelude.{ℕ, ◌*◌, ◌/◌, String, ◌≡◌, refl, false, none, some, List, [], ◌∷◌, ok}
use investmentagent.Prelude.Int.{ℤ, pos, ◌+ℤ◌, ◌-ℤ◌, ◌*ℤ◌}
use investmentagent.Prelude.Text.{upper}
use investmentagent.Prelude.Dict.{get, put}
use investmentagent.Prelude.Floats.{fixed_point, unit}
use investmentagent.Audit.{Value}
use investmentagent.MarketCalendar.{
  date, settlement_instant, settlement_date, session_times, is_trading_day, is_early_close,
  walk_forward, trading,
}
use investmentagent.Ledger.Tests.{zone, noon}
use investmentagent.Broker.{StagedOrder, Adapter, verify_staged_or_raise}
use investmentagent.Simulator.{
  Simulator, new_simulator, set_price, advance, settle_each, remove, trade, place, SimulatedOrder,
}
use investmentagent.Simulator.Implementation.{submit_impl, cancel_impl, verification}
use investmentagent.Simulator.Flows.{Conserves}
use investmentagent.Simulator.Conserved.{AllAnswered, run-Conserves}
use investmentagent.Simulator.Cash.{
  Call, pricing, advancing, submitting, canceling, step, run, IsBalanced, submit_impl-again,
}

abbrev mac : String → Value → String
mac key v = key

-- a float of the fixed point has twelve decimals
abbrev to_decimal : ℕ → ℤ
to_decimal x = pos (x / 1000)

abbrev average : ℤ → ℤ → ℤ
average total n = pos 0

abbrev show : ℕ → String
show n = "1"

abbrev paper : Adapter
paper = record {
  account_id = "acct";
  is_live = false;
  capability_policy = none;
  staging_key = some "key";
}

abbrev purchase : StagedOrder fixed_point
purchase = record {
  account_id = "acct";
  client_order_id = "o1";
  symbol = "spy";
  side = "BUY";
  requested_qty = 5 * unit;
  authorized_qty = 3 * unit;
  order_type = "LIMIT";
  time_in_force = "DAY";
  limit_price = some (100 * unit);
  asset_class = "US_EQUITY";
  funding = "SETTLED_CASH";
  session = "REGULAR";
  requested_notional = 500 * unit;
  notional = 300 * unit;
  gates_passed = [];
  binding = [];
  signature = "key";
  lot_id = none;
}

abbrev sale : StagedOrder fixed_point
sale = record purchase {
  client_order_id = "o2";
  side = "SELL";
  authorized_qty = 2 * unit;
  limit_price = some (110 * unit);
}

abbrev dollar : ℕ
dollar = 1000000000 * 1000000000

abbrev start : Simulator
start = new_simulator (pos (500 * dollar)) (noon (date 2026 11 25))

-- the second purchase has the id of the first
abbrev calls : List (Call fixed_point to_decimal mac average show zone paper)
calls =
    submitting purchase
    ∷ submitting (record purchase { authorized_qty = 1 * unit })
    ∷ submitting sale
    ∷ canceling purchase
    ∷ pricing "SPY" (pos 1)
    ∷ advancing 1440
    ∷ []

abbrev end : Simulator
end = run fixed_point to_decimal mac average show zone paper calls start

-- the market is closed on the next day, Thanksgiving
figures :
    (end.cash ≡ pos (420 * dollar))
    × (end.settled ≡ pos (200 * dollar))
    × (end.unsettled ≡ pos (220 * dollar))
unfolding run step set_price advance settle_each remove trade place submit_impl cancel_impl
    verify_staged_or_raise get put upper ◌+ℤ◌ ◌-ℤ◌ ◌*ℤ◌ settlement_instant settlement_date
    session_times is_trading_day is_early_close walk_forward trading
figures = (refl, refl, refl)

all_answered : AllAnswered fixed_point to_decimal mac average show zone paper calls start
unfolding run step set_price advance settle_each remove trade place submit_impl cancel_impl
    verify_staged_or_raise get put upper ◌+ℤ◌ ◌-ℤ◌ ◌*ℤ◌ settlement_instant settlement_date
    session_times is_trading_day is_early_close walk_forward trading
all_answered = (λ x e. cc (e), (λ x e. cc (e), (λ x e. cc (e), (tt, (tt, (tt, tt))))))

run-Conserves_example : Conserves (pos (500 * dollar)) end × IsBalanced end
run-Conserves_example =
    run-Conserves fixed_point to_decimal mac average show zone paper (pos (500 * dollar))
      (noon (date 2026 11 25)) calls all_answered

abbrev answer : SimulatedOrder
answer = record {
  account_id = "acct";
  client_order_id = "o1";
  broker_order_id = some "sim-1";
  symbol = "SPY";
  side = "BUY";
  qty = pos 3000000000;
  order_type = "LIMIT";
  time_in_force = "DAY";
  limit_price = some (pos 100000000000);
  status = "filled";
  filled_qty = pos 3000000000;
  avg_fill_price = some (pos 100000000000);
  submitted_at = some (noon (date 2026 11 25));
  filled_at = some (noon (date 2026 11 25));
}

abbrev bought : Simulator
bought = (submit_impl fixed_point to_decimal mac average show zone paper start purchase).0

answered :
    (submit_impl fixed_point to_decimal mac average show zone paper start purchase).1 ≡ ok answer
unfolding trade place submit_impl verify_staged_or_raise get put upper ◌+ℤ◌ ◌-ℤ◌ ◌*ℤ◌
answered = refl

signed :
    verification fixed_point to_decimal mac average show zone paper
      (record sale { client_order_id = "o1" })
    ≡ ok tt
unfolding verify_staged_or_raise
signed = refl

submit_impl-again_example :
    submit_impl fixed_point to_decimal mac average show zone paper bought
      (record sale { client_order_id = "o1" })
    ≡ (bought, ok answer)
submit_impl-again_example =
    submit_impl-again fixed_point to_decimal mac average show zone paper start purchase
      (record sale { client_order_id = "o1" }) answer answered signed refl
