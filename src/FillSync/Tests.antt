-- ===== src/FillSync/Tests.antt =====
-- Runs of agent/fill_sync.py: an order that was placed through the agent, and a purchase made by hand.
use investmentagent.Prelude.{
  str_eq, if◌then◌else◌, false, arith, Option, String, ◌≡◌, refl, none, some, List, [], ◌∷◌, ok,
  err, inl, inr,
}
use investmentagent.Prelude.Int.{pos, ◌+ℤ◌}
use investmentagent.Prelude.Text.{upper}
use investmentagent.Prelude.Dict.{get, put, contains}
use investmentagent.Audit.{Payload, append, assert_json_native}
use investmentagent.Holding as holding
use investmentagent.Ledger.Records.{Fill, OrderRecord}
use investmentagent.Ledger.{
  record_fill, open_order_ids, latest_status, record_order_status, record_cash_adjustment,
  record_each, sum_qty,
}
use investmentagent.Ledger.Tests.{unit, order, ledger}
use investmentagent.LedgerStore.{LedgerStore, write_fill, write_order_record}
use investmentagent.LedgerStore.Built.{Built}
use investmentagent.Quarantine.{Execution, empty, quarantine, resolution_for, status}
use investmentagent.Quarantine.Tests.{execution}
use investmentagent.FillSync.{
  known, hold, SyncWorld, fill_ids, look_ahead, latest_orders, sync_fills, sync_each, turn, plan,
}
use investmentagent.FillSync.Plan.{Accounted}
use investmentagent.FillSync.Closing.{
  closed_record, close_one, close_each, close_terminal_orders, sorted_ids, insert_id,
  plan-close_one,
}
use investmentagent.Simulator.{SimulatedOrder}
use investmentagent.FillSync.Again.{sync_fills-again, sync_fills-Accounted}

abbrev digest : Payload → String → String
digest payload previous = "digest"

abbrev explain : String → Execution → String
explain reason e = reason

abbrev placed : OrderRecord
placed = record (order "OPEN") { client_order_id = "o2"; holding_policy_version = some "v1" }

abbrev world : SyncWorld
world = record {
  ledger = record {
    internal = record ledger { order_records = order "OPEN" ∷ placed ∷ [] };
    opening = none;
    opening_established_at = none;
    opening_positions = [];
    rows = [];
  };
  quarantined = empty "acct";
  log = [];
}

-- a purchase of the order "o2", one made by hand, and one that the ledger has
abbrev executions : List Execution
executions =
    record execution { execution_id = "x2"; client_order_id = "o2"; qty = pos unit; filled_at = 8 }
    ∷ execution
    ∷ record execution { execution_id = "f1" }
    ∷ []

abbrev synced : SyncWorld
synced = (sync_fills digest explain world 20 executions).0

abbrev bought : Fill
bought = record {
  fill_id = "x2";
  account_id = "acct";
  symbol = "SPY";
  side = "BUY";
  qty = pos unit;
  price = pos 100;
  filled_at = 8;
  lot_id = "x2";
  holding_policy_version = some "v1";
}

polled : sync_fills digest explain world 20 executions ≡ (synced, ok (bought ∷ []))
unfolding sync_fills sync_each turn plan latest_orders write_fill record_fill sum_qty quarantine
    resolution_for status get put upper ◌+ℤ◌ append assert_json_native holding.get_policy
polled = refl

-- an execution that is later than the poll ends it
later : (sync_fills digest explain world 7 executions).1 ≡ err look_ahead
unfolding sync_fills sync_each turn plan latest_orders resolution_for status get put upper
later = refl

world-Built : Built world.ledger.internal
unfolding record_each record_fill record_order_status record_cash_adjustment get put upper sum_qty
    ◌+ℤ◌ holding.get_policy
world-Built = (refl, refl, refl, refl)

sync_fills-again_example : sync_fills digest explain synced 20 executions ≡ (synced, ok [])
sync_fills-again_example =
    sync_fills-again digest explain world synced 20 executions (bought ∷ []) world-Built polled

-- the purchase by hand
sync_fills-Accounted_example :
    Accounted synced.quarantined (fill_ids synced.ledger.internal.fills) "x1"
sync_fills-Accounted_example =
    sync_fills-Accounted digest explain world synced 20 executions (bought ∷ []) execution
      world-Built polled (inr (inl refl))

abbrev ended : SimulatedOrder
ended = record {
  account_id = "acct";
  client_order_id = "o2";
  broker_order_id = none;
  symbol = "SPY";
  side = "BUY";
  qty = pos unit;
  order_type = "LIMIT";
  time_in_force = "DAY";
  limit_price = none;
  status = "filled";
  filled_qty = pos unit;
  avg_fill_price = none;
  submitted_at = none;
  filled_at = none;
}

-- the broker has filled the order, and no longer knows the other one
abbrev answers : String → Option SimulatedOrder
answers id = if str_eq id "o2" then some ended else none

abbrev closed_ledger : LedgerStore
closed_ledger = (close_terminal_orders answers world.ledger 15).0

ends_one :
    close_terminal_orders answers world.ledger 15
    ≡ (closed_ledger, ok (closed_record world.ledger "o2" 15 ∷ []))
unfolding close_terminal_orders close_each close_one sorted_ids insert_id open_order_ids
    latest_status write_order_record record_order_status get put
ends_one = refl

closes_it :
    close_one world.ledger "o2" (some ended) 15
    ≡ (closed_ledger, ok (some (closed_record world.ledger "o2" 15)))
unfolding close_terminal_orders close_each close_one sorted_ids insert_id open_order_ids
    latest_status write_order_record record_order_status get put
closes_it = refl

not_decided :
    (resolution_for (empty "acct") "x2" ≡ none)
    × (known [] "x2" ≡ false)
    × (contains (empty "acct").held "x2" ≡ false)
unfolding resolution_for get
not_decided = (refl, refl, refl)

-- the execution that became a fill above is held where it is reported after the close
plan-close_one_example :
    (reason : String) × (plan closed_ledger.internal.account_id 20
        (latest_orders [] closed_ledger.internal.order_records)
        (empty "acct")
        []
        (record execution {
          execution_id = "x2";
          client_order_id = "o2";
          qty = pos unit;
          filled_at = 8;
        })
      ≡ ok (hold reason))
plan-close_one_example =
    plan-close_one world.ledger closed_ledger (some ended) (closed_record world.ledger "o2" 15) 15
      20 (empty "acct") []
      (record execution {
        execution_id = "x2";
        client_order_id = "o2";
        qty = pos unit;
        filled_at = 8;
      })
      closes_it not_decided.1 refl (omega arith) not_decided.0 not_decided.2
