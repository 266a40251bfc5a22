-- ===== src/Simulator/Implementation.antt =====
-- What an adapter calls of agent/broker/simulator.py: the two writes, after the verification of the
-- order, and the reads of orders and fills.
use investmentagent.Prelude.{
  ℕ, String, Bool, ◌&&◌, Option, none, some, List, [], ◌∷◌, ◌++◌, map, filter, str_eq,
  if◌then◌else◌, Result, ok, err,
}
use Prim.Native.String.{◌++◌ as concat}
use investmentagent.Prelude.Text.{upper}
use investmentagent.Prelude.Int.{ℤ, pos, ltb_ℤ}
use investmentagent.Prelude.Dict.{get, put}
use investmentagent.Prelude.Floats.{Floats}
use investmentagent.Audit.{Value}
use investmentagent.MarketCalendar.{Zone}
use investmentagent.Quarantine.{Execution}
use investmentagent.Broker.{StagedOrder, Adapter, AdapterError, verify_staged_or_raise}
use investmentagent.Simulator.{
  Simulator, SimulatedOrder, SimulatorError, staging, Ticket, place, is_open,
}

-- `open_orders`
unfoldable pub open_orders : Simulator → List SimulatedOrder
open_orders s = filter is_open (map (λ (e : String × SimulatedOrder). e.1) s.orders)

abbrev pub is_filled : SimulatedOrder → Bool
is_filled o = str_eq o.status "filled" && ltb_ℤ (pos 0) o.filled_qty

-- an order that has no instant of filling gives an execution without one, which `Execution` lacks
abbrev execution_of : SimulatedOrder → List Execution
execution_of o = elim o.filled_at [
  | none ↦ []
  | some at ↦
      record {
        execution_id = concat "sim::" o.client_order_id;
        account_id = o.account_id;
        client_order_id = o.client_order_id;
        symbol = o.symbol;
        side = o.side;
        qty = o.filled_qty;
        price = elim o.avg_fill_price [ none ↦ pos 0 | some p ↦ p ];
        cum_qty = o.filled_qty;
        filled_at = at;
      }
      ∷ []
]

abbrev fills_of : List SimulatedOrder → List Execution
fills_of [] = []
fills_of (o ∷ os) = let rest = fills_of os in if is_filled o then execution_of o ++ rest else rest

-- `fills`
unfoldable pub fills : Simulator → List Execution
fills s = fills_of (map (λ (e : String × SimulatedOrder). e.1) s.orders)

module _ (fl : Floats) (to_decimal : fl.Float → ℤ) where
  abbrev limit_of : Option fl.Float → Option ℤ
  limit_of none = none
  limit_of (some x) = some (to_decimal x)

  abbrev pub ticket_of : Adapter → StagedOrder fl → Ticket
  ticket_of a o = record {
    account_id = a.account_id;
    client_order_id = o.client_order_id;
    symbol = upper o.symbol;
    side = o.side;
    qty = to_decimal o.authorized_qty;
    order_type = o.order_type;
    time_in_force = o.time_in_force;
    limit_price = limit_of o.limit_price;
  }

  module _ (mac : String → Value → String) (average : ℤ → ℤ → ℤ) (show : ℕ → String)
      (zone : Zone) where
    abbrev pub verification : Adapter → StagedOrder fl → Result (AdapterError Unit) Unit
    verification a o = verify_staged_or_raise fl {B = Unit} {S = Unit} mac (λ _. ok tt) none a o

    -- `_submit_impl`
    abbrev pub verified_submit :
        Adapter
        → Simulator
        → StagedOrder fl
        → Result (AdapterError Unit) Unit
        → Simulator × Result SimulatorError SimulatedOrder
    verified_submit a s o (err x) = (s, err (staging x))
    verified_submit a s o (ok _) = place average show zone s (ticket_of a o)

    unfoldable pub submit_impl :
        Adapter → Simulator → StagedOrder fl → Simulator × Result SimulatorError SimulatedOrder
    submit_impl a s o = verified_submit a s o (verification a o)

    abbrev canceled : Simulator → Option SimulatedOrder → Simulator × Option SimulatedOrder
    canceled s none = (s, none)
    canceled s (some o) =
        if is_open o
        then (
          record s { orders = put s.orders o.client_order_id (record o { status = "canceled" }) },
          some (record o { status = "canceled" }),
        )
        else (s, some o)

    abbrev verified_cancel :
        Simulator
        → StagedOrder fl
        → Result (AdapterError Unit) Unit
        → Simulator × Result SimulatorError (Option SimulatedOrder)
    verified_cancel s o (err x) = (s, err (staging x))
    verified_cancel s o (ok _) =
        let (s', r) = canceled s (get s.orders o.client_order_id) in (s', ok r)

    -- `_cancel_impl`
    unfoldable pub cancel_impl :
        Adapter
        → Simulator
        → StagedOrder fl
        → Simulator × Result SimulatorError (Option SimulatedOrder)
    cancel_impl a s o = verified_cancel s o (verification a o)
