-- ===== src/Simulator.antt =====
-- agent/broker/simulator.py: the paper broker behind an adapter of agent/broker/base.py. Quantities and
-- prices are counts of 10⁻⁹ and amounts of money counts of 10⁻¹⁸, so that a notional is exact.
-- `to_decimal` converts a float of the staged order, `average` is the division of decimals by which a
-- position's price is averaged, and `show` prints a number.
pub mod Implementation
pub mod Settling
pub mod Cash
pub mod Flows
pub mod Conserved
mod Tests
use investmentagent.Prelude.{
  ℕ, ◌+◌, ◌-◌, String, Bool, true, false, not, ◌&&◌, ◌||◌, Option, none, some, List, [], ◌∷◌, ◌++◌,
  map, filter, length, str_eq, leb, ◌==◌, if◌then◌else◌, Result, ok, err, ◌>>=◌, ◌>>◌,
}
use Prim.Native.String.{◌++◌ as concat}
use investmentagent.Prelude.Text.{upper}
use investmentagent.Prelude.Int.{ℤ, pos, negsuc, ◌+ℤ◌, ◌-ℤ◌, ◌*ℤ◌, ltb_ℤ, eq_ℤ}
use investmentagent.Prelude.Dict.{Dict, get, put}
use investmentagent.Prelude.Floats.{Floats}
use investmentagent.Audit.{Value}
use investmentagent.MarketCalendar.{Zone, CalendarError, settlement_instant}
use investmentagent.Quarantine.{Execution}
use investmentagent.Broker.{StagedOrder, Adapter, AdapterError, verify_staged_or_raise}

pub record SimulatedOrder : Type 0 where
  pub account_id : String
  pub client_order_id : String
  pub broker_order_id : Option String
  pub symbol : String
  pub side : String
  pub qty : ℤ
  pub order_type : String
  pub time_in_force : String
  pub limit_price : Option ℤ
  pub status : String
  pub filled_qty : ℤ
  pub avg_fill_price : Option ℤ
  pub submitted_at : Option ℕ
  pub filled_at : Option ℕ

pub record Simulator : Type 0 where
  pub cash : ℤ
  pub settled : ℤ
  pub unsettled : ℤ
  pub positions : Dict (ℤ × ℤ)
  pub orders : Dict SimulatedOrder
  pub prices : Dict ℤ
  pub now : ℕ
  pub settlements : List (ℕ × ℤ)

-- `SimulatorBroker.__init__`
abbrev pub new_simulator : ℤ → ℕ → Simulator
new_simulator cash now = record {
  cash = cash;
  settled = cash;
  unsettled = pos 0;
  positions = [];
  orders = [];
  prices = [];
  now = now;
  settlements = [];
}

unfoldable pub set_price : Simulator → String → ℤ → Simulator
set_price s symbol price = record s { prices = put s.prices (upper symbol) price }

abbrev pub same_settlement : ℕ × ℤ → ℕ × ℤ → Bool
same_settlement (t, a) (u, b) = (t == u) && eq_ℤ a b

-- `list.remove`
unfoldable pub remove : ℕ × ℤ → List (ℕ × ℤ) → List (ℕ × ℤ)
remove x [] = []
remove x (y ∷ ys) = let rest = remove x ys in if same_settlement y x then ys else y ∷ rest

-- the loop of `advance` over what is due
unfoldable pub settle_each : Simulator → List (ℕ × ℤ) → Simulator
settle_each s [] = s
settle_each s ((t, amount) ∷ due) =
    settle_each
      (record s {
        settled = s.settled +ℤ amount;
        unsettled = s.unsettled -ℤ amount;
        settlements = remove (t, amount) s.settlements;
      })
      due

abbrev pub due_by : ℕ → ℕ × ℤ → Bool
due_by now (t, amount) = leb t now

unfoldable pub advance : Simulator → ℕ → Simulator
advance s delta =
    let later = s.now + delta in
    settle_each (record s { now = later }) (filter (due_by later) s.settlements)

abbrev pub held_of : Simulator → String → ℤ × ℤ
held_of s symbol = elim (get s.positions symbol) [ none ↦ (pos 0, pos 0) | some p ↦ p ]

-- `limit_price or self._prices.get(symbol)`: a limit of zero is falsy
abbrev pub price_of : Simulator → String → Option ℤ → Option ℤ
price_of s symbol none = get s.prices symbol
price_of s symbol (some limit) = if eq_ℤ limit (pos 0) then get s.prices symbol else some limit

abbrev pub is_open : SimulatedOrder → Bool
is_open o = str_eq o.status "new" || str_eq o.status "partially_filled"

pub data SimulatorError : Type 0 where
  -- raised by `settlement_instant`, and passed on
  calendar : CalendarError → SimulatorError
  -- raised by `_verify_staged_or_raise`
  staging : AdapterError Unit → SimulatorError

-- what is left of a `StagedOrder` after the conversions at the top of `_submit_impl`
pub record Ticket : Type 0 where
  pub account_id : String
  pub client_order_id : String
  pub symbol : String
  pub side : String
  pub qty : ℤ
  pub order_type : String
  pub time_in_force : String
  pub limit_price : Option ℤ

module _ (average : ℤ → ℤ → ℤ) (show : ℕ → String) (zone : Zone) where
  abbrev pub enter : Simulator → SimulatedOrder → Simulator
  enter s o = record s { orders = put s.orders o.client_order_id o }

  abbrev pub rejected_order : Simulator → Ticket → SimulatedOrder
  rejected_order s t = record {
    account_id = t.account_id;
    client_order_id = t.client_order_id;
    broker_order_id = none;
    symbol = t.symbol;
    side = upper t.side;
    qty = t.qty;
    order_type = upper t.order_type;
    time_in_force = upper t.time_in_force;
    limit_price = t.limit_price;
    status = "rejected";
    filled_qty = pos 0;
    avg_fill_price = none;
    submitted_at = some s.now;
    filled_at = none;
  }

  -- `_reject`
  abbrev pub rejected : Simulator → Ticket → Simulator × Result SimulatorError SimulatedOrder
  rejected s t = (enter s (rejected_order s t), ok (rejected_order s t))

  abbrev pub filled_order : Simulator → Ticket → ℤ → SimulatedOrder
  filled_order s t price = record {
    account_id = t.account_id;
    client_order_id = t.client_order_id;
    broker_order_id = some (concat "sim-" (show (length s.orders + 1)));
    symbol = t.symbol;
    side = upper t.side;
    qty = t.qty;
    order_type = upper t.order_type;
    time_in_force = upper t.time_in_force;
    limit_price = t.limit_price;
    status = "filled";
    filled_qty = t.qty;
    avg_fill_price = some price;
    submitted_at = some s.now;
    filled_at = some s.now;
  }

  abbrev pub filled : Simulator → Ticket → ℤ → Simulator × Result SimulatorError SimulatedOrder
  filled s t price = (enter s (filled_order s t price), ok (filled_order s t price))

  abbrev new_average : ℤ → ℤ → ℤ → ℤ → ℤ
  new_average held avg notional new_qty =
      if eq_ℤ new_qty (pos 0) then pos 0 else average (held *ℤ avg +ℤ notional) new_qty

  abbrev pub buy : Simulator → Ticket → ℤ → Simulator
  buy s t notional =
      let (held, avg) = held_of s t.symbol in
      record s {
        settled = s.settled -ℤ notional;
        cash = s.cash -ℤ notional;
        positions =
            put s.positions t.symbol (held +ℤ t.qty, new_average held avg notional (held +ℤ t.qty));
      }

  -- what a sale changes before the settlement is looked up
  abbrev pub sell : Simulator → Ticket → ℤ → Simulator
  sell s t notional =
      let (held, avg) = held_of s t.symbol in
      record s {
        positions = put s.positions t.symbol (held -ℤ t.qty, avg);
        cash = s.cash +ℤ notional;
        unsettled = s.unsettled +ℤ notional;
      }

  abbrev pub sold :
      Simulator
      → Ticket
      → ℤ
      → ℤ
      → Result CalendarError ℕ
      → Simulator × Result SimulatorError SimulatedOrder
  sold s t price notional (err x) = (s, err (calendar x))
  sold s t price notional (ok at) =
      filled (record s { settlements = s.settlements ++ (at, notional) ∷ [] }) t price

  abbrev pub is_buy : Ticket → Bool
  is_buy t = str_eq (upper t.side) "BUY"

  abbrev pub reduces : Ticket → Bool
  reduces t = str_eq (upper t.side) "SELL" || str_eq (upper t.side) "CLOSE"

  -- a fill at the price, or a rejection
  unfoldable pub trade : Simulator → Ticket → ℤ → Simulator × Result SimulatorError SimulatedOrder
  trade s t price =
      let notional = t.qty *ℤ price in
      if is_buy t && ltb_ℤ s.settled notional
      then rejected s t
      else if reduces t && ltb_ℤ (held_of s t.symbol).0 t.qty
      then rejected s t
      else if is_buy t
      then filled (buy s t notional) t price
      else sold (sell s t notional) t price notional (settlement_instant zone s.now 1)

  abbrev pub priced :
      Simulator → Ticket → Option ℤ → Simulator × Result SimulatorError SimulatedOrder
  priced s t none = rejected s t
  priced s t (some price) = trade s t price

  abbrev pub placed :
      Simulator → Ticket → Option SimulatedOrder → Simulator × Result SimulatorError SimulatedOrder
  placed s t (some o) = (s, ok o)
  placed s t none = priced s t (price_of s t.symbol t.limit_price)

  -- `_submit_impl` after the verification: idempotent on the client's id
  unfoldable pub place : Simulator → Ticket → Simulator × Result SimulatorError SimulatedOrder
  place s t = placed s t (get s.orders t.client_order_id)
