-- ===== src/Ledger.antt =====
-- agent/ledger.py: one account's append-only record of fills, orders, cash adjustments and opening
-- balance corrections, and the cash and orders derived from it. A `Decimal` quantity, price or
-- amount is an integer count of 10⁻⁹ units, so a product of two counts 10⁻¹⁸; a `datetime` is a
-- count of instants, a `date` its ordinal.
pub mod Records
pub mod Soundness
pub mod Frames
pub mod Replay
pub mod Cash
pub mod Orders
pub mod Tests
use investmentagent.Prelude.{
  ℕ, ◌+◌, ◌*◌, ◌/◌, ◌%◌, String, Bool, true, false, not, ◌&&◌, ◌||◌, Option, none, some, List, [],
  ◌∷◌, ◌++◌, map, ◌==◌, str_eq, ltb, leb, any, find, filter, last_or, if◌then◌else◌, Result, ok,
  err, ◌>>=◌, ◌>>◌, raise_if, catch,
}
use investmentagent.Prelude.Int.{
  ℤ, pos, negsuc, pos_part, neg_part, sub_ℕ, ◌+ℤ◌, ◌-ℤ◌, ◌*ℤ◌, leb_ℤ, ltb_ℤ,
}
use investmentagent.Prelude.Text.{upper}
use investmentagent.Prelude.Dict.{Dict, get, put}
use investmentagent.Accounts.{CrossAccount}
use investmentagent.Holding as holding
use investmentagent.LotSelection.{LotSelectionPolicy}
use investmentagent.MarketCalendar.{CalendarError, Zone, settlement_instant}
use investmentagent.Ledger.Records.{
  Fill, CashAdjustment, OpeningBalanceCorrection, OrderRecord, same_fill, same_adjustment,
  same_correction,
}

pub data LedgerError : Type 0 where
  -- `LedgerError`, by the check that raises it
  negative_opening bad_side bad_qty no_policy_version lot_not_unique wrong_symbol : LedgerError
  bad_status : LedgerError
  -- its subclasses
  unknown_lot lot_overdrawn duplicate_fill duplicate_cash_adjustment : LedgerError
  duplicate_opening_balance_correction : LedgerError
  -- exceptions of the modules that are called
  cross_account : CrossAccount → LedgerError
  holding_violation : holding.HoldingError → LedgerError
  calendar : CalendarError → LedgerError

pub record Ledger : Type 0 where
  pub account_id : String
  pub opening_settled_cash : ℤ
  pub opening_positions : Dict ℤ
  pub policy_registry : holding.Registry
  pub t_plus : ℕ
  pub lot_selection_policy : LotSelectionPolicy
  pub fills : List Fill
  pub order_records : List OrderRecord
  pub fill_ids : Dict Fill
  pub cash_adjustments : List CashAdjustment
  pub cash_adjustment_ids : Dict CashAdjustment
  pub opening_balance_corrections : List OpeningBalanceCorrection
  pub opening_balance_correction_ids : Dict OpeningBalanceCorrection

-- `Ledger.__init__`
unfoldable pub new_ledger :
    String → ℤ → holding.Registry → ℕ → LotSelectionPolicy → Dict ℤ → Result LedgerError Ledger
new_ledger account_id opening_settled_cash registry t_plus policy opening_positions =
    if ltb_ℤ opening_settled_cash (pos 0)
    then err negative_opening
    else ok record {
      account_id = account_id;
      opening_settled_cash = opening_settled_cash;
      opening_positions = opening_positions;
      policy_registry = registry;
      t_plus = t_plus;
      lot_selection_policy = policy;
      fills = [];
      order_records = [];
      fill_ids = [];
      cash_adjustments = [];
      cash_adjustment_ids = [];
      opening_balance_corrections = [];
      opening_balance_correction_ids = [];
    }

abbrev pub own_account : Ledger → String → Result LedgerError Unit
own_account l account_id =
    raise_if (not (str_eq account_id l.account_id))
      (cross_account (record { expected = l.account_id; got = account_id }))

abbrev pub is_buy : Fill → Bool
is_buy f = str_eq (upper f.side) "BUY"

abbrev pub is_sell : Fill → Bool
is_sell f = str_eq (upper f.side) "SELL"

-- the BUY fills of a lot, and the SELL fills
abbrev pub buys_lot : String → Fill → Bool
buys_lot lot_id f = str_eq f.lot_id lot_id && is_buy f

abbrev pub sells_lot : String → Fill → Bool
sells_lot lot_id f = str_eq f.lot_id lot_id && is_sell f

-- `sum((f.qty for f in fills if p(f)), start=_ZERO)`
unfoldable pub sum_qty : (Fill → Bool) → List Fill → ℤ
sum_qty p [] = pos 0
sum_qty p (f ∷ fs) = let rest = sum_qty p fs in if p f then f.qty +ℤ rest else rest

abbrev pub check_buy_of : Ledger → Fill → Option String → Result LedgerError Unit
check_buy_of l f none = err no_policy_version
check_buy_of l f (some version) = do
  raise_if (any (buys_lot f.lot_id) l.fills) lot_not_unique
  catch holding_violation (holding.get_policy l.policy_registry version) >>= λ _. ok tt

-- the branch of `record_fill` for a BUY
abbrev pub check_buy : Ledger → Fill → Result LedgerError Unit
check_buy l f = check_buy_of l f f.holding_policy_version

abbrev pub check_sell_of : Ledger → Fill → Option Fill → Result LedgerError Unit
check_sell_of l f none = err unknown_lot
check_sell_of l f (some buy_fill) = do
  raise_if (not (str_eq buy_fill.symbol f.symbol)) wrong_symbol
  raise_if (not (leb_ℤ (sum_qty (sells_lot f.lot_id) l.fills +ℤ f.qty) buy_fill.qty)) lot_overdrawn

-- the branch for a SELL
abbrev pub check_sell : Ledger → Fill → Result LedgerError Unit
check_sell l f = check_sell_of l f (find (buys_lot f.lot_id) l.fills)

abbrev pub append_fill : Ledger → Fill → Ledger
append_fill l f = record l { fills = l.fills ++ f ∷ []; fill_ids = put l.fill_ids f.fill_id f }

abbrev pub record_known : Ledger → Fill → Option Fill → Result LedgerError Ledger
record_known l f (some existing) = if not (same_fill existing f) then err duplicate_fill else ok l
record_known l f none = (if is_buy f then check_buy l f else check_sell l f) >> ok (append_fill l f)

unfoldable pub record_fill : Ledger → Fill → Result LedgerError Ledger
record_fill l f = do
  own_account l f.account_id
  raise_if (not (is_buy f || is_sell f)) bad_side
  raise_if (leb_ℤ f.qty (pos 0)) bad_qty
  record_known l f (get l.fill_ids f.fill_id)

abbrev pub adjust_known :
    Ledger → CashAdjustment → Option CashAdjustment → Result LedgerError Ledger
adjust_known l a (some existing) =
    if not (same_adjustment existing a) then err duplicate_cash_adjustment else ok l
adjust_known l a none = ok (record l {
  cash_adjustments = l.cash_adjustments ++ a ∷ [];
  cash_adjustment_ids = put l.cash_adjustment_ids a.adjustment_id a;
})

unfoldable pub record_cash_adjustment : Ledger → CashAdjustment → Result LedgerError Ledger
record_cash_adjustment l a = do
  own_account l a.account_id
  adjust_known l a (get l.cash_adjustment_ids a.adjustment_id)

abbrev pub correct_known :
    Ledger → OpeningBalanceCorrection → Option OpeningBalanceCorrection → Result LedgerError Ledger
correct_known l c (some existing) =
    if not (same_correction existing c) then err duplicate_opening_balance_correction else ok l
correct_known l c none = ok (record l {
  opening_balance_corrections = l.opening_balance_corrections ++ c ∷ [];
  opening_balance_correction_ids = put l.opening_balance_correction_ids c.correction_id c;
})

unfoldable pub record_opening_balance_correction :
    Ledger → OpeningBalanceCorrection → Result LedgerError Ledger
record_opening_balance_correction l c = do
  own_account l c.account_id
  correct_known l c (get l.opening_balance_correction_ids c.correction_id)

unfoldable pub record_order_status : Ledger → OrderRecord → Result LedgerError Ledger
record_order_status l r = do
  own_account l r.account_id
  raise_if (not (str_eq r.status "OPEN" || str_eq r.status "CLOSED")) bad_status
  ok (record l { order_records = l.order_records ++ r ∷ [] })

-- `for x in xs: ledger.record(x)`
module _ {X : Type 0} (write : Ledger → X → Result LedgerError Ledger) where
  unfoldable pub record_each : Ledger → List X → Result LedgerError Ledger
  record_each l [] = ok l
  record_each l (x ∷ xs) = write l x >>= λ l'. record_each l' xs

unfoldable pub from_records :
    Result LedgerError Ledger
    → List Fill
    → List OrderRecord
    → List CashAdjustment
    → List OpeningBalanceCorrection
    → Result LedgerError Ledger
from_records fresh fills order_records cash_adjustments corrections = do
  l ← fresh
  l1 ← record_each record_fill l fills
  l2 ← record_each record_order_status l1 order_records
  l3 ← record_each record_cash_adjustment l2 cash_adjustments
  record_each record_opening_balance_correction l3 corrections

-- The nearest multiple, the even one of two, of a magnitude divided by 10¹⁶: from 10⁻¹⁸ to cents.
abbrev pub half_even : ℕ → ℕ
half_even n =
    let q = n / 10000000000000000 in
    let r = 2 * (n % 10000000000000000) in
    if ltb r 10000000000000000 then q else if ltb 10000000000000000 r then q + 1 else q + q % 2

-- `_cash_notional`: the product in cents, as an amount of 10⁻⁹ dollars
unfoldable pub cash_notional : ℤ → ℤ → ℤ
cash_notional qty price =
    sub_ℕ (half_even (pos_part (qty *ℤ price)) * 10000000)
      (half_even (neg_part (qty *ℤ price)) * 10000000)

unfoldable pub adjusted : ℤ → List CashAdjustment → ℤ
adjusted total [] = total
adjusted total (a ∷ adjustments) = adjusted (total +ℤ a.amount) adjustments

unfoldable pub corrected : ℤ → List OpeningBalanceCorrection → ℤ
corrected total [] = total
corrected total (c ∷ corrections) = corrected (total +ℤ c.amount) corrections

module _ (zone : Zone) where
  abbrev pub settles_by : ℕ → ℕ → Fill → Result LedgerError Bool
  settles_by t_plus now f =
      catch calendar (settlement_instant zone f.filled_at t_plus) >>= λ t. ok (leb t now)

  -- one turn of the loop of `settled_cash` over the fills, and the loop
  abbrev pub settle_one : ℕ → ℕ → ℤ → Fill → Result LedgerError ℤ
  settle_one t_plus now total f =
      let notional = cash_notional f.qty f.price in
      if is_buy f
      then ok (total -ℤ notional)
      else (settles_by t_plus now f >>= λ settled.
          ok (if settled then total +ℤ notional else total))

  unfoldable pub settle : ℕ → ℕ → ℤ → List Fill → Result LedgerError ℤ
  settle t_plus now total [] = ok total
  settle t_plus now total (f ∷ fs) =
      settle_one t_plus now total f >>= λ total'. settle t_plus now total' fs

  unfoldable pub settled_cash : Ledger → ℕ → Result LedgerError ℤ
  settled_cash l now = do
    total ← settle l.t_plus now l.opening_settled_cash l.fills
    ok (corrected (adjusted total l.cash_adjustments) l.opening_balance_corrections)

  -- one turn of the loop of `unsettled_cash`, and the loop
  abbrev pub await_one : ℕ → ℕ → ℤ → Fill → Result LedgerError ℤ
  await_one t_plus now total f =
      if is_sell f
      then (settles_by t_plus now f >>= λ settled.
          ok (if settled then total else total +ℤ cash_notional f.qty f.price))
      else ok total

  unfoldable pub await : ℕ → ℕ → ℤ → List Fill → Result LedgerError ℤ
  await t_plus now total [] = ok total
  await t_plus now total (f ∷ fs) =
      await_one t_plus now total f >>= λ total'. await t_plus now total' fs

  unfoldable pub unsettled_cash : Ledger → ℕ → Result LedgerError ℤ
  unsettled_cash l now = await l.t_plus now (pos 0) l.fills

-- `latest` of `open_order_ids`: the last recorded status of each order
unfoldable pub latest_status : Dict String → List OrderRecord → Dict String
latest_status d [] = d
latest_status d (r ∷ rs) = latest_status (put d r.client_order_id r.status) rs

abbrev pub is_open_entry : String × String → Bool
is_open_entry (id, status) = str_eq status "OPEN"

unfoldable pub open_order_ids : Ledger → List String
open_order_ids l =
    map (λ (e : String × String). e.0) (filter is_open_entry (latest_status [] l.order_records))

unfoldable pub latest_order_record : Ledger → String → Option OrderRecord
latest_order_record l client_order_id =
    last_or (λ (r : OrderRecord). str_eq r.client_order_id client_order_id) none l.order_records
