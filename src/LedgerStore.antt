-- ===== src/LedgerStore.antt =====
-- agent/ledger_store.py: the durable store of one account's ledger. A write is validated by an
-- internal ledger before its row is in the file, and a call that raises changes nothing. The internal
-- ledger has a placeholder of zero as its opening balance; the real one stands beside it. A row of the
-- file is the record that it encodes: its JSON text, with decimals as texts and ISO instants, is not
-- modelled, and a row of an unknown kind, for which the program raises, cannot be written down here.
pub mod Commute
pub mod Built
pub mod Indexed
pub mod Restart
pub mod Seed
pub mod History
pub mod Reload
mod Tests
use investmentagent.Prelude.{
  ℕ, String, Bool, true, false, not, ◌||◌, Option, none, some, List, [], ◌∷◌, ◌++◌, map, any,
  str_eq, if◌then◌else◌, Result, ok, err, ◌>>=◌, ◌>>◌, raise_if, catch,
}
use investmentagent.Prelude.Int.{ℤ, pos, ◌-ℤ◌, eq_ℤ}
use investmentagent.Prelude.Dict.{Dict, put}
use investmentagent.Holding as holding
use investmentagent.LotSelection.{LotSelectionPolicy}
use investmentagent.MarketCalendar.{Zone}
use investmentagent.Ledger.Records.{Fill, CashAdjustment, OpeningBalanceCorrection, OrderRecord}
use investmentagent.Ledger.{
  Ledger, LedgerError, new_ledger, record_fill, record_order_status, record_cash_adjustment,
  record_opening_balance_correction, from_records, settled_cash, open_order_ids,
}

pub data LedgerStoreError : Type 0 where
  -- `LedgerStoreError`, by the check that raises it
  already_traded already_set never_seeded : LedgerStoreError
  -- an exception of the ledger, passed on
  ledger : LedgerError → LedgerStoreError

-- the rows of the file, by their kind
pub data Row : Type 0 where
  opening_balance : ℤ → ℕ → Row
  fill : Fill → Row
  order_record : OrderRecord → Row
  cash_adjustment : CashAdjustment → Row
  opening_balance_correction : OpeningBalanceCorrection → Row
  opening_position : String → ℤ → Row

pub record LedgerStore : Type 0 where
  pub internal : Ledger
  pub opening : Option ℤ
  pub opening_established_at : Option ℕ
  pub opening_positions : Dict ℤ
  pub rows : List Row

abbrev pub empty_store : Ledger → LedgerStore
empty_store l = record {
  internal = l;
  opening = none;
  opening_established_at = none;
  opening_positions = [];
  rows = [];
}

-- `LedgerStore.__init__` at a path where there is no file yet
unfoldable pub new_store :
    String → holding.Registry → ℕ → LotSelectionPolicy → Result LedgerStoreError LedgerStore
unfolding new_ledger
new_store account_id registry t_plus policy =
    catch ledger (new_ledger account_id (pos 0) registry t_plus policy []) >>= λ l.
    ok (empty_store l)

abbrev pub set_opening : LedgerStore → ℤ → ℕ → LedgerStore
set_opening s amount at = record s {
  opening = some amount;
  opening_established_at = some at;
  rows = s.rows ++ opening_balance amount at ∷ [];
}

-- written once: the same amount again is no error, another one is
abbrev pub write_once : LedgerStore → ℤ → ℕ → Option ℤ → Result LedgerStoreError LedgerStore
write_once s amount at none = ok (set_opening s amount at)
write_once s amount at (some known) = if eq_ℤ known amount then ok s else err already_set

abbrev pub traded_unseeded : Option ℤ → List Fill → Bool
traded_unseeded none (f ∷ fs) = true
traded_unseeded _ _ = false

unfoldable pub write_opening_balance : LedgerStore → ℤ → ℕ → Result LedgerStoreError LedgerStore
write_opening_balance s amount at = do
  raise_if (traded_unseeded s.opening s.internal.fills) already_traded
  write_once s amount at s.opening

unfoldable pub seed_opening_balance_from_broker :
    Zone → LedgerStore → ℤ → ℕ → Result LedgerStoreError LedgerStore
seed_opening_balance_from_broker zone s broker_settled_cash now = do
  effect ← catch ledger (settled_cash zone s.internal now)
  write_once s (broker_settled_cash -ℤ effect) now s.opening

-- a record that the ledger took, and its row unless it was there before
abbrev pub persisted : LedgerStore → Bool → Row → Ledger → LedgerStore
persisted s already_known row l = record s {
  internal = l;
  rows = if already_known then s.rows else s.rows ++ row ∷ [];
}

unfoldable pub write_fill : LedgerStore → Fill → Result LedgerStoreError LedgerStore
write_fill s f =
    let already_known = any (λ (g : Fill). str_eq g.fill_id f.fill_id) s.internal.fills in
    catch ledger (record_fill s.internal f) >>= λ l. ok (persisted s already_known (fill f) l)

unfoldable pub write_order_record : LedgerStore → OrderRecord → Result LedgerStoreError LedgerStore
write_order_record s r = catch ledger (record_order_status s.internal r) >>= λ l.
    ok (persisted s false (order_record r) l)

unfoldable pub write_cash_adjustment :
    LedgerStore → CashAdjustment → Result LedgerStoreError LedgerStore
write_cash_adjustment s a =
    let already_known =
      any (λ (b : CashAdjustment). str_eq b.adjustment_id a.adjustment_id)
        s.internal.cash_adjustments in
    catch ledger (record_cash_adjustment s.internal a) >>= λ l.
    ok (persisted s already_known (cash_adjustment a) l)

unfoldable pub write_opening_balance_correction :
    LedgerStore → OpeningBalanceCorrection → Result LedgerStoreError LedgerStore
write_opening_balance_correction s c =
    let already_known =
      any (λ (d : OpeningBalanceCorrection). str_eq d.correction_id c.correction_id)
        s.internal.opening_balance_corrections in
    catch ledger (record_opening_balance_correction s.internal c) >>= λ l.
    ok (persisted s already_known (opening_balance_correction c) l)

abbrev pub known_cash_adjustment_ids : LedgerStore → List String
known_cash_adjustment_ids s =
    map (λ (a : CashAdjustment). a.adjustment_id) s.internal.cash_adjustments

abbrev pub known_opening_balance_correction_ids : LedgerStore → List String
known_opening_balance_correction_ids s =
    map (λ (c : OpeningBalanceCorrection). c.correction_id) s.internal.opening_balance_corrections

abbrev seeded_ledger : LedgerStore → Option ℤ → Result LedgerStoreError Ledger
seeded_ledger s none = err never_seeded
seeded_ledger s (some opening) =
    let l = s.internal in
    catch ledger (
      from_records
        (new_ledger l.account_id opening l.policy_registry l.t_plus l.lot_selection_policy
          s.opening_positions)
        l.fills l.order_records l.cash_adjustments l.opening_balance_corrections)

-- `to_ledger`: the ledger after a restart
unfoldable pub to_ledger : LedgerStore → Result LedgerStoreError Ledger
to_ledger s = seeded_ledger s s.opening

abbrev pub taken : LedgerStore → Result LedgerError Ledger → Result LedgerStoreError LedgerStore
taken s r = catch ledger r >>= λ l. ok (record s { internal = l })

-- one turn of the loop of `_load_into`; the row is the file's already
unfoldable pub load_row : LedgerStore → Row → Result LedgerStoreError LedgerStore
load_row s (opening_balance amount at) =
    ok (record s { opening = some amount; opening_established_at = some at })
load_row s (fill f) = taken s (record_fill s.internal f)
load_row s (order_record r) = taken s (record_order_status s.internal r)
load_row s (cash_adjustment a) = taken s (record_cash_adjustment s.internal a)
load_row s (opening_balance_correction c) = taken s (record_opening_balance_correction s.internal c)
load_row s (opening_position symbol qty) =
    ok (record s { opening_positions = put s.opening_positions symbol qty })

unfoldable pub load_rows : LedgerStore → List Row → Result LedgerStoreError LedgerStore
load_rows s [] = ok s
load_rows s (row ∷ rows) = load_row s row >>= λ s'. load_rows s' rows
