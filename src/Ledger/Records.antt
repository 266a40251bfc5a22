-- ===== src/Ledger/Records.antt =====
-- The append-only records of agent/ledger.py, and `==` of each dataclass.
use investmentagent.Prelude.{ℕ, String, Bool, Option, ◌&&◌, ◌==◌, str_eq}
use investmentagent.Prelude.Int.{ℤ, eq_ℤ}
use investmentagent.Prelude.Text.{same_text?}

pub record Fill : Type 0 where
  pub fill_id : String
  pub account_id : String
  pub symbol : String
  pub side : String
  pub qty : ℤ
  pub price : ℤ
  pub filled_at : ℕ
  pub lot_id : String
  pub holding_policy_version : Option String

pub record CashAdjustment : Type 0 where
  pub adjustment_id : String
  pub account_id : String
  pub amount : ℤ
  pub activity_type : String
  pub description : String
  pub effective_date : ℕ
  pub symbol : Option String

pub record OpeningBalanceCorrection : Type 0 where
  pub correction_id : String
  pub account_id : String
  pub amount : ℤ
  pub reason : String
  pub corrects_opening_balance_established_at : ℕ
  pub recorded_at : ℕ

pub record OrderRecord : Type 0 where
  pub client_order_id : String
  pub account_id : String
  pub status : String
  pub at : ℕ
  pub lot_id : Option String
  pub holding_policy_version : Option String

abbrev pub same_fill : Fill → Fill → Bool
same_fill f g =
    str_eq f.fill_id g.fill_id
    && str_eq f.account_id g.account_id
    && str_eq f.symbol g.symbol
    && str_eq f.side g.side
    && eq_ℤ f.qty g.qty
    && eq_ℤ f.price g.price
    && f.filled_at == g.filled_at
    && str_eq f.lot_id g.lot_id
    && same_text? f.holding_policy_version g.holding_policy_version

abbrev pub same_adjustment : CashAdjustment → CashAdjustment → Bool
same_adjustment a b =
    str_eq a.adjustment_id b.adjustment_id
    && str_eq a.account_id b.account_id
    && eq_ℤ a.amount b.amount
    && str_eq a.activity_type b.activity_type
    && str_eq a.description b.description
    && a.effective_date == b.effective_date
    && same_text? a.symbol b.symbol

abbrev pub same_correction : OpeningBalanceCorrection → OpeningBalanceCorrection → Bool
same_correction a b =
    str_eq a.correction_id b.correction_id
    && str_eq a.account_id b.account_id
    && eq_ℤ a.amount b.amount
    && str_eq a.reason b.reason
    && a.corrects_opening_balance_established_at == b.corrects_opening_balance_established_at
    && a.recorded_at == b.recorded_at
