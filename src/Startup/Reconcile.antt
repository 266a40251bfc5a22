-- ===== src/Startup/Reconcile.antt =====
-- The reconciliation loop of agent/startup.py, and the state, errors and audit rows of a startup.
use investmentagent.Prelude.{ℕ, String, Option, none, some, List, [], ◌∷◌, Result, ok, err, catch}
use investmentagent.Prelude.Int.{ℤ}
use investmentagent.Prelude.Dict.{Dict}
use investmentagent.Prelude.Floats.{Floats}
use investmentagent.Audit.{
  AuditError, AuditLog, Entry, Payload, append, Value, null, number, text, array, object, Items,
  done, item, Fields, end, field,
}
use investmentagent.LotSelection.{sort}
use investmentagent.Mode.{ModeError}
use investmentagent.Mode.Store.{ModeStore}
use investmentagent.Approval.{ApprovalService}
use investmentagent.MarketCalendar.{Zone, CalendarError, CalendarWarning, session_for_instant}
use investmentagent.DayTrade.{DayTradeError, DayTradeGuard, reconcile}
use investmentagent.Reconciliation.{
  ReconciliationError, AccountSnapshot, Position, BrokerOrder, reconcile_positions,
  reconcile_settled_cash, reconcile_open_orders,
}
use investmentagent.Startup.Steps.{Step, return, lift, ◌>>=◌, ◌>>◌}

pub data StartupError : Type 0 where
  wrong_mode : ModeError → StartupError
  accounts_not_expected audit_chain_broken : StartupError
  -- the refusal of a mode that no adapter runs, a log line and not an exception in the source
  no_adapter : StartupError
  calendar : CalendarError → StartupError
  day_trade : DayTradeError → StartupError
  reconciliation : ReconciliationError → StartupError
  audit : AuditError → StartupError

-- how Python prints: the text of an exception or a warning, `str` of a decimal and of a number, and
-- `isoformat`
pub record Texts : Type 0 where
  pub describe : StartupError → String
  pub describe_warning : CalendarWarning → String
  pub decimal : ℤ → String
  pub numeral : ℕ → String
  pub iso_date : ℕ → String
  pub iso_instant : ℕ → String

pub record AccountReconciliation : Type 0 where
  pub account_id : String
  pub day_trade_guard : DayTradeGuard
  pub broker_reported_day_trades : Option ℕ
  pub local_positions : Dict ℤ
  pub broker_positions : List Position
  pub local_settled_cash : ℤ
  pub broker_account : AccountSnapshot
  pub local_open_order_ids : List String
  pub broker_open_orders : List BrokerOrder

-- the stores that a startup reads and writes
pub record World (fl : Floats) : Type 0 where
  pub mode_store : ModeStore
  pub audit_log : AuditLog
  pub approval_service : ApprovalService fl

-- `{"mode": mode}`
abbrev pub mode_value : Option String → Value
mode_value none = null
mode_value (some m) = text m

abbrev pub mode_field : Option String → Value
mode_field m = object (field "mode" (mode_value m) end)

abbrev count_value : Texts → Option ℕ → Value
count_value texts none = null
count_value texts (some n) = number (texts.numeral n)

abbrev position_fields : Texts → Dict ℤ → Fields
position_fields texts [] = end
position_fields texts ((symbol, qty) ∷ d) =
    field symbol (text (texts.decimal qty)) (position_fields texts d)

abbrev text_items : List String → Items
text_items [] = done
text_items (s ∷ ss) = item (text s) (text_items ss)

module _ (fl : Floats) (digest : Payload → String → String) (zone : Zone) (texts : Texts) where
  abbrev logged : World fl → Result AuditError AuditLog → World fl × Result StartupError Unit
  logged w (ok log) = (record w { audit_log = log }, ok tt)
  logged w (err e) = (w, err (audit e))

  -- `audit_log.append`
  unfoldable pub audit_row : Entry → Step (World fl) StartupError Unit
  audit_row e w = logged w (append digest w.audit_log e)

  abbrev pub account_row : AccountReconciliation → ℕ → Option String → ℕ → Entry
  account_row acct today correlation_id now = record {
    actor = "system";
    action = "reconcile_account";
    object_type = "account";
    object_id = acct.account_id;
    before = null;
    after = object (
        field "broker_reported_day_trades" (count_value texts acct.broker_reported_day_trades) (
          field "as_of" (text (texts.iso_date today)) (
            field "positions" (object (position_fields texts acct.local_positions)) (
              field "settled_cash" (text (texts.decimal acct.local_settled_cash)) (
                field "open_order_ids"
                  (array (text_items (sort (λ s. s) (λ _. 0) acct.local_open_order_ids))) end)))));
    correlation_id = correlation_id;
    timestamp = now;
  }

  -- one turn of the loop
  unfoldable pub reconcile_account :
      AccountReconciliation → ℕ → Option String → ℕ → Step (World fl) StartupError Unit
  reconcile_account acct today correlation_id now = do
    lift (
        catch day_trade
          (reconcile acct.day_trade_guard acct.account_id acct.broker_reported_day_trades today))
    lift (
        catch reconciliation
          (reconcile_positions acct.account_id acct.local_positions acct.broker_positions))
    lift (
        catch reconciliation
          (reconcile_settled_cash acct.account_id acct.local_settled_cash acct.broker_account))
    lift (
        catch reconciliation
          (reconcile_open_orders acct.account_id acct.local_open_order_ids acct.broker_open_orders))
    audit_row (account_row acct today correlation_id now)

  unfoldable pub reconcile_each :
      List AccountReconciliation
      → ℕ
      → Option String
      → ℕ
      → Step (World fl) StartupError (List String)
  reconcile_each [] today correlation_id now = return []
  reconcile_each (acct ∷ accounts) today correlation_id now = do
    reconcile_account acct today correlation_id now
    reconciled ← reconcile_each accounts today correlation_id now
    return (acct.account_id ∷ reconciled)

  unfoldable pub reconcile_accounts_or_raise :
      List AccountReconciliation → ℕ → Option String → Step (World fl) StartupError (List String)
  reconcile_accounts_or_raise accounts now correlation_id =
      reconcile_each accounts (session_for_instant zone now) correlation_id now
