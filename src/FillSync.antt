-- ===== src/FillSync.antt =====
-- agent/fill_sync.py: executions that the broker reports become fills of the ledger, or are held for
-- an operator. A call changes the ledger's store, the quarantine and the audit log; what was written
-- before an exception stays written.
pub mod Plan
pub mod Turn
pub mod Again
pub mod Closing
mod Tests
use investmentagent.Prelude.{
  ℕ, String, Bool, true, false, not, ◌||◌, Option, none, some, List, [], ◌∷◌, ◌++◌, map, any,
  str_eq, ltb, is_some, if◌then◌else◌, Result, ok, err, ◌>>=◌, ◌>>◌, raise_if, catch,
}
use investmentagent.Prelude.Text.{upper}
use investmentagent.Prelude.Dict.{Dict, get, put}
use investmentagent.Accounts.{CrossAccount}
use investmentagent.Audit.{AuditError, AuditLog, Payload, null, text, object, end, field}
use investmentagent.Audit as audit
use investmentagent.Ledger.Records.{Fill, OrderRecord}
use investmentagent.LedgerStore.{LedgerStore, LedgerStoreError, write_fill}
use investmentagent.Quarantine.{
  Execution, ExecutionResolution, QuarantineError, QuarantineStore, quarantine, resolution_for,
  status,
}

pub data SyncError : Type 0 where
  -- `SyncFillsError` for an execution that is later than now
  look_ahead : SyncError
  -- a `Fill` whose lot is `None`
  missing_lot : SyncError
  cross_account : CrossAccount → SyncError
  -- exceptions of the stores and of the log, passed on
  store : LedgerStoreError → SyncError
  holding_back : QuarantineError → SyncError
  log : AuditError → SyncError

-- `latest_by_client_order_id`
unfoldable pub latest_orders : Dict OrderRecord → List OrderRecord → Dict OrderRecord
latest_orders d [] = d
latest_orders d (r ∷ rs) = latest_orders (put d r.client_order_id r) rs

abbrev pub fill_ids : List Fill → List String
fill_ids fs = map (λ (f : Fill). f.fill_id) fs

abbrev pub known : List String → String → Bool
known ids id = any (λ i. str_eq i id) ids

-- what is to be done with one execution
pub data Action : Type 0 where
  skip : Action
  write : Fill → Action
  hold : String → Action

abbrev pub is_purchase : Execution → Bool
is_purchase e = str_eq (upper e.side) "BUY"

-- a fill of a purchase opens the lot of its own id
abbrev pub fill_of : Execution → String → Option String → Fill
fill_of e lot_id holding_policy_version = record {
  fill_id = e.execution_id;
  account_id = e.account_id;
  symbol = e.symbol;
  side = upper e.side;
  qty = e.qty;
  price = e.price;
  filled_at = e.filled_at;
  lot_id = lot_id;
  holding_policy_version = holding_policy_version;
}

-- the fill of an admitted execution; an admitted sale has its lot by the quarantine's own check
abbrev pub admitted_action : Execution → ExecutionResolution → Result SyncError Action
admitted_action e r =
    if is_purchase e
    then ok (write (fill_of e e.execution_id r.holding_policy_version))
    else elim r.lot_id [ none ↦ err missing_lot | some lot ↦ ok (write (fill_of e lot none)) ]

abbrev pub resolved_action : Execution → ExecutionResolution → Result SyncError Action
resolved_action e r = if str_eq r.decision "ADMITTED" then admitted_action e r else ok skip

abbrev pub policy_of : Option OrderRecord → Option String
policy_of none = none
policy_of (some r) = r.holding_policy_version

abbrev pub lot_of : Option OrderRecord → Option String
lot_of none = none
lot_of (some r) = r.lot_id

-- the intent of an execution is that of the order it belongs to; it is never guessed
abbrev pub intended_action : Execution → Option OrderRecord → Action
intended_action e r =
    if is_purchase e
    then elim (policy_of r) [
      | none ↦ hold "no holding_policy_version recorded at staging time"
      | some version ↦ write (fill_of e e.execution_id (some version))
    ]
    else elim (lot_of r) [
      | none ↦ hold "no intended lot_id recorded at staging time"
      | some lot ↦ write (fill_of e lot none)
    ]

abbrev pub undecided_action :
    Execution → QuarantineStore → Option OrderRecord → Result SyncError Action
undecided_action e q r =
    if is_some (status q e.execution_id) then ok skip else ok (intended_action e r)

abbrev pub decided_action :
    Execution
    → QuarantineStore
    → Option OrderRecord
    → Option ExecutionResolution
    → Result SyncError Action
decided_action e q r (some resolution) = resolved_action e resolution
decided_action e q r none = undecided_action e q r

-- the checks of one turn of the loop of `sync_fills`
abbrev pub check_execution : String → ℕ → Execution → Result SyncError Unit
check_execution account_id now e = do
  raise_if (not (str_eq e.account_id account_id))
      (cross_account (record { expected = account_id; got = e.account_id }))
  raise_if (ltb now e.filled_at) look_ahead

-- what one turn decides
unfoldable pub plan :
    String
    → ℕ
    → Dict OrderRecord
    → QuarantineStore
    → List String
    → Execution
    → Result SyncError Action
plan account_id now latest q ids e =
    if known ids e.execution_id
    then ok skip
    else (check_execution account_id now e
        >> decided_action e q (get latest e.client_order_id) (resolution_for q e.execution_id))

pub record SyncWorld : Type 0 where
  pub ledger : LedgerStore
  pub quarantined : QuarantineStore
  pub log : AuditLog

abbrev pub collect :
    Option Fill
    → SyncWorld × Result SyncError (List Fill)
    → SyncWorld × Result SyncError (List Fill)
collect none r = r
collect (some f) (w, ok fs) = (w, ok (f ∷ fs))
collect (some f) (w, err e) = (w, err e)

abbrev pub known_after : List String → Option Fill → List String
known_after ids none = ids
known_after ids (some f) = f.fill_id ∷ ids

abbrev pub proceed :
    (SyncWorld → Option Fill → SyncWorld × Result SyncError (List Fill))
    → SyncWorld × Result SyncError (Option Fill)
    → SyncWorld × Result SyncError (List Fill)
proceed next (w, err x) = (w, err x)
proceed next (w, ok f) = collect f (next w f)

-- `explain` makes the quarantine's reason, an f-string, from the audit row's
module _ (digest : Payload → String → String) (explain : String → Execution → String) where
  abbrev pub audited :
      SyncWorld → Result AuditError AuditLog → SyncWorld × Result SyncError (Option Fill)
  audited w (err e) = (w, err (log e))
  audited w (ok l) = (record w { log = l }, ok none)

  -- `_audit_quarantine`
  abbrev pub audit_quarantine : AuditLog → ℕ → String → Execution → Result AuditError AuditLog
  audit_quarantine l now reason e = audit.append digest l record {
    actor = "system";
    action = "execution_quarantined";
    object_type = "execution";
    object_id = e.execution_id;
    before = null;
    after = object (
        field "account_id" (text e.account_id) (
          field "client_order_id" (text e.client_order_id)
            (field "side" (text (upper e.side)) (field "reason" (text reason) end))));
    correlation_id = none;
    timestamp = now;
  }

  abbrev pub held_back :
      SyncWorld
      → ℕ
      → String
      → Execution
      → Result QuarantineError QuarantineStore
      → SyncWorld × Result SyncError (Option Fill)
  held_back w now reason e (err x) = (w, err (holding_back x))
  held_back w now reason e (ok q) =
      audited (record w { quarantined = q }) (audit_quarantine w.log now reason e)

  abbrev pub written :
      SyncWorld
      → Fill
      → Result LedgerStoreError LedgerStore
      → SyncWorld × Result SyncError (Option Fill)
  written w f (err x) = (w, err (store x))
  written w f (ok s) = (record w { ledger = s }, ok (some f))

  abbrev pub perform :
      SyncWorld
      → ℕ
      → Execution
      → Result SyncError Action
      → SyncWorld × Result SyncError (Option Fill)
  perform w now e (err x) = (w, err x)
  perform w now e (ok skip) = (w, ok none)
  perform w now e (ok (write f)) = written w f (write_fill w.ledger f)
  perform w now e (ok (hold reason)) =
      held_back w now reason e (quarantine w.quarantined e (explain reason e) now)

  -- one turn of the loop: the world after it, and the fill that was written
  unfoldable pub turn :
      SyncWorld
      → ℕ
      → Dict OrderRecord
      → List String
      → Execution
      → SyncWorld × Result SyncError (Option Fill)
  turn w now latest ids e =
      perform w now e (plan w.ledger.internal.account_id now latest w.quarantined ids e)

  -- the loop over what `adapter.fills()` reported: the world after it, and the new fills
  unfoldable pub sync_each :
      SyncWorld
      → ℕ
      → Dict OrderRecord
      → List String
      → List Execution
      → SyncWorld × Result SyncError (List Fill)
  sync_each w now latest ids [] = (w, ok [])
  sync_each w now latest ids (e ∷ es) =
      proceed (λ w' f. sync_each w' now latest (known_after ids f) es) (turn w now latest ids e)

  unfoldable pub sync_fills :
      SyncWorld → ℕ → List Execution → SyncWorld × Result SyncError (List Fill)
  sync_fills w now executions =
      let l = w.ledger.internal in
      sync_each w now (latest_orders [] l.order_records) (fill_ids l.fills) executions
