-- ===== src/CashEvents.antt =====
-- agent/cash_events.py: cash movements that the broker reports, other than fills, become adjustments of
-- the ledger, or are held for an operator. A call changes the ledger's store, the quarantine and the
-- audit log; what was written before an exception stays written. `show_amount` prints a decimal, and
-- `explain` makes the reason that a held movement carries.
pub mod Plan
pub mod Turns
pub mod Booking
pub mod Admission
mod Tests
use investmentagent.Prelude.{
  ℕ, String, Bool, true, false, not, ◌&&◌, Option, none, some, List, [], ◌∷◌, map, any, str_eq,
  is_some, if◌then◌else◌, Result, ok, err, ◌>>=◌, ◌>>◌, raise_if,
}
use investmentagent.Prelude.Text.{same_text?}
use investmentagent.Prelude.Int.{ℤ, pos, ◌-ℤ◌, ltb_ℤ}
use investmentagent.Accounts.{CrossAccount}
use investmentagent.Audit.{
  AuditError, AuditLog, Payload, Value, Fields, null, text, object, end, field,
}
use investmentagent.Audit as audit
use investmentagent.Ledger.Records.{CashAdjustment}
use investmentagent.LedgerStore.{
  LedgerStore, LedgerStoreError, write_cash_adjustment, known_cash_adjustment_ids,
}
use investmentagent.CashQuarantine.{
  AccountActivity, CashEventResolution, CashQuarantineError, CashQuarantineStore, Refusal,
  not_a_debit, above_ceiling, refuse_admission_reason, quarantine, resolution_for, status,
}

pub data CashSyncError : Type 0 where
  cross_account : CrossAccount → CashSyncError
  -- exceptions of the stores and of the log, passed on
  store : LedgerStoreError → CashSyncError
  holding_back : CashQuarantineError → CashSyncError
  log : AuditError → CashSyncError

-- `_cash_adjustment_for`
abbrev pub cash_adjustment_for : AccountActivity → CashAdjustment
cash_adjustment_for act = record {
  adjustment_id = act.activity_id;
  account_id = act.account_id;
  amount = act.net_amount;
  activity_type = act.activity_type;
  description = act.description;
  effective_date = act.date;
  symbol = act.symbol;
}

abbrev pub is_cat_fee : AccountActivity → Bool
is_cat_fee act = str_eq act.activity_type "FEE" && same_text? act.activity_sub_type (some "CAT")

-- `abs(net_amount) > ceiling`
abbrev pub exceeds : ℤ → ℤ → Bool
exceeds amount ceiling =
    if ltb_ℤ amount (pos 0) then ltb_ℤ ceiling (pos 0 -ℤ amount) else ltb_ℤ ceiling amount

-- `_disqualifying_reason`
unfoldable pub disqualifying_reason : AccountActivity → ℤ → Option Refusal
disqualifying_reason act ceiling =
    if not (is_cat_fee act)
    then none
    else if not (ltb_ℤ act.net_amount (pos 0))
    then some not_a_debit
    else if exceeds act.net_amount ceiling
    then some above_ceiling
    else none

-- `_is_auto_admittable_cat_fee`
unfoldable pub is_auto_admittable_cat_fee : AccountActivity → ℤ → Bool
is_auto_admittable_cat_fee act ceiling =
    is_cat_fee act && ltb_ℤ act.net_amount (pos 0) && not (exceeds act.net_amount ceiling)

-- what is to be done with one activity; `admit` says whether an operator had admitted it
pub data Action : Type 0 where
  skip : Action
  admit auto_admit : Action
  hold : Option Refusal → Action

abbrev pub refused_or : Option Refusal → Option Refusal → Option Refusal
refused_or none r = r
refused_or (some q) r = some q

abbrev pub auto_or_hold : Option Refusal → AccountActivity → ℤ → Action
auto_or_hold none act ceiling = auto_admit
auto_or_hold (some r) act ceiling = hold (some r)

-- an activity that was never seen
unfoldable pub first_action : Option ℕ → AccountActivity → ℤ → Action
first_action established_at act ceiling =
    if is_auto_admittable_cat_fee act ceiling
    then auto_or_hold (refuse_admission_reason act.created_at established_at) act ceiling
    else hold (disqualifying_reason act ceiling)

abbrev pub decided :
    Option ℕ → CashQuarantineStore → AccountActivity → ℤ → Option CashEventResolution → Action
decided established_at q act ceiling (some r) = if str_eq r.decision "ADMITTED" then admit else skip
decided established_at q act ceiling none =
    if is_some (status q act.activity_id) then skip else first_action established_at act ceiling

-- what one turn decides
unfoldable pub plan :
    String
    → Option ℕ
    → CashQuarantineStore
    → List String
    → ℤ
    → AccountActivity
    → Result CashSyncError Action
plan account_id established_at q ids ceiling act =
    if any (λ i. str_eq i act.activity_id) ids
    then ok skip
    else (raise_if (not (str_eq act.account_id account_id))
          (cross_account (record { expected = account_id; got = act.account_id }))
        >> ok (decided established_at q act ceiling (resolution_for q act.activity_id)))

pub record CashSyncWorld : Type 0 where
  pub ledger : LedgerStore
  pub quarantined : CashQuarantineStore
  pub log : AuditLog

abbrev pub applied :
    Option CashAdjustment
    → CashSyncWorld × Result CashSyncError (List CashAdjustment)
    → CashSyncWorld × Result CashSyncError (List CashAdjustment)
applied none r = r
applied (some a) (w, ok rest) = (w, ok (a ∷ rest))
applied (some a) (w, err x) = (w, err x)

abbrev pub known_after : List String → Option CashAdjustment → List String
known_after ids none = ids
known_after ids (some a) = a.adjustment_id ∷ ids

abbrev pub proceed :
    (CashSyncWorld
      → Option CashAdjustment
      → CashSyncWorld × Result CashSyncError (List CashAdjustment))
    → CashSyncWorld × Result CashSyncError (Option CashAdjustment)
    → CashSyncWorld × Result CashSyncError (List CashAdjustment)
proceed next (w, err x) = (w, err x)
proceed next (w, ok a) = applied a (next w a)

module _ (digest : Payload → String → String) (show_amount : ℤ → String)
    (explain : Option Refusal → AccountActivity → String) (ceiling : ℤ) (now : ℕ) where
  abbrev row : AuditLog → String → String → AccountActivity → Fields → Result AuditError AuditLog
  row l actor action act after = audit.append digest l record {
    actor = actor;
    action = action;
    object_type = "cash_event";
    object_id = act.activity_id;
    before = null;
    after = object after;
    correlation_id = none;
    timestamp = now;
  }

  abbrev sub_type : Option String → Value
  sub_type none = null
  sub_type (some s) = text s

  -- `_audit_quarantine`
  abbrev pub audit_quarantine : AuditLog → String → AccountActivity → Result AuditError AuditLog
  audit_quarantine l reason act = row l "system" "cash_event_quarantined" act (
      field "account_id" (text act.account_id) (
        field "activity_type" (text act.activity_type) (
          field "activity_sub_type" (sub_type act.activity_sub_type) (
            field "net_amount" (text (show_amount act.net_amount))
              (field "reason" (text reason) end)))))

  -- `_audit_admission`
  abbrev pub audit_admission : AuditLog → AccountActivity → Result AuditError AuditLog
  audit_admission l act = row l "operator" "cash_event_admitted" act (
      field "account_id" (text act.account_id)
        (field "net_amount" (text (show_amount act.net_amount)) end))

  -- `_audit_auto_admission`
  abbrev pub audit_auto_admission : AuditLog → AccountActivity → Result AuditError AuditLog
  audit_auto_admission l act = row l "system" "cash_event_auto_admitted" act (
      field "account_id" (text act.account_id) (
        field "net_amount" (text (show_amount act.net_amount))
          (field "cat_fee_auto_admit_ceiling" (text (show_amount ceiling)) end)))

  abbrev pub logged :
      CashSyncWorld
      → Option CashAdjustment
      → Result AuditError AuditLog
      → CashSyncWorld × Result CashSyncError (Option CashAdjustment)
  logged w a (err x) = (w, err (log x))
  logged w a (ok l) = (record w { log = l }, ok a)

  abbrev pub written :
      CashSyncWorld
      → AccountActivity
      → (AuditLog → AccountActivity → Result AuditError AuditLog)
      → Result LedgerStoreError LedgerStore
      → CashSyncWorld × Result CashSyncError (Option CashAdjustment)
  written w act record_it (err x) = (w, err (store x))
  written w act record_it (ok s) =
      logged (record w { ledger = s }) (some (cash_adjustment_for act)) (record_it w.log act)

  abbrev pub held_back :
      CashSyncWorld
      → AccountActivity
      → String
      → Result CashQuarantineError CashQuarantineStore
      → CashSyncWorld × Result CashSyncError (Option CashAdjustment)
  held_back w act reason (err x) = (w, err (holding_back x))
  held_back w act reason (ok q) =
      logged (record w { quarantined = q }) none (audit_quarantine w.log reason act)

  abbrev pub perform :
      CashSyncWorld
      → AccountActivity
      → Result CashSyncError Action
      → CashSyncWorld × Result CashSyncError (Option CashAdjustment)
  perform w act (err x) = (w, err x)
  perform w act (ok skip) = (w, ok none)
  perform w act (ok admit) =
      written w act audit_admission (write_cash_adjustment w.ledger (cash_adjustment_for act))
  perform w act (ok auto_admit) =
      written w act audit_auto_admission (write_cash_adjustment w.ledger (cash_adjustment_for act))
  perform w act (ok (hold r)) =
      held_back w act (explain r act) (quarantine w.quarantined act (explain r act) now)

  -- one turn of the loop: the world after it, and the adjustment that was applied
  unfoldable pub turn :
      CashSyncWorld
      → Option ℕ
      → List String
      → AccountActivity
      → CashSyncWorld × Result CashSyncError (Option CashAdjustment)
  turn w established_at ids act =
      perform w act (plan w.ledger.internal.account_id established_at w.quarantined ids ceiling act)

  -- the loop over what `adapter.non_fill_activities()` reported
  unfoldable pub sync_each :
      CashSyncWorld
      → Option ℕ
      → List String
      → List AccountActivity
      → CashSyncWorld × Result CashSyncError (List CashAdjustment)
  sync_each w established_at ids [] = (w, ok [])
  sync_each w established_at ids (act ∷ acts) =
      proceed (λ w' a. sync_each w' established_at (known_after ids a) acts)
        (turn w established_at ids act)

  unfoldable pub sync_cash_events :
      CashSyncWorld
      → List AccountActivity
      → CashSyncWorld × Result CashSyncError (List CashAdjustment)
  sync_cash_events w activities =
      sync_each w w.ledger.opening_established_at (known_cash_adjustment_ids w.ledger) activities
