-- ===== src/Startup.antt =====
-- agent/startup.py: the sequence that each start of the system runs, and `_run_advance_mode` of
-- scripts/run_agent.py, the operator's own change of mode. `Texts` prints values for audit rows and
-- messages; no decision reads them.
mod Steps
pub mod Reconcile
mod Changes
mod Stages
pub mod Outcome
pub mod Advance
pub mod Histories
mod Tests
use investmentagent.Prelude.{
  ℕ, String, Bool, true, false, not, ◌&&◌, Option, none, some, List, [], ◌∷◌, map, str_eq, any,
  length, last_or, if◌then◌else◌, Result, ok, err, raise_if, catch,
}
use investmentagent.Prelude.Floats.{Floats}
use investmentagent.Prelude.Text.{same_text?}
use investmentagent.Audit.{
  AuditError, AuditEvent, AuditLog, Entry, Payload, append, verify, Value, null, text, object,
  Fields, end, field, bad_key,
}
use investmentagent.Mode.{ModeError, key_error, assert_legal_startup, normalize_persisted}
use investmentagent.Mode.Store.{ModeStore, write, current, is_paused, recorded_from, resumable}
use investmentagent.Approval.{ApprovalToken, ApprovalService, sweep_expired}
use investmentagent.MarketCalendar.{
  Zone, CalendarError, CalendarWarning, coverage_ended, coverage_ends_soon, calendar_expiry,
  calendar_coverage, exercises_calendar, assert_calendar_coverage_at_startup, session_for_instant,
}
use investmentagent.DayTrade.{DayTradeError, day_trade_blocked, calendar as calendar_error}
use investmentagent.Reconciliation.{ReconciliationError}
use investmentagent.Startup.Steps.{Step, return, lift, change, on_error, ◌>>=◌, ◌>>◌}
use investmentagent.Startup.Reconcile.{
  Texts, World, StartupError, AccountReconciliation, audit_row, mode_field, mode_value,
  reconcile_accounts_or_raise, wrong_mode, accounts_not_expected, audit_chain_broken, no_adapter,
  day_trade, reconciliation, calendar, audit,
}

-- the two actions whose rows claim a persisted mode
abbrev pub claims_mode : String → Bool
claims_mode action =
    any (λ a. str_eq a action) ("mode_transition" ∷ "mode_persisted_reconciled" ∷ [])

abbrev field_value : Fields → String → Value
field_value end k = null
field_value (field j v fs) k = if str_eq j k then v else field_value fs k
field_value (bad_key fs) k = field_value fs k

-- `ev.after.get("mode") if isinstance(ev.after, dict) else None`
abbrev claimed_in : Value → Value
claimed_in (object fs) = field_value fs "mode"
claimed_in _ = null

abbrev claim_of : Option AuditEvent → Value
claim_of none = null
claim_of (some ev) = claimed_in ev.after

-- `_last_claimed_mode`: the first row from the end is the last that passes
unfoldable pub last_claimed_mode : AuditLog → Value
last_claimed_mode log = claim_of (last_or (λ (ev : AuditEvent). claims_mode ev.action) none log)

-- `stored == claimed`
abbrev pub is_claim : Option String → Value → Bool
is_claim none null = true
is_claim (some m) (text s) = str_eq m s
is_claim _ _ = false

-- `except (CrossAccountError, PostureMismatch, ReconciliationMismatch, CalendarCoverageError)`
abbrev pub reconciliation_fault : StartupError → Bool
reconciliation_fault (day_trade day_trade_blocked) = false
reconciliation_fault (day_trade (calendar_error calendar_coverage)) = true
reconciliation_fault (day_trade (calendar_error _)) = false
reconciliation_fault (day_trade _) = true
reconciliation_fault (reconciliation _) = true
reconciliation_fault _ = false

-- `except ModeTransitionError`, which a `KeyError` is not
abbrev pub mode_fault : StartupError → Bool
mode_fault (wrong_mode key_error) = false
mode_fault (wrong_mode _) = true
mode_fault _ = false

-- `except CalendarExpiryError`
abbrev pub expiry_fault : StartupError → Bool
expiry_fault (calendar calendar_expiry) = true
expiry_fault _ = false

abbrev row : String → String → String → Value → Value → Option String → ℕ → Entry
row action object_type object_id before after correlation_id now = record {
  actor = "system";
  action = action;
  object_type = object_type;
  object_id = object_id;
  before = before;
  after = after;
  correlation_id = correlation_id;
  timestamp = now;
}

-- `after` of a change of mode: with `paused_from` where the system enters PAUSED
abbrev mode_change_field : String → Option String → Value
mode_change_field mode none = object (field "mode" (text mode) end)
mode_change_field mode (some from) =
    object (field "mode" (text mode) (field "paused_from" (text from) end))

abbrev pub halt_row : Option String → String → ℕ → Option String → Entry
halt_row persisted_mode reason now correlation_id =
    row "startup_halted" "startup" "system" (mode_field persisted_mode)
      (object (field "reason" (text reason) end)) correlation_id now

abbrev warnings_of : Option CalendarWarning → List CalendarWarning
warnings_of none = []
warnings_of (some warning) = warning ∷ []

pub record StartupResult : Type 0 where
  pub mode : String
  pub warnings : List CalendarWarning
  pub reconciled_accounts : List String
  pub swept_approvals : List String
  pub audit_chain_length : ℕ

abbrev iso_or_null : Texts → Option ℕ → Value
iso_or_null texts none = null
iso_or_null texts (some t) = text (texts.iso_instant t)

-- `target_mode not in _ADAPTER_CONSTRUCTIBLE_MODES` for a mode that needs an adapter
abbrev pub unrunnable : String → Bool
unrunnable mode = exercises_calendar mode && not (str_eq mode "PAPER")

module _ (fl : Floats) (digest : Payload → String → String) (zone : Zone) (texts : Texts) where
  abbrev pub Startup : Type 0 → Type 0
  Startup A = Step (World fl) StartupError A

  abbrev pub audit_entry : Entry → Startup Unit
  audit_entry = audit_row fl digest zone texts

  abbrev pub write_mode : String → ℕ → Option String → Option String → Startup Unit
  write_mode mode now reason from =
      change (λ w. record w { mode_store = write w.mode_store mode now reason from })

  unfoldable pub catch_up : Option String → ℕ → Option String → Startup Unit
  catch_up stored now correlation_id w =
      let claimed = last_claimed_mode w.audit_log in
      if is_claim stored claimed
      then (w, ok tt)
      else audit_entry
          (row "mode_persisted_reconciled" "mode" "system" (object (field "mode" claimed end))
            (mode_field stored) correlation_id now)
          w

  -- `_reconcile_mode_persistence`
  unfoldable pub reconcile_mode_persistence : ℕ → Option String → Startup (Option String)
  reconcile_mode_persistence now correlation_id w = do
    let stored = current w.mode_store
    (catch_up stored now correlation_id >> return stored) w

  unfoldable pub enter_paused : Option String → Option String → ℕ → Option String → Startup Unit
  enter_paused persisted_mode reason now correlation_id = do
    write_mode "PAUSED" now reason (some (normalize_persisted persisted_mode))
    audit_entry (
        row "mode_transition" "mode" "system" (mode_field persisted_mode)
          (mode_change_field "PAUSED" (some (normalize_persisted persisted_mode))) correlation_id
          now)

  unfoldable pub pause_once : Option String → String → ℕ → Option String → Startup Unit
  pause_once persisted_mode reason now correlation_id =
      if is_paused persisted_mode
      then return tt
      else enter_paused persisted_mode (some reason) now correlation_id

  -- `_halt`
  unfoldable pub halt : Option String → String → ℕ → Option String → Startup Unit
  halt persisted_mode reason now correlation_id = do
    pause_once persisted_mode reason now correlation_id
    audit_entry (halt_row persisted_mode reason now correlation_id)

  -- a check that halts on the exceptions that its `except` names
  abbrev pub or_halt :
      {A : Type 0}
      → (StartupError → Bool)
      → Option String
      → ℕ
      → Option String
      → Startup A
      → Startup A
  or_halt caught persisted_mode now correlation_id =
      on_error caught (λ e. halt persisted_mode (texts.describe e) now correlation_id)

  unfoldable pub check_transition : Option String → String → Bool → Startup Unit
  check_transition persisted_mode target_mode confirmed w = (
    w,
    catch wrong_mode (
        assert_legal_startup persisted_mode target_mode confirmed
          (resumable w.mode_store persisted_mode)),
  )

  abbrev has_any : List AccountReconciliation → Bool
  has_any [] = false
  has_any (a ∷ as') = true

  -- the chain check: a broken chain pauses the system and writes nothing to the log
  unfoldable pub verify_chain : Option String → ℕ → Startup Unit
  verify_chain persisted_mode now w =
      if verify digest w.audit_log
      then (w, ok tt)
      else if is_paused persisted_mode
      then (w, err audit_chain_broken)
      else (
        record w {
          mode_store =
              write w.mode_store "PAUSED" now
                (some "audit hash chain failed verification at startup (§8.1)")
                (some (normalize_persisted persisted_mode));
        },
        err audit_chain_broken,
      )

  unfoldable pub audit_expired : Option String → ℕ → List (ApprovalToken fl) → Startup Unit
  audit_expired correlation_id now [] = return tt
  audit_expired correlation_id now (tok ∷ swept) =
      audit_entry (
        row "approval_expired" "approval_token" tok.token_id
          (object (field "expires_at" (text (texts.iso_instant tok.expires_at)) end))
          (object (field "swept_at" (iso_or_null texts tok.swept_at) end)) correlation_id now)
      >> audit_expired correlation_id now swept

  unfoldable pub sweep : ℕ → Startup (List (ApprovalToken fl))
  sweep now w =
      let (service, swept) = sweep_expired fl w.approval_service now in
      (record w { approval_service = service }, ok swept)

  unfoldable pub audit_warning : Option CalendarWarning → ℕ → Option String → Startup Unit
  audit_warning none now correlation_id = return tt
  audit_warning (some warning) now correlation_id = audit_entry (
      row "calendar_warning" "calendar" "market_calendar" null
        (object (field "warning" (text (texts.describe_warning warning)) end)) correlation_id now)

  -- the real transition, which a start in the same mode has not
  unfoldable pub transition : String → Option String → ℕ → Option String → Startup Unit
  transition target_mode persisted_mode now correlation_id =
      if same_text? (some target_mode) persisted_mode
      then return tt
      else (write_mode target_mode now none (recorded_from persisted_mode target_mode)
          >> audit_entry (
              row "mode_transition" "mode" "system" (mode_field persisted_mode)
                (mode_change_field target_mode (recorded_from persisted_mode target_mode))
                correlation_id now))

  unfoldable pub log_length : Startup ℕ
  log_length w = (w, ok (length w.audit_log))

  -- the last part of `run_startup`, from the transition on
  unfoldable pub last_part :
      String
      → Option String
      → ℕ
      → Option String
      → Option CalendarWarning
      → List String
      → List (ApprovalToken fl)
      → Startup StartupResult
  last_part target_mode persisted_mode now correlation_id calendar_warning reconciled swept = do
    transition target_mode persisted_mode now correlation_id
    audit_entry (
        row "startup_complete" "mode" "system" (mode_field persisted_mode)
          (mode_field (some target_mode)) correlation_id now)
    audit_chain_length ← log_length
    return record {
      mode = target_mode;
      warnings = warnings_of calendar_warning;
      reconciled_accounts = reconciled;
      swept_approvals = map (λ (tok : ApprovalToken fl). tok.token_id) swept;
      audit_chain_length = audit_chain_length;
    }

  -- `run_startup` after the check of the transition
  unfoldable pub checked_part :
      String
      → List AccountReconciliation
      → Option String
      → ℕ
      → Option String
      → Startup StartupResult
  checked_part target_mode accounts persisted_mode now correlation_id = do
    let today = session_for_instant zone now
    or_halt (λ _. true) persisted_mode now correlation_id
        (lift (
          raise_if (has_any accounts && not (exercises_calendar target_mode))
            accounts_not_expected))
    calendar_warning ←
        or_halt expiry_fault persisted_mode now correlation_id
          (lift (catch calendar (assert_calendar_coverage_at_startup target_mode today)))
    reconciled ←
        or_halt reconciliation_fault persisted_mode now correlation_id
          (reconcile_accounts_or_raise fl digest zone texts accounts now correlation_id)
    verify_chain persisted_mode now
    swept ← sweep now
    audit_expired correlation_id now swept
    audit_warning calendar_warning now correlation_id
    last_part target_mode persisted_mode now correlation_id calendar_warning reconciled swept

  unfoldable pub run_startup :
      String → Bool → List AccountReconciliation → ℕ → Option String → Startup StartupResult
  run_startup target_mode confirmed accounts now correlation_id = do
    persisted_mode ← reconcile_mode_persistence now correlation_id
    or_halt mode_fault persisted_mode now correlation_id
        (check_transition persisted_mode target_mode confirmed)
    checked_part target_mode accounts persisted_mode now correlation_id

  unfoldable pub advance : String → Option String → ℕ → Startup Unit
  advance target_mode persisted now =
      if same_text? (some target_mode) persisted
      then return tt
      else (write_mode target_mode now (some "--advance-mode-to operator command")
            (recorded_from persisted target_mode)
          >> audit_entry
              (record (row "mode_transition" "mode" "system" (mode_field persisted)
                (mode_change_field target_mode (recorded_from persisted target_mode)) none now) {
                  actor = "operator";
                }))

  -- `_run_advance_mode`; it returns 1 where the model has an error
  unfoldable pub run_advance_mode : String → Bool → ℕ → Startup Unit
  run_advance_mode target_mode confirmed now = do
    persisted ← reconcile_mode_persistence now none
    check_transition persisted target_mode confirmed
    lift (raise_if (unrunnable target_mode) no_adapter)
    advance target_mode persisted now
