-- ===== src/CashQuarantine.antt =====
-- agent/cash_event_quarantine.py, and `AccountActivity` of agent/broker/base.py: cash movements that
-- wait for an operator, who confirms or rejects them. A reason, an f-string, is a text that the caller
-- gives. A row is the record that it encodes, without its JSON text; a row of an unknown kind cannot be
-- written down here.
use investmentagent.Prelude.{
  ℕ, String, Bool, not, ◌&&◌, ◌||◌, Option, none, some, List, [], ◌∷◌, ◌++◌, map, filter, str_eq,
  leb, ◌==◌, if◌then◌else◌, Result, ok, err, ◌>>=◌, ◌>>◌, raise_if,
}
use investmentagent.Prelude.Text.{same_text?}
use investmentagent.Prelude.Int.{ℤ}
use investmentagent.Prelude.Dict.{Dict, get, put, contains}
use investmentagent.Accounts.{CrossAccount}

pub record AccountActivity : Type 0 where
  pub activity_id : String
  pub account_id : String
  pub activity_type : String
  pub activity_sub_type : Option String
  pub net_amount : ℤ
  pub date : ℕ
  pub created_at : Option ℕ
  pub symbol : Option String
  pub description : String

-- the activity as it was reported, why it was held and when
pub record QuarantinedCashEvent : Type 0 where
  pub activity : AccountActivity
  pub reason : String
  pub quarantined_at : ℕ

pub record CashEventResolution : Type 0 where
  pub activity_id : String
  pub account_id : String
  pub decision : String
  pub decided_by : String
  pub decided_at : ℕ
  pub notes : Option String

abbrev pub same_resolution : CashEventResolution → CashEventResolution → Bool
same_resolution r s =
    str_eq r.activity_id s.activity_id
    && str_eq r.account_id s.account_id
    && str_eq r.decision s.decision
    && str_eq r.decided_by s.decided_by
    && (r.decided_at == s.decided_at)
    && same_text? r.notes s.notes

pub data CashQuarantineError : Type 0 where
  cross_account : CrossAccount → CashQuarantineError
  never_quarantined already_resolved unknown_decision : CashQuarantineError

-- the rows of the file, by their kind
pub data Row : Type 0 where
  quarantined : QuarantinedCashEvent → Row
  resolution : CashEventResolution → Row

pub record CashQuarantineStore : Type 0 where
  pub account_id : String
  pub held : Dict QuarantinedCashEvent
  pub resolutions : Dict CashEventResolution
  pub rows : List Row

-- the store of a path where there is no file yet
abbrev pub empty : String → CashQuarantineStore
empty account_id = record { account_id = account_id; held = []; resolutions = []; rows = [] }

abbrev pub own_account : CashQuarantineStore → AccountActivity → Result CashQuarantineError Unit
own_account s act =
    raise_if (not (str_eq act.account_id s.account_id))
      (cross_account (record { expected = s.account_id; got = act.account_id }))

-- what is known already is kept as it is
abbrev pub enter : CashQuarantineStore → QuarantinedCashEvent → List Row → CashQuarantineStore
enter s r rows =
    if contains s.held r.activity.activity_id
    then s
    else record s { held = put s.held r.activity.activity_id r; rows = s.rows ++ rows }

unfoldable pub quarantine :
    CashQuarantineStore
    → AccountActivity
    → String
    → ℕ
    → Result CashQuarantineError CashQuarantineStore
quarantine s act reason at = do
  own_account s act
  let r : QuarantinedCashEvent = record { activity = act; reason = reason; quarantined_at = at }
  ok (enter s r (quarantined r ∷ []))

abbrev found : Option QuarantinedCashEvent → Result CashQuarantineError QuarantinedCashEvent
found none = err never_quarantined
found (some r) = ok r

-- `_require_quarantined`
abbrev pub require_quarantined :
    CashQuarantineStore → String → Result CashQuarantineError QuarantinedCashEvent
require_quarantined s id = found (get s.held id)

abbrev decide_once :
    CashQuarantineStore
    → CashEventResolution
    → List Row
    → Option CashEventResolution
    → Result CashQuarantineError CashQuarantineStore
decide_once s r rows none =
    ok (record s { resolutions = put s.resolutions r.activity_id r; rows = s.rows ++ rows })
decide_once s r rows (some old) = raise_if (not (same_resolution old r)) already_resolved >> ok s

-- `_record_resolution`
abbrev pub record_resolution :
    CashQuarantineStore → CashEventResolution → Result CashQuarantineError CashQuarantineStore
record_resolution s r = decide_once s r (resolution r ∷ []) (get s.resolutions r.activity_id)

-- who decided, when, and the notes
pub record Decision : Type 0 where
  pub decided_by : String
  pub decided_at : ℕ
  pub notes : Option String

abbrev resolve :
    CashQuarantineStore
    → String
    → String
    → Decision
    → Result CashQuarantineError CashQuarantineStore
resolve s id decision d = do
  r ← require_quarantined s id
  record_resolution s (record {
    activity_id = id;
    account_id = r.activity.account_id;
    decision = decision;
    decided_by = d.decided_by;
    decided_at = d.decided_at;
    notes = d.notes;
  })

unfoldable pub admit :
    CashQuarantineStore → String → Decision → Result CashQuarantineError CashQuarantineStore
admit s id d = resolve s id "ADMITTED" d

unfoldable pub reject :
    CashQuarantineStore → String → Decision → Result CashQuarantineError CashQuarantineStore
reject s id d = resolve s id "REJECTED" d

unfoldable pub resolution_for : CashQuarantineStore → String → Option CashEventResolution
resolution_for s id = get s.resolutions id

abbrev decision_or_pending : Option CashEventResolution → String
decision_or_pending none = "PENDING"
decision_or_pending (some r) = r.decision

unfoldable pub status : CashQuarantineStore → String → Option String
status s id = if contains s.held id then some (decision_or_pending (get s.resolutions id)) else none

unfoldable pub pending : CashQuarantineStore → List QuarantinedCashEvent
pending s =
    map (λ (e : String × QuarantinedCashEvent). e.1)
      (filter (λ (e : String × QuarantinedCashEvent). not (contains s.resolutions e.0)) s.held)

-- one turn of the loop of `_load_into`; it writes no row, and the file has the rows
unfoldable pub load_row : CashQuarantineStore → Row → Result CashQuarantineError CashQuarantineStore
load_row s (quarantined r) = do own_account s r.activity; ok (enter s r [])
load_row s (resolution r) = do
  raise_if (not (str_eq r.decision "ADMITTED" || str_eq r.decision "REJECTED")) unknown_decision
  known ← require_quarantined s r.activity_id
  decide_once s r [] (get s.resolutions r.activity_id)

unfoldable pub load_rows :
    CashQuarantineStore → List Row → Result CashQuarantineError CashQuarantineStore
load_rows s [] = ok s
load_rows s (row ∷ rows) = load_row s row >>= λ s'. load_rows s' rows

-- why an admission is refused
pub data Refusal : Type 0 where
  no_created_at before_baseline not_a_debit above_ceiling : Refusal

-- `refuse_admission_reason`
unfoldable pub refuse_admission_reason : Option ℕ → Option ℕ → Option Refusal
refuse_admission_reason none established_at = some no_created_at
refuse_admission_reason (some created_at) none = none
refuse_admission_reason (some created_at) (some established_at) =
    if leb created_at established_at then some before_baseline else none
