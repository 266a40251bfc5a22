-- ===== src/Quarantine.antt =====
-- agent/execution_quarantine.py, with the `Execution` of agent/broker/base.py: the executions that
-- could not become fills, and the one permanent decision about each. A call gives the store after
-- it, or raises and changes nothing. A row is the record that it encodes, without its JSON text; a row
-- of an unknown kind cannot be written down here.
pub mod Decisions
pub mod Replay
pub mod Tests
use investmentagent.Prelude.{
  ℕ, String, Bool, true, false, not, ◌&&◌, ◌||◌, Option, none, some, List, [], ◌∷◌, ◌++◌, map,
  filter, str_eq, ◌==◌, is_some, length, if◌then◌else◌, Result, ok, err, ◌>>=◌, ◌>>◌, raise_if,
}
use investmentagent.Prelude.Text.{upper, same_text?}
use investmentagent.Prelude.Int.{ℤ}
use investmentagent.Prelude.Dict.{Dict, get, put, contains}
use investmentagent.Accounts.{CrossAccount}

pub record Execution : Type 0 where
  pub execution_id : String
  pub account_id : String
  pub client_order_id : String
  pub symbol : String
  pub side : String
  pub qty : ℤ
  pub price : ℤ
  pub cum_qty : ℤ
  pub filled_at : ℕ

pub record QuarantinedExecution : Type 0 where
  pub execution_id : String
  pub account_id : String
  pub client_order_id : String
  pub symbol : String
  pub side : String
  pub qty : ℤ
  pub price : ℤ
  pub filled_at : ℕ
  pub reason : String
  pub quarantined_at : ℕ

pub record ExecutionResolution : Type 0 where
  pub execution_id : String
  pub account_id : String
  pub decision : String
  pub decided_by : String
  pub decided_at : ℕ
  pub lot_id : Option String
  pub holding_policy_version : Option String
  pub notes : Option String

abbrev pub same_resolution : ExecutionResolution → ExecutionResolution → Bool
same_resolution a b =
    str_eq a.execution_id b.execution_id
    && str_eq a.account_id b.account_id
    && str_eq a.decision b.decision
    && str_eq a.decided_by b.decided_by
    && a.decided_at == b.decided_at
    && same_text? a.lot_id b.lot_id
    && same_text? a.holding_policy_version b.holding_policy_version
    && same_text? a.notes b.notes

pub data QuarantineError : Type 0 where
  never_quarantined bad_fields already_resolved unknown_decision unknown_kind : QuarantineError
  cross_account : CrossAccount → QuarantineError

-- the rows of the file, by their kind
pub data Row : Type 0 where
  quarantined : QuarantinedExecution → Row
  resolution : ExecutionResolution → Row
  other_kind : String → Row

pub record QuarantineStore : Type 0 where
  pub account_id : String
  pub held : Dict QuarantinedExecution
  pub resolutions : Dict ExecutionResolution
  pub rows : List Row

-- the store of a path where there is no file yet
abbrev pub empty : String → QuarantineStore
empty account_id = record { account_id = account_id; held = []; resolutions = []; rows = [] }

abbrev pub own_account : QuarantineStore → String → Result QuarantineError Unit
own_account s account_id =
    raise_if (not (str_eq account_id s.account_id))
      (cross_account (record { expected = s.account_id; got = account_id }))

abbrev pub record_of : Execution → String → ℕ → QuarantinedExecution
record_of e reason at = record {
  execution_id = e.execution_id;
  account_id = e.account_id;
  client_order_id = e.client_order_id;
  symbol = e.symbol;
  side = e.side;
  qty = e.qty;
  price = e.price;
  filled_at = e.filled_at;
  reason = reason;
  quarantined_at = at;
}

abbrev pub hold : QuarantineStore → QuarantinedExecution → QuarantineStore
hold s q = record s { held = put s.held q.execution_id q; rows = s.rows ++ quarantined q ∷ [] }

-- `quarantine`: an execution that is known already keeps its first record
unfoldable pub quarantine :
    QuarantineStore → Execution → String → ℕ → Result QuarantineError QuarantineStore
quarantine s e reason at = do
  own_account s e.account_id
  ok (if contains s.held e.execution_id then s else hold s (record_of e reason at))

abbrev found : Option QuarantinedExecution → Result QuarantineError QuarantinedExecution
found none = err never_quarantined
found (some q) = ok q

-- `_require_quarantined`
abbrev pub require_quarantined :
    QuarantineStore → String → Result QuarantineError QuarantinedExecution
require_quarantined s id = found (get s.held id)

-- a purchase wants the holding policy of its new lot, anything else the lot that it reduces
abbrev pub fits : String → Option String → Option String → Bool
fits side lot_id holding_policy_version =
    if str_eq (upper side) "BUY"
    then is_some holding_policy_version && not (is_some lot_id)
    else is_some lot_id && not (is_some holding_policy_version)

abbrev pub decide_once :
    QuarantineStore
    → ExecutionResolution
    → Option ExecutionResolution
    → Result QuarantineError QuarantineStore
decide_once s r (some existing) = if same_resolution existing r then ok s else err already_resolved
decide_once s r none = ok (record s {
  resolutions = put s.resolutions r.execution_id r;
  rows = s.rows ++ resolution r ∷ [];
})

-- `_record_resolution`
abbrev pub record_resolution :
    QuarantineStore → ExecutionResolution → Result QuarantineError QuarantineStore
record_resolution s r = decide_once s r (get s.resolutions r.execution_id)

-- what an operator decides
pub record Decision : Type 0 where
  pub decided_by : String
  pub decided_at : ℕ
  pub notes : Option String

abbrev pub resolution_of :
    String
    → QuarantinedExecution
    → String
    → Decision
    → Option String
    → Option String
    → ExecutionResolution
resolution_of id q decision d lot_id holding_policy_version = record {
  execution_id = id;
  account_id = q.account_id;
  decision = decision;
  decided_by = d.decided_by;
  decided_at = d.decided_at;
  lot_id = lot_id;
  holding_policy_version = holding_policy_version;
  notes = d.notes;
}

unfoldable pub admit :
    QuarantineStore
    → String
    → Decision
    → Option String
    → Option String
    → Result QuarantineError QuarantineStore
admit s id d lot_id holding_policy_version = do
  q ← require_quarantined s id
  raise_if (not (fits q.side lot_id holding_policy_version)) bad_fields
  record_resolution s (resolution_of id q "ADMITTED" d lot_id holding_policy_version)

unfoldable pub reject : QuarantineStore → String → Decision → Result QuarantineError QuarantineStore
reject s id d = do
  q ← require_quarantined s id
  record_resolution s (resolution_of id q "REJECTED" d none none)

unfoldable pub resolution_for : QuarantineStore → String → Option ExecutionResolution
resolution_for s id = get s.resolutions id

abbrev decision_or_pending : Option ExecutionResolution → String
decision_or_pending none = "PENDING"
decision_or_pending (some r) = r.decision

unfoldable pub status : QuarantineStore → String → Option String
status s id = if contains s.held id then some (decision_or_pending (get s.resolutions id)) else none

abbrev is_unresolved : QuarantineStore → String × QuarantinedExecution → Bool
is_unresolved s (id, q) = not (contains s.resolutions id)

unfoldable pub pending : QuarantineStore → List QuarantinedExecution
pending s = map (λ (e : String × QuarantinedExecution). e.1) (filter (is_unresolved s) s.held)

abbrev pub pending_count : QuarantineStore → ℕ
pending_count s = length (pending s)

abbrev apply_resolution :
    QuarantineStore
    → ExecutionResolution
    → Option ExecutionResolution
    → Result QuarantineError QuarantineStore
apply_resolution s r (some existing) =
    if same_resolution existing r then ok s else err already_resolved
apply_resolution s r none = ok (record s { resolutions = put s.resolutions r.execution_id r })

-- `_replay_resolution`
abbrev replay_resolution :
    QuarantineStore → ExecutionResolution → Result QuarantineError QuarantineStore
replay_resolution s r = do
  q ← require_quarantined s r.execution_id
  raise_if (str_eq r.decision "ADMITTED" && not (fits q.side r.lot_id r.holding_policy_version))
      bad_fields
  apply_resolution s r (get s.resolutions r.execution_id)

abbrev is_decision : String → Bool
is_decision d = str_eq d "ADMITTED" || str_eq d "REJECTED"

-- one turn of the loop of `_load_into`, which writes nothing
unfoldable pub load_row : QuarantineStore → Row → Result QuarantineError QuarantineStore
load_row s (quarantined q) = do
  own_account s q.account_id
  ok (if contains s.held q.execution_id then s else record s { held = put s.held q.execution_id q })
load_row s (resolution r) = do
  raise_if (not (is_decision r.decision)) unknown_decision
  replay_resolution s r
load_row s (other_kind kind) = err unknown_kind

unfoldable pub load_rows : QuarantineStore → List Row → Result QuarantineError QuarantineStore
load_rows s [] = ok s
load_rows s (row ∷ rows) = load_row s row >>= λ s'. load_rows s' rows
