-- ===== src/Holding.antt =====
-- agent/holding.py: versioned holding policies, lots, and what of them may be sold when. Instants
-- and durations are counts of microseconds (a holding period is not negative: `parse_duration`
-- makes no other), quantities are counts of 10⁻⁹ shares. A lot's cost basis, which nothing here
-- reads, is left out.
pub mod Registry
pub mod Sellable
pub mod Exit
mod Tests
use investmentagent.Prelude.{
  ℕ, ◌+◌, ◌-◌, String, Bool, true, false, not, ◌&&◌, Option, none, some, List, [], ◌∷◌, ◌==◌,
  str_eq, ltb, leb, filter, sum_by, if◌then◌else◌, Result, ok, err, ◌>>=◌, ◌>>◌, raise_if, catch,
}
use investmentagent.Prelude.Dict.{Dict, get, put}
use investmentagent.LotSelection.{LotSelectionError, LotSelectionPolicy, disposal_order}

pub data ExitCategory : Type 0 where
  stop_loss adverse_disclosure distress_event portfolio_breach reconciliation_fault : ExitCategory
  manual_instruction : ExitCategory

-- `category in EVIDENCE_EXEMPT`
abbrev pub evidence_exempt : ExitCategory → Bool
evidence_exempt manual_instruction = true
evidence_exempt _ = false

pub data HoldingError : Type 0 where
  -- `HoldingViolation`, by the check that raises it
  already_registered unknown_version stored_differs : HoldingError
  already_closed unsettled held : HoldingError
  evidence_missing already_eligible : HoldingError
  -- raised by `disposal_order` and passed on
  lot_selection : LotSelectionError → HoldingError
  -- raised by `parse_duration`
  bad_duration : HoldingError

pub record HoldingPolicy : Type 0 where
  pub version : String
  pub minimum_holding_period : ℕ
  pub cooldown_period : ℕ
  pub effective_at : Option ℕ

abbrev same_instant : Option ℕ → Option ℕ → Bool
same_instant none none = true
same_instant (some a) (some b) = a == b
same_instant _ _ = false

-- `==` of the dataclass
abbrev pub same_policy : HoldingPolicy → HoldingPolicy → Bool
same_policy p q =
    str_eq p.version q.version
    && p.minimum_holding_period == q.minimum_holding_period
    && p.cooldown_period == q.cooldown_period
    && same_instant p.effective_at q.effective_at

abbrev pub Registry : Type 0
Registry = Dict HoldingPolicy

abbrev register_over :
    Registry → HoldingPolicy → Option HoldingPolicy → Result HoldingError Registry
register_over r p none = ok (put r p.version p)
register_over r p (some existing) =
    if not (same_policy existing p) then err already_registered else ok (put r p.version p)

-- `HoldingPolicyRegistry.register`
unfoldable pub register : Registry → HoldingPolicy → Result HoldingError Registry
register r p = register_over r p (get r p.version)

abbrev pub found : Option HoldingPolicy → Result HoldingError HoldingPolicy
found none = err unknown_version
found (some p) = ok p

-- `HoldingPolicyRegistry.get`
unfoldable pub get_policy : Registry → String → Result HoldingError HoldingPolicy
get_policy r version = found (get r version)

pub record Lot : Type 0 where
  pub lot_id : String
  pub account_id : String
  pub symbol : String
  pub qty : ℕ
  pub opened_at : ℕ
  pub minimum_hold : ℕ
  pub holding_policy_version : String
  pub settles_at : Option ℕ
  pub closed_at : Option ℕ

-- `HoldingPolicyRegistry.make_lot`
unfoldable pub make_lot :
    Registry → String → String → String → ℕ → ℕ → String → Option ℕ → Result HoldingError Lot
make_lot r lot_id account_id symbol qty opened_at policy_version settles_at = do
  policy ← get_policy r policy_version
  ok record {
    lot_id = lot_id;
    account_id = account_id;
    symbol = symbol;
    qty = qty;
    opened_at = opened_at;
    minimum_hold = policy.minimum_holding_period;
    holding_policy_version = policy.version;
    settles_at = settles_at;
    closed_at = none;
  }

-- a stored holding period: already a `timedelta`, or a text to be parsed
pub data StoredPeriod : Type 0 where
  duration : ℕ → StoredPeriod
  written : String → StoredPeriod

pub record LotRow : Type 0 where
  pub lot_id : String
  pub account_id : String
  pub symbol : String
  pub qty : ℕ
  pub opened_at : ℕ
  pub holding_policy_version : String
  pub minimum_holding_period : Option StoredPeriod
  pub settles_at : Option ℕ
  pub closed_at : Option ℕ

module _ (parse_duration : String → Option ℕ) where
  abbrev parsed : Option ℕ → Result HoldingError ℕ
  parsed none = err bad_duration
  parsed (some d) = ok d

  abbrev stored_period : StoredPeriod → Result HoldingError ℕ
  stored_period (duration d) = ok d
  stored_period (written s) = parsed (parse_duration s)

  abbrev agrees_with : HoldingPolicy → Option StoredPeriod → Result HoldingError Unit
  agrees_with policy none = ok tt
  agrees_with policy (some stored) = do
    d ← stored_period stored
    raise_if (not (d == policy.minimum_holding_period)) stored_differs

  -- `HoldingPolicyRegistry.lot_from_row`
  unfoldable pub lot_from_row : Registry → LotRow → Result HoldingError Lot
  lot_from_row r row = do
    policy ← get_policy r row.holding_policy_version
    agrees_with policy row.minimum_holding_period
    ok record {
      lot_id = row.lot_id;
      account_id = row.account_id;
      symbol = row.symbol;
      qty = row.qty;
      opened_at = row.opened_at;
      minimum_hold = policy.minimum_holding_period;
      holding_policy_version = row.holding_policy_version;
      settles_at = row.settles_at;
      closed_at = row.closed_at;
    }

abbrev pub earliest_normal_exit_at : Lot → ℕ
earliest_normal_exit_at l = l.opened_at + l.minimum_hold

abbrev reached : Option ℕ → ℕ → Bool
reached none now = true
reached (some t) now = leb t now

abbrev pub is_settled : Lot → ℕ → Bool
is_settled l now = reached l.settles_at now

abbrev pub is_hold_eligible : Lot → ℕ → Bool
is_hold_eligible l now = leb (earliest_normal_exit_at l) now

abbrev absent : Option ℕ → Bool
absent none = true
absent (some t) = false

abbrev pub is_open : Lot → Bool
is_open l = absent l.closed_at

abbrev pub remaining_hold : Lot → ℕ → ℕ
remaining_hold l now = earliest_normal_exit_at l - now

abbrev for_symbol : Option String → Lot → Bool
for_symbol none l = true
for_symbol (some s) l = str_eq l.symbol s

unfoldable pub open_lots : List Lot → String → Option String → List Lot
open_lots lots account_id symbol =
    filter (λ l. is_open l && str_eq l.account_id account_id && for_symbol symbol l) lots

-- the test of the loop of `sellable_qty`, and the loop
abbrev pub eligible : ℕ → Lot → Bool
eligible now l = is_hold_eligible l now && is_settled l now

unfoldable pub leading_qty : ℕ → List Lot → ℕ
leading_qty now [] = 0
leading_qty now (l ∷ ls) =
    let rest = leading_qty now ls in if not (eligible now l) then 0 else l.qty + rest

unfoldable pub sellable_qty :
    LotSelectionPolicy → List Lot → String → String → ℕ → Result HoldingError ℕ
sellable_qty policy lots account_id symbol now = do
  ordered ← catch lot_selection (
      disposal_order (λ (l : Lot). l.lot_id) (λ (l : Lot). l.opened_at) policy
        (open_lots lots account_id (some symbol)))
  ok (leading_qty now ordered)

unfoldable pub blocked_qty :
    LotSelectionPolicy → List Lot → String → String → ℕ → Result HoldingError ℕ
blocked_qty policy lots account_id symbol now = do
  let total_open = sum_by (λ (l : Lot). l.qty) (open_lots lots account_id (some symbol))
  sellable ← sellable_qty policy lots account_id symbol now
  ok (total_open - sellable)

abbrev pub in_cooldown_since : Registry → ℕ → Lot → Option ℕ → Result HoldingError Bool
in_cooldown_since r now lot none = ok false
in_cooldown_since r now lot (some closed_at) = do
  policy ← get_policy r lot.holding_policy_version
  ok (ltb now (closed_at + policy.cooldown_period))

-- `symbols_in_cooldown`: `now - closed_at < cooldown_period` with both sides raised by `closed_at`
unfoldable pub symbols_in_cooldown : List Lot → Registry → ℕ → Result HoldingError (List String)
symbols_in_cooldown [] r now = ok []
symbols_in_cooldown (lot ∷ lots) r now = do
  cooling ← in_cooldown_since r now lot lot.closed_at
  symbols ← symbols_in_cooldown lots r now
  ok (if cooling then lot.symbol ∷ symbols else symbols)

unfoldable pub check_normal_exit : Lot → ℕ → Result HoldingError Unit
check_normal_exit lot now = do
  raise_if (not (is_open lot)) already_closed
  raise_if (not (is_settled lot now)) unsettled
  raise_if (not (is_hold_eligible lot now)) held

pub record EarlyExitRequest : Type 0 where
  pub request_id : String
  pub lot_id : String
  pub category : ExitCategory
  pub evidence_fact_ref : Option String
  pub remaining_hold : ℕ
  pub requested_at : ℕ

-- `not evidence_fact_ref`: absent or empty
abbrev pub no_evidence : Option String → Bool
no_evidence none = true
no_evidence (some ref) = str_eq ref ""

unfoldable pub request_early_exit :
    Lot → String → ExitCategory → Option String → ℕ → Result HoldingError EarlyExitRequest
request_early_exit lot request_id category evidence_fact_ref now = do
  raise_if (not (evidence_exempt category) && no_evidence evidence_fact_ref) evidence_missing
  raise_if (is_hold_eligible lot now && is_settled lot now) already_eligible
  ok record {
    request_id = request_id;
    lot_id = lot.lot_id;
    category = category;
    evidence_fact_ref = evidence_fact_ref;
    remaining_hold = remaining_hold lot now;
    requested_at = now;
  }
