-- ===== src/Requests.antt =====
-- agent/approval_request_store.py: the store of approval requests. A request is created and then
-- decided or invalidated, and the minting and the spending of its token are recorded. A call gives
-- the store after it, or raises and changes nothing. The file is the list of its rows; every call
-- persists its row, as in the program. A token's snapshot is the token: the ISO texts of its
-- instants in JSON are not modelled, nor is the rounding of the float in `decision_elapsed_ms`.
pub mod Lifecycle
pub mod States
pub mod Replay
pub mod Cap
pub mod Tests
use investmentagent.Prelude.{
  ℕ, ◌+◌, ◌-◌, ◌/◌, String, Bool, true, false, not, ◌&&◌, ◌||◌, Option, none, some, List, [], ◌∷◌,
  ◌++◌, map, str_eq, leb, filter, length, is_some, if◌then◌else◌, ◌==◌, Result, ok, err, ◌>>=◌,
  ◌>>◌, raise_if,
}
use investmentagent.Prelude.Text.{same_text?}
use investmentagent.Prelude.Int.{ℤ, sub_ℕ}
use investmentagent.Prelude.Dict.{Dict, get, put, contains}
use investmentagent.Prelude.Floats.{Floats}
use investmentagent.Audit.{Value}
use investmentagent.MarketCalendar.{Zone, session_for_instant}
use investmentagent.Approval.{ApprovalToken, ApprovalService, token_for_request}

pub data RequestError : Type 0 where
  already_exists unknown_request unknown_decision already_decided was_invalidated not_approved
        already_minted never_minted :
      RequestError

-- the kinds of rows of the file
pub data Event : Type 0 where
  created decided token_minted token_consumed invalidated : Event

module _ (fl : Floats) where
  open fl use {Float, add, literal}

  -- the keys of a `proposal_snapshot` that the program reads; `legs` is the length of that list
  pub record Proposal : Type 0 where
    pub symbol : String
    pub side : String
    pub authorized_qty : Float
    pub order_type : String
    pub time_in_force : String
    pub limit_price : Option Float
    pub lot_id : Option String
    pub legs : Option ℕ

  pub record ApprovalRequest : Type 0 where
    pub request_id : String
    pub run_id : String
    pub proposal_snapshot : Proposal
    pub risk_result : Value
    pub price_at_analysis : Float
    pub price_band_low : Float
    pub price_band_high : Float
    pub earmark : Float
    pub shown_at : ℕ
    pub expires_at : ℕ
    pub decision : Option String
    pub decided_by : Option String
    pub decided_at : Option ℕ
    pub decision_elapsed_ms : Option ℤ
    pub invalidated_reason : Option String
    pub token_snapshot : Option (ApprovalToken fl)

  pub record Row : Type 0 where
    pub event : Event
    pub account_id : String
    pub request : ApprovalRequest

  pub record RequestStore : Type 0 where
    pub rows : List Row
    pub current : Dict ApprovalRequest
    pub account_of : Dict String
    pub decided_dates : List ℕ

  -- the store of a path where there is no file yet
  abbrev pub empty : RequestStore
  empty = record { rows = []; current = []; account_of = []; decided_dates = [] }

  abbrev required : Option ApprovalRequest → Result RequestError ApprovalRequest
  required none = err unknown_request
  required (some r) = ok r

  -- `_require`
  abbrev pub require : RequestStore → String → Result RequestError ApprovalRequest
  require s id = required (get s.current id)

  -- the keyword arguments of `create` besides the account, the instant and the id
  pub record Draft : Type 0 where
    pub run_id : String
    pub proposal_snapshot : Proposal
    pub risk_result : Value
    pub price_at_analysis : Float
    pub price_band_low : Float
    pub price_band_high : Float
    pub expiration : ℕ
    pub earmark : Float

  abbrev pub request_of : Draft → String → ℕ → ApprovalRequest
  request_of d id now = record {
    request_id = id;
    run_id = d.run_id;
    proposal_snapshot = d.proposal_snapshot;
    risk_result = d.risk_result;
    price_at_analysis = d.price_at_analysis;
    price_band_low = d.price_band_low;
    price_band_high = d.price_band_high;
    earmark = d.earmark;
    shown_at = now;
    expires_at = now + d.expiration;
    decision = none;
    decided_by = none;
    decided_at = none;
    decision_elapsed_ms = none;
    invalidated_reason = none;
    token_snapshot = none;
  }

  -- `create`; `id` is the caller's or the generated one
  unfoldable pub create :
      RequestStore → String → Draft → ℕ → String → Result RequestError RequestStore
  create s account_id d now id = do
    raise_if (contains s.current id) already_exists
    let r = request_of d id now
    ok record {
      rows = s.rows ++ record { event = created; account_id = account_id; request = r } ∷ [];
      current = put s.current id r;
      account_of = put s.account_of id account_id;
      decided_dates = s.decided_dates;
    }

  abbrev pub account_text : Option String → String
  account_text none = ""
  account_text (some a) = a

  -- the new state of a request in memory, and its row; `account_of` has every request of the store
  abbrev pub replaced : RequestStore → Event → String → ApprovalRequest → RequestStore
  replaced s e id r = record s {
    rows =
        s.rows
        ++ record { event = e; account_id = account_text (get s.account_of id); request = r } ∷ [];
    current = put s.current id r;
  }

  abbrev pub is_decision : String → Bool
  is_decision d = str_eq d "APPROVED" || str_eq d "REJECTED"

  -- `int((now - shown_at).total_seconds() * 1000)`, truncated towards zero
  abbrev pub elapsed_ms : ℕ → ℕ → ℤ
  elapsed_ms shown_at now = sub_ℕ ((now - shown_at) / 1000) ((shown_at - now) / 1000)

  abbrev pub with_decision : ApprovalRequest → String → ℕ → String → ApprovalRequest
  with_decision r decision now decided_by = record r {
    decision = some decision;
    decided_by = some decided_by;
    decided_at = some now;
    decision_elapsed_ms = some (elapsed_ms r.shown_at now);
  }

  module _ (zone : Zone) where
    unfoldable pub decide :
        RequestStore → String → String → ℕ → String → Result RequestError RequestStore
    decide s id decision now decided_by = do
      raise_if (not (is_decision decision)) unknown_decision
      r ← require s id
      raise_if (is_some r.decision) already_decided
      raise_if (is_some r.invalidated_reason) was_invalidated
      let s' = replaced s decided id (with_decision r decision now decided_by)
      ok (record s' { decided_dates = s.decided_dates ++ session_for_instant zone now ∷ [] })

  abbrev pub is_approved : ApprovalRequest → Bool
  is_approved r = same_text? r.decision (some "APPROVED")

  unfoldable pub record_token_minted :
      RequestStore → String → ApprovalToken fl → Result RequestError RequestStore
  record_token_minted s id tok = do
    r ← require s id
    raise_if (not (is_approved r)) not_approved
    raise_if (is_some r.token_snapshot) already_minted
    ok (replaced s token_minted id (record r { token_snapshot = some tok }))

  unfoldable pub record_token_consumed :
      RequestStore → String → ApprovalToken fl → Result RequestError RequestStore
  record_token_consumed s id tok = do
    r ← require s id
    raise_if (not (is_some r.token_snapshot)) never_minted
    ok (replaced s token_consumed id (record r { token_snapshot = some tok }))

  -- `invalidate`; a request that is invalidated already keeps its reason and has no second row
  unfoldable pub invalidate : RequestStore → String → String → Result RequestError RequestStore
  invalidate s id reason = do
    r ← require s id
    raise_if (is_some r.decision) already_decided
    ok (
        if is_some r.invalidated_reason
        then s
        else replaced s invalidated id (record r { invalidated_reason = some reason }))

  abbrev pub in_account : RequestStore → Option String → String → Bool
  in_account s none id = true
  in_account s (some a) id = same_text? (get s.account_of id) (some a)

  abbrev pub expired_by : Option ℕ → ApprovalRequest → Bool
  expired_by none r = false
  expired_by (some now) r = leb r.expires_at now

  abbrev pub is_pending : RequestStore → Option String → Option ℕ → String × ApprovalRequest → Bool
  is_pending s account_id now (id, r) =
      not (is_some r.decision || is_some r.invalidated_reason)
      && not (expired_by now r)
      && in_account s account_id id

  -- `pending`
  unfoldable pub pending : RequestStore → Option String → Option ℕ → List ApprovalRequest
  pending s account_id now =
      map (λ (e : String × ApprovalRequest). e.1) (filter (is_pending s account_id now) s.current)

  unfoldable pub count_decided_on : RequestStore → ℕ → ℕ
  count_decided_on s day = length (filter (λ d. d == day) s.decided_dates)

  abbrev pub add_earmarks : Float → List ApprovalRequest → Float
  add_earmarks total [] = total
  add_earmarks total (r ∷ rs) = add_earmarks (add total r.earmark) rs

  -- a token that can still be spent
  abbrev pub is_live : ℕ → Option (ApprovalToken fl) → Bool
  is_live now none = false
  is_live now (some tok) =
      not (is_some tok.consumed_at || is_some tok.swept_at) && not (leb tok.expires_at now)

  abbrev pub holds_earmark :
      RequestStore → String → ℕ → ApprovalService fl → String × ApprovalRequest → Bool
  holds_earmark s account_id now service (id, r) =
      in_account s (some account_id) id
      && is_approved r
      && is_live now (token_for_request fl service id)

  abbrev pub add_handed_off :
      RequestStore → String → ℕ → Option (ApprovalService fl) → Float → Float
  add_handed_off s account_id now none total = total
  add_handed_off s account_id now (some service) total = add_earmarks total (
      map (λ (e : String × ApprovalRequest). e.1)
        (filter (holds_earmark s account_id now service) s.current))

  -- `outstanding_earmarks`
  unfoldable pub outstanding_earmarks :
      RequestStore → String → ℕ → Option (ApprovalService fl) → Float
  outstanding_earmarks s account_id now service =
      add_handed_off s account_id now service
        (add_earmarks (literal 0 0) (pending s (some account_id) (some now)))
