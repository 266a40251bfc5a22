-- ===== src/Bridge.antt =====
-- agent/approval_bridge.py, and `order_fingerprint` of agent/approval.py: the one token of an
-- approved request. `rounded n x` is `round(x, n)`, `sha256` the digest of the canonical JSON text,
-- cut to 32 digits. A call changes the request store, the service and the audit log.
pub mod Bounds
pub mod Mint
pub mod Once
pub mod Tests
use investmentagent.Prelude.{
  ℕ, ◌+◌, String, Bool, true, false, not, Option, none, some, List, [], ◌∷◌, str_eq, leb, is_some,
  ◌==◌, if◌then◌else◌, Result, ok, err, ◌>>=◌, ◌>>◌, raise_if, catch,
}
use Prim.Native.String.{◌++◌ as concat}
use investmentagent.Prelude.Text.{upper}
use investmentagent.Prelude.Int.{ℤ, pos, ltb_ℤ, ◌+ℤ◌}
use investmentagent.Prelude.Dict.{get}
use investmentagent.Prelude.Floats.{Floats}
use investmentagent.Audit.{AuditLog, Payload, Value, null, number, text, object, end, field}
use investmentagent.Approval.{
  ApprovalToken, ApprovalService, ApprovalError, ModifiedOrder, Approval, approve,
  token_for_request, tolerance,
}
use investmentagent.Requests.{
  Proposal, ApprovalRequest, RequestStore, RequestError, record_token_minted, is_approved,
  elapsed_ms,
}

pub data BridgeError : Type 0 where
  unknown_request not_approved was_invalidated request_expired compound_order bad_size bad_limit
        negative_elapsed shown_at_drift :
      BridgeError
  -- `None + 5000`, a TypeError
  no_elapsed : BridgeError
  -- raised by `ApprovalService.approve` and by the request store, and passed on
  approval : ApprovalError → BridgeError
  request : RequestError → BridgeError

abbrev pub shown_at_drift_tolerance_ms : ℕ
shown_at_drift_tolerance_ms = 5000

-- `x if x is not None else y`
abbrev pub or_else {ℓ} : {A : Type ℓ} → Option A → A → A
or_else none a = a
or_else (some b) a = b

abbrev pub or_else? {ℓ} : {A : Type ℓ} → Option A → Option A → Option A
or_else? none o = o
or_else? (some b) o = some b

module _ (fl : Floats) where
  open fl use {Float, le, lt, add, sub, literal, repr}

  abbrev limit_value : (ℕ → Float → Float) → Option Float → Value
  limit_value rounded none = null
  limit_value rounded (some x) = number (repr (rounded 4 x))

  abbrev lot_value : Option String → Value
  lot_value none = null
  lot_value (some l) = text l

  -- `order_fingerprint`, its keys sorted
  unfoldable pub order_fingerprint :
      (ℕ → Float → Float) → (Value → String) → ModifiedOrder fl → String
  order_fingerprint rounded sha256 o = sha256 (
      object (
        field "limit_price" (limit_value rounded o.limit_price) (
          field "lot_id" (lot_value o.lot_id) (
            field "order_type" (text (upper o.order_type)) (
              field "qty" (number (repr (rounded 6 o.qty))) (
                field "side" (text (upper o.side)) (
                  field "symbol" (text (upper o.symbol))
                    (field "time_in_force" (text (upper o.time_in_force)) end))))))))

  abbrev compound : Option ℕ → Bool
  compound none = false
  compound (some legs) = not (legs == 1)

  -- `_reject_compound_snapshot`
  unfoldable pub reject_compound : Proposal fl → Result BridgeError Unit
  reject_compound p = raise_if (compound p.legs) compound_order

  abbrev check_size : Float → Option Float → Result BridgeError Unit
  check_size authorized none = ok tt
  check_size authorized (some qty) = do
    raise_if (le qty (literal 0 0)) bad_size
    raise_if (lt (add authorized (tolerance fl)) qty) bad_size

  abbrev pub check_limit : Bool → Option Float → Option Float → Result BridgeError Unit
  check_limit buy original none = ok tt
  check_limit buy none (some new) = err bad_limit
  check_limit buy (some original) (some new) =
      raise_if
        (if buy then lt (add original (tolerance fl)) new else lt new (sub original (tolerance fl)))
        bad_limit

  -- `_validate_modification`
  unfoldable pub validate_modification :
      Proposal fl → Option Float → Option Float → Result BridgeError Unit
  validate_modification p qty_override limit_price_override = do
    check_size p.authorized_qty qty_override
    check_limit (str_eq (upper p.side) "BUY") p.limit_price limit_price_override

  -- the order that the operator authorised
  abbrev pub final_order : Proposal fl → Option Float → Option Float → ModifiedOrder fl
  final_order p qty_override limit_price_override = record {
    symbol = p.symbol;
    side = p.side;
    qty = or_else qty_override p.authorized_qty;
    order_type = p.order_type;
    time_in_force = p.time_in_force;
    limit_price = or_else? limit_price_override p.limit_price;
    lot_id = p.lot_id;
  }

  -- the sanity bound on `now`, against the request's own `shown_at` and `decision_elapsed_ms`
  abbrev pub check_elapsed : ApprovalRequest fl → ℕ → ℤ → Result BridgeError Unit
  check_elapsed r now recorded = do
    raise_if (ltb_ℤ (elapsed_ms fl r.shown_at now) (pos 0)) negative_elapsed
    raise_if (ltb_ℤ (recorded +ℤ pos shown_at_drift_tolerance_ms) (elapsed_ms fl r.shown_at now))
        shown_at_drift

  pub record World : Type 0 where
    pub store : RequestStore fl
    pub service : ApprovalService fl
    pub log : Option AuditLog

  module _ (digest : Payload → String → String) (rounded : ℕ → Float → Float)
      (sha256 : Value → String) where
    -- the keyword arguments with which `approve` is called
    abbrev pub approval_of : ApprovalRequest fl → String → ModifiedOrder fl → ℕ → ℤ → Approval fl
    approval_of r id o now recorded = record {
      token_id = concat "tok-" id;
      request_id = id;
      fingerprint = order_fingerprint rounded sha256 o;
      price_at_analysis = r.price_at_analysis;
      shown_at = r.shown_at;
      now = now;
      order = o;
      decision_elapsed_ms = some recorded;
      price_band_low = some r.price_band_low;
      price_band_high = some r.price_band_high;
    }

    abbrev pub recorded_ms : Option ℤ → Result BridgeError ℤ
    recorded_ms none = err no_elapsed
    recorded_ms (some ms) = ok ms

    -- the calls of `approve` and of `record_token_minted`
    unfoldable pub issue :
        World → String → Approval fl → Result BridgeError (World × ApprovalToken fl)
    issue w id a = do
      (service, tok, log) ← catch approval (approve fl digest w.service a w.log)
      store ← catch request (record_token_minted fl w.store id tok)
      ok (record { store = store; service = service; log = log }, tok)

    -- the part after the replay: a first token of a request
    unfoldable pub mint_first :
        World
        → String
        → ApprovalRequest fl
        → ℕ
        → Option Float
        → Option Float
        → Result BridgeError (World × ApprovalToken fl)
    mint_first w id r now qty_override limit_price_override = do
      raise_if (leb r.expires_at now) request_expired
      reject_compound r.proposal_snapshot
      validate_modification r.proposal_snapshot qty_override limit_price_override
      recorded ← recorded_ms r.decision_elapsed_ms
      check_elapsed r now recorded
      let o = final_order r.proposal_snapshot qty_override limit_price_override
      issue w id (approval_of r id o now recorded)

    abbrev pub replayed :
        World
        → Option (ApprovalToken fl)
        → Option (ApprovalToken fl)
        → Result BridgeError (World × ApprovalToken fl)
        → Result BridgeError (World × ApprovalToken fl)
    replayed w (some live) snapshot first = ok (w, live)
    replayed w none (some tok) first = ok (w, tok)
    replayed w none none first = first

    abbrev known : Option (ApprovalRequest fl) → Result BridgeError (ApprovalRequest fl)
    known none = err unknown_request
    known (some r) = ok r

    -- `mint_approval_token`: the token that the service still holds, or else the recorded one, or
    -- else a new one
    unfoldable pub mint_approval_token :
        World
        → String
        → ℕ
        → Option Float
        → Option Float
        → Result BridgeError (World × ApprovalToken fl)
    mint_approval_token w id now qty_override limit_price_override = do
      r ← known (get w.store.current id)
      raise_if (not (is_approved fl r)) not_approved
      raise_if (is_some r.invalidated_reason) was_invalidated
      replayed w (token_for_request fl w.service id) r.token_snapshot
          (mint_first w id r now qty_override limit_price_override)
