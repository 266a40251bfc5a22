-- ===== src/Approval.antt =====
-- agent/approval.py: the single-use approval token and the service that issues it. Instants and
-- durations are counts of microseconds. Prices and quantities are floats, of which only the
-- operations are used. The token object that a caller holds is the one in the service's table.
pub mod Token
pub mod SingleUse
pub mod Modification
mod Tests
use investmentagent.Prelude.{
  ℕ, ◌+◌, ◌-◌, ◌/◌, String, Bool, true, false, not, ◌&&◌, ◌||◌, Option, none, some, List, [], ◌∷◌,
  str_eq, ltb, leb, find, is_some, if◌then◌else◌, Result, ok, err, ◌>>=◌, ◌>>◌, raise_if, catch,
}
use investmentagent.Prelude.Text.{upper, same_text?}
use investmentagent.Prelude.Dict.{Dict, get, put, contains}
use investmentagent.Prelude.Floats.{Floats}
use investmentagent.Prelude.Int.{ℤ, pos}
use investmentagent.Audit.{
  AuditError, AuditLog, Payload, append, Value, null, number, text, array, done, item, object, end,
  field,
}

pub data ApprovalError : Type 0 where
  token_reissued token_consumed token_expired order_mismatch price_out_of_band : ApprovalError
  -- the base class, raised for a card that was not shown long enough
  shown_too_briefly : ApprovalError
  -- raised by the audit log and passed on
  audit : AuditError → ApprovalError

module _ (fl : Floats) where
  open fl use {Float, le, lt, eq, add, sub, mul, div, literal, repr}

  pub record ApprovalToken : Type 0 where
    pub token_id : String
    pub request_id : String
    pub order_fingerprint : String
    pub price_band : Float × Float
    pub expires_at : ℕ
    pub decided_at : ℕ
    pub decision_elapsed_ms : ℤ
    pub original_symbol : String
    pub original_side : String
    pub original_qty : Float
    pub original_order_type : String
    pub original_time_in_force : String
    pub original_limit_price : Option Float
    pub original_lot_id : Option String
    pub shown_at : Option ℕ
    pub min_display : Option ℕ
    pub consumed_at : Option ℕ
    pub swept_at : Option ℕ

  abbrev reached : ℕ → ApprovalToken → Bool
  reached now tok = leb tok.expires_at now

  abbrev in_band : Float × Float → Float → Bool
  in_band (low, high) price = le low price && le price high

  -- `ApprovalToken.consume`; the token that comes back is the object after the call
  unfoldable pub consume : ApprovalToken → String → Float → ℕ → Result ApprovalError ApprovalToken
  consume tok fingerprint price now = do
    raise_if (is_some tok.consumed_at) token_consumed
    raise_if (is_some tok.swept_at || reached now tok) token_expired
    raise_if (not (str_eq fingerprint tok.order_fingerprint)) order_mismatch
    raise_if (not (in_band tok.price_band price)) price_out_of_band
    ok (record tok { consumed_at = some now })

  abbrev shown_long_enough : Option ℕ → Option ℕ → ℕ → Bool
  shown_long_enough (some shown) (some minimum) now = leb (shown + minimum) now
  shown_long_enough _ _ now = true

  -- `verify_minimum_display_time`: `now - shown_at < min_display` with `shown_at` added
  unfoldable pub verify_minimum_display_time : ApprovalToken → ℕ → Result ApprovalError Unit
  verify_minimum_display_time tok now =
      raise_if (not (shown_long_enough tok.shown_at tok.min_display now)) shown_too_briefly

  -- an order that is to be submitted in place of the approved one
  pub record ModifiedOrder : Type 0 where
    pub symbol : String
    pub side : String
    pub qty : Float
    pub order_type : String
    pub time_in_force : String
    pub limit_price : Option Float
    pub lot_id : Option String

  abbrev pub same_order : ApprovalToken → ModifiedOrder → Bool
  same_order tok o =
      str_eq (upper o.symbol) (upper tok.original_symbol)
      && str_eq (upper o.side) (upper tok.original_side)
      && str_eq (upper o.order_type) (upper tok.original_order_type)
      && str_eq (upper o.time_in_force) (upper tok.original_time_in_force)
      && same_text? o.lot_id tok.original_lot_id

  -- `1e-9`
  abbrev pub tolerance : Float
  tolerance = literal 1 9

  abbrev pub limit_within : Bool → Option Float → Option Float → Bool
  limit_within buy (some new) (some approved) =
      if buy then not (lt (add approved tolerance) new) else not (lt new (sub approved tolerance))
  limit_within buy none none = true
  limit_within buy _ _ = false

  -- `verify_modification_within_bounds`
  unfoldable pub verify_modification_within_bounds :
      ApprovalToken → ModifiedOrder → Result ApprovalError Unit
  verify_modification_within_bounds tok o = do
    raise_if (not (same_order tok o)) order_mismatch
    raise_if (lt (add tok.original_qty tolerance) o.qty) order_mismatch
    raise_if
        (not (limit_within (str_eq (upper o.side) "BUY") o.limit_price tok.original_limit_price))
        order_mismatch

  pub record ApprovalService : Type 0 where
    pub expiration : ℕ
    pub min_display : ℕ
    pub max_per_day : ℕ
    pub price_band_pct : Float
    pub tokens : Dict ApprovalToken

  -- `can_request`, given the store's count of the requests decided that day
  abbrev pub can_request : ApprovalService → ℕ → Bool → Bool
  can_request s count_decided_on is_stop_loss = is_stop_loss || ltb count_decided_on s.max_per_day

  -- the keyword arguments of `approve`
  pub record Approval : Type 0 where
    pub token_id : String
    pub request_id : String
    pub fingerprint : String
    pub price_at_analysis : Float
    pub shown_at : ℕ
    pub now : ℕ
    pub order : ModifiedOrder
    pub decision_elapsed_ms : Option ℤ
    pub price_band_low : Option Float
    pub price_band_high : Option Float

  abbrev pub computed_band : ApprovalService → Float → Float × Float
  computed_band s price =
      let fraction = div s.price_band_pct (literal 100 0) in
      (mul price (sub (literal 1 0) fraction), mul price (add (literal 1 0) fraction))

  -- `abs(a - b) > 1e-6`
  abbrev drifted : Float → Float → Bool
  drifted a b = let far = literal 1 6 in lt far (sub a b) || lt far (sub b a)

  abbrev pair_of : Float × Float → Value
  pair_of (a, b) = array (item (number (repr a)) (item (number (repr b)) done))

  module _ (digest : Payload → String → String) where
    abbrev drift_row :
        ApprovalService → Approval → Float × Float → AuditLog → Result AuditError AuditLog
    drift_row s a stored log = append digest log record {
      actor = "system";
      action = "approval_token_price_band_drift";
      object_type = "approval_request";
      object_id = a.request_id;
      before = null;
      after = object (
          field "stored_band" (pair_of stored) (
            field "recomputed_band" (pair_of (computed_band s a.price_at_analysis)) (
              field "price_band_pct" (number (repr s.price_band_pct))
                (field "price_at_analysis" (number (repr a.price_at_analysis)) end))));
      correlation_id = none;
      timestamp = a.now;
    }

    abbrev audit_drift :
        ApprovalService
        → Approval
        → Float × Float
        → Option AuditLog
        → Result AuditError (Option AuditLog)
    audit_drift s a band none = ok none
    audit_drift s a (low, high) (some log) =
        let computed = computed_band s a.price_at_analysis in
        if drifted low computed.0 || drifted high computed.1
        then (drift_row s a (low, high) log >>= λ l. ok (some l))
        else ok (some log)

    abbrev banded :
        ApprovalService
        → Approval
        → Option Float
        → Option Float
        → Option AuditLog
        → Result AuditError ((Float × Float) × Option AuditLog)
    banded s a (some low) (some high) log =
        audit_drift s a (low, high) log >>= λ l. ok ((low, high), l)
    banded s a _ _ log = ok (computed_band s a.price_at_analysis, log)

    -- the band of the token, the request's own where it has one, and the audit log after a drift
    -- from that band was recorded
    unfoldable pub choose_band :
        ApprovalService
        → Approval
        → Option AuditLog
        → Result ApprovalError ((Float × Float) × Option AuditLog)
    choose_band s a log = catch audit (banded s a a.price_band_low a.price_band_high log)

    abbrev elapsed_ms : Approval → Option ℤ → ℤ
    elapsed_ms a (some ms) = ms
    elapsed_ms a none = pos ((a.now - a.shown_at) / 1000)

    abbrev pub mint : ApprovalService → Approval → Float × Float → ApprovalToken
    mint s a band = record {
      token_id = a.token_id;
      request_id = a.request_id;
      order_fingerprint = a.fingerprint;
      price_band = band;
      expires_at = a.now + s.expiration;
      decided_at = a.now;
      decision_elapsed_ms = elapsed_ms a a.decision_elapsed_ms;
      original_symbol = a.order.symbol;
      original_side = a.order.side;
      original_qty = a.order.qty;
      original_order_type = a.order.order_type;
      original_time_in_force = a.order.time_in_force;
      original_limit_price = a.order.limit_price;
      original_lot_id = a.order.lot_id;
      shown_at = some a.shown_at;
      min_display = some s.min_display;
      consumed_at = none;
      swept_at = none;
    }

    -- `ApprovalService.approve`
    unfoldable pub approve :
        ApprovalService
        → Approval
        → Option AuditLog
        → Result ApprovalError (ApprovalService × ApprovalToken × Option AuditLog)
    approve s a log = do
      raise_if (contains s.tokens a.token_id) token_reissued
      raise_if (ltb a.now (a.shown_at + s.min_display)) shown_too_briefly
      (band, log') ← choose_band s a log
      let tok = mint s a band
      ok (record s { tokens = put s.tokens a.token_id tok }, tok, log')

  abbrev value_of : String × ApprovalToken → ApprovalToken
  value_of (k, tok) = tok

  abbrev pub first_token : Option (String × ApprovalToken) → Option ApprovalToken
  first_token none = none
  first_token (some (k, tok)) = some tok

  -- `token_for_request`
  unfoldable pub token_for_request : ApprovalService → String → Option ApprovalToken
  token_for_request s request_id =
      first_token
        (find (λ (e : String × ApprovalToken). str_eq (value_of e).request_id request_id) s.tokens)

  abbrev pub is_stale : ℕ → ApprovalToken → Bool
  is_stale now tok =
      not (is_some tok.consumed_at) && not (is_some tok.swept_at) && leb tok.expires_at now

  abbrev pub sweep_one : ℕ → ApprovalToken → ApprovalToken
  sweep_one now tok = if is_stale now tok then record tok { swept_at = some now } else tok

  -- the loop of `sweep_expired`: the table after it, and the tokens that it swept
  unfoldable pub sweep_tokens : ℕ → Dict ApprovalToken → Dict ApprovalToken × List ApprovalToken
  sweep_tokens now [] = ([], [])
  sweep_tokens now ((k, tok) ∷ d) =
      let (rest, swept) = sweep_tokens now d in
      ((k, sweep_one now tok) ∷ rest, if is_stale now tok then sweep_one now tok ∷ swept else swept)

  -- `ApprovalService.sweep_expired`
  unfoldable pub sweep_expired : ApprovalService → ℕ → ApprovalService × List ApprovalToken
  sweep_expired s now =
      let (tokens, swept) = sweep_tokens now s.tokens in (record s { tokens = tokens }, swept)
