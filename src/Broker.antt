-- ===== src/Broker.antt =====
-- agent/broker/base.py: the two entrypoints of a broker adapter that write, `submit` and `cancel`, and
-- the signature of a `StagedOrder` of agent/pipeline.py. `mac` is HMAC-SHA256 over the canonical JSON
-- text. The broker behind an adapter is a parameter: its state, the implementations of the two calls
-- and the check of its identity; so is the sink that records a consumed token.
pub mod Submit
pub mod Once
pub mod Durable
mod Tests
use investmentagent.Prelude.{
  ℕ, String, Bool, true, false, not, Option, none, some, List, [], ◌∷◌, str_eq, if◌then◌else◌,
  Result, ok, err, ◌>>=◌, ◌>>◌, raise_if, catch,
}
use investmentagent.Prelude.Floats.{Floats}
use investmentagent.Accounts.{CrossAccount}
use investmentagent.Audit.{Value, Items, null, number, text, array, done, item, object, end, field}
use investmentagent.Approval.{
  ApprovalError, ApprovalToken, ModifiedOrder, verify_modification_within_bounds,
  verify_minimum_display_time, consume,
}
use investmentagent.Policy.{TradeCapabilityPolicy, PolicyError, check}
use investmentagent.Policy as policy

module _ (fl : Floats) where
  open fl use {Float, repr}

  pub record StagedOrder : Type 0 where
    pub account_id : String
    pub client_order_id : String
    pub symbol : String
    pub side : String
    pub requested_qty : Float
    pub authorized_qty : Float
    pub order_type : String
    pub time_in_force : String
    pub limit_price : Option Float
    pub asset_class : String
    pub funding : String
    pub session : String
    pub requested_notional : Float
    pub notional : Float
    pub gates_passed : List String
    pub binding : List String
    pub signature : String
    pub lot_id : Option String

  abbrev float : Float → Value
  float x = number (repr x)

  abbrev float? : Option Float → Value
  float? none = null
  float? (some x) = float x

  abbrev text? : Option String → Value
  text? none = null
  text? (some s) = text s

  abbrev texts : List String → Items
  texts [] = done
  texts (s ∷ ss) = item (text s) (texts ss)

  -- `_signable`, its keys sorted as `_canonical` does
  unfoldable pub signable : StagedOrder → Value
  signable o = object (
      field "account_id" (text o.account_id) (
        field "asset_class" (text o.asset_class) (
          field "authorized_qty" (float o.authorized_qty) (
            field "binding" (array (texts o.binding)) (
              field "client_order_id" (text o.client_order_id) (
                field "funding" (text o.funding) (
                  field "gates_passed" (array (texts o.gates_passed)) (
                    field "limit_price" (float? o.limit_price) (
                      field "lot_id" (text? o.lot_id) (
                        field "notional" (float o.notional) (
                          field "order_type" (text o.order_type) (
                            field "requested_notional" (float o.requested_notional) (
                              field "requested_qty" (float o.requested_qty) (
                                field "session" (text o.session) (
                                  field "side" (text o.side) (
                                    field "symbol" (text o.symbol) (
                                      field "time_in_force" (text o.time_in_force)
                                        end)))))))))))))))))

  -- `StagedOrder.verify`
  abbrev pub verify : (String → Value → String) → StagedOrder → String → Bool
  verify mac o key =
      if str_eq o.signature "" then false else str_eq (mac key (signable o)) o.signature

  abbrev pub order_of : StagedOrder → ModifiedOrder fl
  order_of o = record {
    symbol = o.symbol;
    side = o.side;
    qty = o.authorized_qty;
    order_type = o.order_type;
    time_in_force = o.time_in_force;
    limit_price = o.limit_price;
    lot_id = o.lot_id;
  }

-- `X` is what the sink and the broker raise
pub data AdapterError (X : Type 0) : Type 0 where
  is_a_cancel not_a_cancel : AdapterError X
  staging_key_unset staging_forged capability_policy_unset : AdapterError X
  -- `MissingApproval`: no token, or no price to hold against its band
  no_token no_reference_price : AdapterError X
  cross_account : CrossAccount → AdapterError X
  capability : PolicyError → AdapterError X
  approval : ApprovalError → AdapterError X
  raised : X → AdapterError X

pub record Adapter : Type 0 where
  pub account_id : String
  pub is_live : Bool
  pub capability_policy : Option TradeCapabilityPolicy
  pub staging_key : Option String

-- The token is the object that the caller passes; `store` is what the sink writes to.
pub record SubmitWorld (fl : Floats) (B S : Type 0) : Type 0 where
  pub broker : B
  pub token : Option (ApprovalToken fl)
  pub store : S

module _ (fl : Floats) {X B S : Type 0} (mac : String → Value → String)
    (identity : B → Result X Unit) (sink : Option (S → ApprovalToken fl → Result X S)) where
  open fl use {Float}

  abbrev verify_with : Adapter → StagedOrder fl → Option String → Result (AdapterError X) Unit
  verify_with a o none = err staging_key_unset
  verify_with a o (some key) = do
    raise_if (not (verify fl mac o key)) staging_forged
    raise_if (not (str_eq o.account_id a.account_id))
        (cross_account (record { expected = a.account_id; got = o.account_id }))

  -- `_verify_staged_or_raise`
  unfoldable pub verify_staged_or_raise : Adapter → StagedOrder fl → Result (AdapterError X) Unit
  verify_staged_or_raise a o = verify_with a o a.staging_key

  abbrev pub dimensions : StagedOrder fl → List (String × String)
  dimensions o =
      ("asset_class", o.asset_class)
      ∷ ("side", o.side)
      ∷ ("funding", o.funding)
      ∷ ("order_type", o.order_type)
      ∷ ("session", o.session)
      ∷ ("time_in_force", o.time_in_force)
      ∷ []

  abbrev gate_of :
      Adapter → StagedOrder fl → Option TradeCapabilityPolicy → Result (AdapterError X) Unit
  gate_of a o none = err capability_policy_unset
  gate_of a o (some p) =
      catch capability (check p policy.adapter a.is_live (some o.symbol) (dimensions o))

  -- gate 4, from the fields of the order
  unfoldable pub gate_4 : Adapter → StagedOrder fl → Result (AdapterError X) Unit
  gate_4 a o = gate_of a o a.capability_policy

  abbrev required_token : Option (ApprovalToken fl) → Result (AdapterError X) (ApprovalToken fl)
  required_token none = err no_token
  required_token (some tok) = ok tok

  abbrev pub price_for : Option Float → Option Float → Result (AdapterError X) Float
  price_for (some p) limit = ok p
  price_for none (some p) = ok p
  price_for none none = err no_reference_price

  -- the checks of the token; what comes back is the token that they consumed
  unfoldable pub spend :
      StagedOrder fl
      → Option (ApprovalToken fl)
      → Option Float
      → ℕ
      → Result (AdapterError X) (ApprovalToken fl)
  spend o token reference_price now = do
    tok ← required_token token
    price ← price_for reference_price o.limit_price
    catch approval (verify_modification_within_bounds fl tok (order_of fl o))
    catch approval (verify_minimum_display_time fl tok now)
    catch approval (consume fl tok tok.order_fingerprint price now)

  -- everything that `submit` checks before it changes anything
  unfoldable pub admit :
      Adapter
      → SubmitWorld fl B S
      → StagedOrder fl
      → Option Float
      → ℕ
      → Result (AdapterError X) (ApprovalToken fl)
  admit a w o reference_price now = do
    catch raised (identity w.broker)
    raise_if (str_eq o.side "CANCEL") is_a_cancel
    verify_staged_or_raise a o
    gate_4 a o
    spend o w.token reference_price now

  -- the durable record of the consumption
  abbrev pub recorded :
      Option (S → ApprovalToken fl → Result X S) → S → ApprovalToken fl → Result X S
  recorded none s tok = ok s
  recorded (some record_it) s tok = record_it s tok

  module _ {O : Type 0} (submit_impl : B → StagedOrder fl → B × Result X O) where
    abbrev pub sent :
        SubmitWorld fl B S
        → StagedOrder fl
        → Result X S
        → SubmitWorld fl B S × Result (AdapterError X) O
    sent w o (err x) = (w, err (raised x))
    sent w o (ok s) =
        let (b, r) = submit_impl w.broker o in (record w { broker = b; store = s }, catch raised r)

    abbrev pub submitted :
        SubmitWorld fl B S
        → StagedOrder fl
        → Result (AdapterError X) (ApprovalToken fl)
        → SubmitWorld fl B S × Result (AdapterError X) O
    submitted w o (err x) = (w, err x)
    submitted w o (ok tok) = sent (record w { token = some tok }) o (recorded sink w.store tok)

    -- `submit` at the moment `now` of the adapter's clock
    unfoldable pub submit :
        Adapter
        → SubmitWorld fl B S
        → StagedOrder fl
        → Option Float
        → ℕ
        → SubmitWorld fl B S × Result (AdapterError X) O
    submit a w o reference_price now = submitted w o (admit a w o reference_price now)

  abbrev pub may_cancel : Adapter → B → StagedOrder fl → Result (AdapterError X) Unit
  may_cancel a b o = do
    catch raised (identity b)
    raise_if (not (str_eq o.side "CANCEL")) not_a_cancel
    verify_staged_or_raise a o
    gate_4 a o

  module _ {O : Type 0} (cancel_impl : B → StagedOrder fl → B × Result X (Option O)) where
    abbrev pub canceled :
        B → StagedOrder fl → Result (AdapterError X) Unit → B × Result (AdapterError X) (Option O)
    canceled b o (err x) = (b, err x)
    canceled b o (ok _) = let (b', r) = cancel_impl b o in (b', catch raised r)

    unfoldable pub cancel : Adapter → B → StagedOrder fl → B × Result (AdapterError X) (Option O)
    cancel a b o = canceled b o (may_cancel a b o)
