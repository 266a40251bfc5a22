-- ===== src/Policy.antt =====
-- agent/policy.py: the trade capability policy, default deny, and its check at the four gates.
pub mod Gates
mod Tests
use investmentagent.Prelude.{
  ℕ, String, Bool, true, false, not, ◌&&◌, Option, none, some, List, [], ◌∷◌, str_eq, ltb, any,
  if◌then◌else◌, Result, ok, err, ◌>>=◌, ◌>>◌, raise_if,
}
use investmentagent.Prelude.Text.{upper}
use investmentagent.Prelude.Dict.{Dict, get_or}

pub data CapabilityStatus : Type 0 where
  disabled research_only paper_only approval_required production_allowed : CapabilityStatus

-- `IntEnum`
abbrev pub level : CapabilityStatus → ℕ
level disabled = 0
level research_only = 1
level paper_only = 2
level approval_required = 3
level production_allowed = 4

pub data Gate : Type 0 where
  universe risk_constrainer pre_submit adapter : Gate

pub data PolicyError : Type 0 where
  -- `PolicyViolation(gate, dimension, value, status)`
  violation : Gate → String → String → CapabilityStatus → PolicyError
  key_error : PolicyError

pub record TradeCapabilityPolicy : Type 0 where
  pub version : String
  pub asset_class : Dict CapabilityStatus
  pub side : Dict CapabilityStatus
  pub funding : Dict CapabilityStatus
  pub order_type : Dict CapabilityStatus
  pub session : Dict CapabilityStatus
  pub time_in_force : Dict CapabilityStatus
  pub symbol_blocklist : List String

module _ (p : TradeCapabilityPolicy) where
  -- `getattr(self, dimension)` for the six names of `_DIMENSIONS`
  abbrev pub table : String → Option (Dict CapabilityStatus)
  table dimension =
      if str_eq dimension "asset_class"
      then some p.asset_class
      else if str_eq dimension "side"
      then some p.side
      else if str_eq dimension "funding"
      then some p.funding
      else if str_eq dimension "order_type"
      then some p.order_type
      else if str_eq dimension "session"
      then some p.session
      else if str_eq dimension "time_in_force"
      then some p.time_in_force
      else none

  -- `if symbol and symbol.upper() in self.symbol_blocklist`
  abbrev pub blocked : Option String → Bool
  blocked none = false
  blocked (some s) = not (str_eq s "") && any (λ b. str_eq b (upper s)) p.symbol_blocklist

  abbrev lookup_status :
      String → Option (Dict CapabilityStatus) → Result PolicyError CapabilityStatus
  lookup_status value none = err key_error
  lookup_status value (some t) = ok (get_or t (upper value) disabled)

  -- `status`: an unlisted value is disabled
  unfoldable pub status : String → String → Result PolicyError CapabilityStatus
  status dimension value = lookup_status value (table dimension)

abbrev pub required : Bool → CapabilityStatus
required live = if live then approval_required else paper_only

abbrev text_or_empty : Option String → String
text_or_empty none = ""
text_or_empty (some s) = s

abbrev pub caught : Result PolicyError Unit → Result PolicyError Bool
caught (ok _) = ok true
caught (err (violation g d v st)) = ok false
caught (err key_error) = err key_error

module _ (p : TradeCapabilityPolicy) (gate : Gate) (live : Bool) where
  abbrev check_status : String → String → CapabilityStatus → Result PolicyError Unit
  check_status dimension value st =
      raise_if (ltb (level st) (level (required live))) (violation gate dimension value st)

  -- one round of the loop of `check`
  unfoldable pub check_dimension : String → String → Result PolicyError Unit
  check_dimension dimension value = status p dimension value >>= check_status dimension value

  unfoldable pub check_dimensions : List (String × String) → Result PolicyError Unit
  check_dimensions [] = ok tt
  check_dimensions ((dimension, value) ∷ rest) =
      check_dimension dimension value >> check_dimensions rest

  -- `TradeCapabilityPolicy.check`
  unfoldable pub check : Option String → List (String × String) → Result PolicyError Unit
  check symbol dimensions = do
    raise_if (blocked p symbol) (violation gate "symbol" (text_or_empty symbol) disabled)
    check_dimensions dimensions

  -- `allows`: only a violation is caught
  unfoldable pub allows : Option String → List (String × String) → Result PolicyError Bool
  allows symbol dimensions = caught (check symbol dimensions)

-- Appendix E of the plan, as data
unfoldable pub initial_policy : String → TradeCapabilityPolicy
initial_policy version = record {
  version = version;
  asset_class =
      ("US_EQUITY", production_allowed)
      ∷ ("ETF", production_allowed)
      ∷ ("OPTIONS", disabled)
      ∷ ("CRYPTO", disabled)
      ∷ ("FUTURES", disabled)
      ∷ ("FOREX", disabled)
      ∷ ("OTC", disabled)
      ∷ ("SHORT_SELLING", disabled)
      ∷ ("MARGIN", disabled)
      ∷ [];
  side =
      ("BUY", production_allowed)
      ∷ ("SELL", production_allowed)
      ∷ ("SELL_SHORT", disabled)
      ∷ ("BUY_TO_COVER", disabled)
      ∷ ("CANCEL", production_allowed)
      ∷ ("CLOSE", production_allowed)
      ∷ [];
  funding =
      ("SETTLED_CASH", production_allowed)
      ∷ ("MARGIN", disabled)
      ∷ ("UNSETTLED_CASH", disabled)
      ∷ [];
  order_type =
      ("LIMIT", production_allowed)
      ∷ ("MARKET", production_allowed)
      ∷ ("STOP", production_allowed)
      ∷ ("STOP_LIMIT", production_allowed)
      ∷ ("TRAILING_STOP", paper_only)
      ∷ [];
  session = ("REGULAR", production_allowed) ∷ ("EXTENDED", disabled) ∷ ("OVERNIGHT", disabled) ∷ [];
  time_in_force =
      ("DAY", production_allowed) ∷ ("GTC", disabled) ∷ ("IOC", disabled) ∷ ("FOK", disabled) ∷ [];
  symbol_blocklist = [];
}
