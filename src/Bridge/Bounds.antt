-- ===== src/Bridge/Bounds.antt =====
-- The bounds that `_validate_modification` of agent/approval_bridge.py keeps.
use investmentagent.Prelude.{
  ◌≡◌, ◌≢◌, refl, Bool, true, false, Option, none, some, arith, str_eq, ok, err,
}
use investmentagent.Prelude.Text.{upper}
use investmentagent.Prelude.Floats.{Floats}
use investmentagent.Approval.{tolerance}
use investmentagent.Requests.{Proposal, RequestError}
use investmentagent.Bridge.{
  validate_modification, reject_compound, request, check_limit, or_else, or_else?,
}

module _ (fl : Floats) where
  open fl use {Float, le, lt, add, sub, literal}

  -- the authorised size, or a positive one up to the tolerance above it
  abbrev pub SizeWithin : Proposal fl → Option Float → Float → Type 0
  SizeWithin p none qty = qty ≡ p.authorized_qty
  SizeWithin p (some new) qty =
      (qty ≡ new)
      × (le new (literal 0 0) ≡ false)
      × (lt (add p.authorized_qty (tolerance fl)) new ≡ false)

  abbrev pub Against : Bool → Option Float → Float → Type 0
  Against buy none new = ⊥
  Against true (some approved) new = lt (add approved (tolerance fl)) new ≡ false
  Against false (some approved) new = lt new (sub approved (tolerance fl)) ≡ false

  -- the approved limit, or a new one that is worse for the trade, up to the tolerance
  abbrev pub LimitWithin : Proposal fl → Option Float → Option Float → Type 0
  LimitWithin p none limit = limit ≡ p.limit_price
  LimitWithin p (some new) limit =
      (limit ≡ some new) × Against (str_eq (upper p.side) "BUY") p.limit_price new

  check_limit-Against :
      (buy : Bool) (original : Option Float) (new : Float)
      → check_limit fl buy original (some new) ≡ ok tt
      → Against buy original new
  check_limit-Against buy none new h = cc
  check_limit-Against true (some o) new h = ground arith
  check_limit-Against false (some o) new h = ground arith

  -- an override that passes moves the order within what was approved
  pub validate-within :
      (p : Proposal fl) (qty limit : Option Float)
      → validate_modification fl p qty limit ≡ ok tt
      → SizeWithin p qty (or_else qty p.authorized_qty)
        × LimitWithin p limit (or_else? limit p.limit_price)
  unfolding validate_modification
  validate-within p none none h = (refl, refl)
  validate-within p none (some new) h =
      (refl, (refl, check_limit-Against (str_eq (upper p.side) "BUY") p.limit_price new h))
  validate-within p (some q) none h = ((refl, ground arith, ground arith), refl)
  validate-within p (some q) (some new) h = (
    (refl, ground arith, ground arith),
    (refl, check_limit-Against (str_eq (upper p.side) "BUY") p.limit_price new (ground arith)),
  )

  -- none of the checks raises an error of the request store
  pub validate-no-request :
      (p : Proposal fl) (qty limit : Option Float) (e : RequestError)
      → validate_modification fl p qty limit ≢ err (request e)
  unfolding validate_modification
  validate-no-request p none none e h = ground arith
  validate-no-request p none (some new) e h = ground arith
  validate-no-request p (some q) none e h = ground arith
  validate-no-request p (some q) (some new) e h = ground arith

  pub compound-no-request :
      (p : Proposal fl) (e : RequestError) → reject_compound fl p ≢ err (request e)
  unfolding reject_compound
  compound-no-request p e h = ground arith
