-- ===== src/Approval/Tests.antt =====
-- Runs of agent/approval.py over fixed-point prices.
use investmentagent.Prelude.{
  ◌+◌, ◌*◌, ◌≤◌, String, ◌≡◌, refl, ◌↔◌, false, Option, none, some, List, [], ◌∷◌, ok, err, count,
}
use investmentagent.Prelude.Text.{upper}
use investmentagent.Prelude.Dict.{get, put}
use investmentagent.Prelude.Floats.{fixed_point, unit}
use investmentagent.Audit.{Payload}
use investmentagent.Approval.{
  ApprovalToken, ApprovalService, ModifiedOrder, Approval, consume, approve, mint, sweep_expired,
  verify_modification_within_bounds, choose_band, token_reissued,
}
use investmentagent.Approval.SingleUse.{
  Call, approving, spending, sweeping, State, run, step, single_use,
}
use investmentagent.Approval.Modification.{LimitWithin, within_bounds_iff}

abbrev digest : Payload → String → String
digest p prev = prev

abbrev order : ModifiedOrder fixed_point
order = record {
  symbol = "SPY";
  side = "BUY";
  qty = 5 * unit;
  order_type = "LIMIT";
  time_in_force = "DAY";
  limit_price = some (100 * unit);
  lot_id = none;
}

abbrev approval : Approval fixed_point
approval = record {
  token_id = "tok-1";
  request_id = "apr-1";
  fingerprint = "f1";
  price_at_analysis = 100 * unit;
  shown_at = 10;
  now = 40;
  order = order;
  decision_elapsed_ms = none;
  price_band_low = none;
  price_band_high = none;
}

abbrev service : ApprovalService fixed_point
service = record {
  expiration = 1000;
  min_display = 30;
  max_per_day = 5;
  price_band_pct = 1 * unit;
  tokens = [];
}

abbrev token : ApprovalToken fixed_point
token = mint fixed_point digest service approval (99 * unit, 101 * unit)

abbrev after : ApprovalService fixed_point
after = record service { tokens = ("tok-1", token) ∷ [] }

approved_once : approve fixed_point digest service approval none ≡ ok (after, token, none)
unfolding approve choose_band get put
approved_once = refl

approved_twice : approve fixed_point digest after approval none ≡ err token_reissued
unfolding approve get
approved_twice = refl

abbrev start : State fixed_point digest
start = record { service = service; log = none }

abbrev replayed : List (Call fixed_point digest)
replayed =
    approving approval
    ∷ spending "tok-1" "f1" (100 * unit) 50
    ∷ approving approval
    ∷ spending "tok-1" "f1" (100 * unit) 51
    ∷ sweeping 2000
    ∷ []

replayed_spends_once : run fixed_point digest replayed start ≡ "tok-1" ∷ []
unfolding run step approve choose_band consume sweep_expired get put
replayed_spends_once = refl

single_use_example : count "tok-1" (run fixed_point digest replayed start) ≤ 1
single_use_example = single_use fixed_point digest "tok-1" replayed start

abbrev smaller : ModifiedOrder fixed_point
smaller = record order { qty = 3 * unit; limit_price = some (99 * unit) }

smaller_is_within : verify_modification_within_bounds fixed_point token smaller ≡ ok tt
unfolding verify_modification_within_bounds upper
smaller_is_within = refl

within_bounds_iff_example :
    (verify_modification_within_bounds fixed_point token smaller ≡ ok tt) ↔ (
      (upper "SPY" ≡ upper "SPY")
      × (upper "BUY" ≡ upper "BUY")
      × (upper "LIMIT" ≡ upper "LIMIT")
      × (upper "DAY" ≡ upper "DAY")
      × (◌≡◌ {A = Option String} none none)
      × (fixed_point.lt (5 * unit + fixed_point.literal 1 9) (3 * unit) ≡ false)
      × LimitWithin fixed_point "BUY" (some (99 * unit)) (some (100 * unit)))
within_bounds_iff_example = within_bounds_iff fixed_point token smaller
