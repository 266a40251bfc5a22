-- ===== src/Requests/Tests.antt =====
-- Runs of the request store of agent/approval_request_store.py over fixed-point prices.
use investmentagent.Prelude.{◌*◌, ◌/◌, ◌+◌, ◌≡◌, refl, none, some, List, [], ◌∷◌, ok}
use investmentagent.Prelude.Dict.{get, put}
use investmentagent.Prelude.Floats.{fixed_point, unit}
use investmentagent.Audit.{null}
use investmentagent.MarketCalendar.{Zone}
use investmentagent.Requests.{
  Draft, RequestStore, ApprovalRequest, empty, count_decided_on, decide, create, invalidate,
  request_of, with_decision,
}
use investmentagent.Requests.Lifecycle.{
  Call, creating, deciding, invalidating, step, run, Effect, step-Effect,
}
use investmentagent.Requests.States.{IsConsistent, StillFixed, run-IsConsistent, run-Fixed}
use investmentagent.Requests.Replay.{load, load-run}
use investmentagent.Requests.Cap.{decided_requests, count_decided_on-run}

abbrev zone : Zone
zone = record { eastern_date = λ t. t / 1440; eastern_instant = λ d m. d * 1440 + m }

abbrev pub draft : Draft fixed_point
draft = record {
  run_id = "run-1";
  proposal_snapshot = record {
    symbol = "SPY";
    side = "BUY";
    authorized_qty = 5 * unit;
    order_type = "LIMIT";
    time_in_force = "DAY";
    limit_price = some (100 * unit);
    lot_id = none;
    legs = none;
  };
  risk_result = null;
  price_at_analysis = 100 * unit;
  price_band_low = 99 * unit;
  price_band_high = 101 * unit;
  expiration = 600;
  earmark = 500 * unit;
}

-- two requests, of which one is approved and the other invalidated
abbrev calls : List (Call fixed_point)
calls =
    creating "acct" draft 100 "apr-1"
    ∷ creating "acct" draft 110 "apr-2"
    ∷ deciding "apr-1" "APPROVED" 150 "operator"
    ∷ invalidating "apr-2" "stale quote"
    ∷ deciding "apr-1" "REJECTED" 160 "operator"
    ∷ []

abbrev new_store : RequestStore fixed_point
new_store = empty fixed_point

abbrev pub approved : ApprovalRequest fixed_point
approved =
    with_decision fixed_point (request_of fixed_point draft "apr-1" 100) "APPROVED" 150 "operator"

abbrev pub decided_store : RequestStore fixed_point
decided_store = record {
  rows = [];
  current = ("apr-1", approved) ∷ [];
  account_of = ("apr-1", "acct") ∷ [];
  decided_dates = 0 ∷ [];
}

created :
    step fixed_point zone (creating "acct" draft 100 "apr-1") new_store
    ≡ ok (run fixed_point zone (creating "acct" draft 100 "apr-1" ∷ []) new_store)
unfolding run step create get
created = refl

found : get decided_store.current "apr-1" ≡ some approved
unfolding get
found = refl

-- the approved request alone counts, and neither is open
counted : count_decided_on fixed_point (run fixed_point zone calls new_store) 0 ≡ 1
unfolding count_decided_on run step create decide invalidate get put
counted = refl

step-Effect_example :
    Effect fixed_point zone new_store
      (run fixed_point zone (creating "acct" draft 100 "apr-1" ∷ []) new_store)
step-Effect_example =
    step-Effect fixed_point zone (creating "acct" draft 100 "apr-1") new_store
      (run fixed_point zone (creating "acct" draft 100 "apr-1" ∷ []) new_store) created

load-run_example :
    load fixed_point zone (run fixed_point zone calls new_store).rows
    ≡ run fixed_point zone calls new_store
load-run_example = load-run fixed_point zone calls

count_decided_on-run_example :
    count_decided_on fixed_point (run fixed_point zone calls new_store) 0
    ≡ decided_requests fixed_point zone 0 (run fixed_point zone calls new_store).current
count_decided_on-run_example = count_decided_on-run fixed_point zone 0 calls

run-IsConsistent_example : IsConsistent fixed_point (run fixed_point zone calls new_store)
run-IsConsistent_example = run-IsConsistent fixed_point zone calls new_store tt

run-Fixed_example :
    StillFixed fixed_point zone approved
      (run fixed_point zone (deciding "apr-1" "REJECTED" 160 "operator" ∷ []) decided_store)
      "apr-1"
run-Fixed_example =
    run-Fixed fixed_point zone (deciding "apr-1" "REJECTED" 160 "operator" ∷ []) decided_store
      "apr-1" approved found refl
