-- ===== src/Broker/Tests.antt =====
-- Runs of agent/broker/base.py with a broker that keeps the ids of the orders it was sent, and a token
-- of the request store.
use investmentagent.Prelude.{
  ◌*◌, String, ◌≡◌, refl, false, Option, none, some, List, [], ◌∷◌, Result, ok, err, ◌⊎◌, is_ok,
  Member,
}
use investmentagent.Prelude.Text.{upper}
use investmentagent.Prelude.Dict.{get, put}
use investmentagent.Prelude.Floats.{fixed_point, unit}
use investmentagent.Audit.{Value}
use investmentagent.Approval as approvals
use investmentagent.Policy.{initial_policy, check_dimensions, check_dimension, status, check}
use investmentagent.Requests.{RequestStore, RequestError, record_token_consumed}
use investmentagent.Bridge.{World, order_fingerprint, mint_approval_token}
use investmentagent.Bridge.Tests.{digest, rounded, sha256, service, token, minted_world}
use investmentagent.Broker.{
  StagedOrder, Adapter, SubmitWorld, verify_staged_or_raise, gate_4, spend, admit, submit, cancel,
}
use investmentagent.Broker.Submit.{Refused, Sent, Verified, Capable, submit-cases, cancel-cases}
use investmentagent.Broker.Once.{Attempt, run, run-Once}
use investmentagent.Broker.Durable.{consumption_sink, submit_durably, consume-submit_durably}

abbrev mac : String → Value → String
mac key v = key

abbrev identity : List String → Result RequestError Unit
identity b = ok tt

abbrev submit_impl :
    List String → StagedOrder fixed_point → List String × Result RequestError String
submit_impl b o = (o.client_order_id ∷ b, ok o.client_order_id)

abbrev no_sink : Option (
    RequestStore fixed_point
    → approvals.ApprovalToken fixed_point
    → Result RequestError (RequestStore fixed_point))
no_sink = none

abbrev cancel_impl :
    List String → StagedOrder fixed_point → List String × Result RequestError (Option String)
cancel_impl b o = ([], ok (some o.client_order_id))

abbrev paper : Adapter
unfolding initial_policy
paper = record {
  account_id = "acct";
  is_live = false;
  capability_policy = some (initial_policy "v1");
  staging_key = some "key";
}

abbrev order : StagedOrder fixed_point
order = record {
  account_id = "acct";
  client_order_id = "o1";
  symbol = "SPY";
  side = "BUY";
  requested_qty = 5 * unit;
  authorized_qty = 3 * unit;
  order_type = "LIMIT";
  time_in_force = "DAY";
  limit_price = some (100 * unit);
  asset_class = "US_EQUITY";
  funding = "SETTLED_CASH";
  session = "REGULAR";
  requested_notional = 500 * unit;
  notional = 300 * unit;
  gates_passed = [];
  binding = [];
  signature = "key";
  lot_id = none;
}

abbrev world : SubmitWorld fixed_point (List String) (RequestStore fixed_point)
world = record { broker = []; token = some token; store = minted_world.store }

abbrev after : SubmitWorld fixed_point (List String) (RequestStore fixed_point)
after = (submit_durably fixed_point mac identity "apr-1" submit_impl paper world order none 200).0

went_through :
    submit_durably fixed_point mac identity "apr-1" submit_impl paper world order none 200
    ≡ (after, ok "o1")
unfolding submit admit verify_staged_or_raise gate_4 spend check check_dimensions check_dimension
    status get put upper approvals.consume approvals.verify_minimum_display_time
    approvals.verify_modification_within_bounds record_token_consumed initial_policy
    order_fingerprint
went_through = refl

submit-cases_example :
    Refused fixed_point mac identity
      (consumption_sink fixed_point mac identity "apr-1" submit_impl)
      submit_impl
      world
      (submit_durably fixed_point mac identity "apr-1" submit_impl paper world order none 200)
    ⊎ Sent fixed_point mac identity
        (consumption_sink fixed_point mac identity "apr-1" submit_impl)
        submit_impl
        paper
        world
        order
        none
        200
        (submit_durably fixed_point mac identity "apr-1" submit_impl paper world order none 200)
submit-cases_example =
    submit-cases fixed_point mac identity
      (consumption_sink fixed_point mac identity "apr-1" submit_impl) submit_impl paper world order
      none 200

abbrev attempts : List (Attempt fixed_point)
attempts =
    record { order = record order { account_id = "other" }; reference_price = none; now = 190 }
    ∷ record { order = order; reference_price = none; now = 200 }
    ∷ record { order = record order { client_order_id = "o2" }; reference_price = none; now = 210 }
    ∷ []

run-Once_example :
    ((run fixed_point mac identity no_sink submit_impl paper attempts world).broker ≡ [])
    ⊎ (t : Attempt fixed_point) × Member t attempts
      × ((run fixed_point mac identity no_sink submit_impl paper attempts world).broker
          ≡ t.order.client_order_id ∷ [])
run-Once_example = run-Once fixed_point mac identity no_sink submit_impl paper attempts world

abbrev cancel_order : StagedOrder fixed_point
cancel_order = record order { side = "CANCEL" }

cancel-cases_example :
    ((cancel fixed_point mac identity no_sink cancel_impl paper ("o1" ∷ []) cancel_order).0
        ≡ "o1" ∷ [])
      × (is_ok
            (cancel fixed_point mac identity no_sink cancel_impl paper ("o1" ∷ []) cancel_order).1
          ≡ false)
    ⊎ (identity ("o1" ∷ []) ≡ ok tt)
      × (◌≡◌ {A = String} "CANCEL" "CANCEL")
      × Verified fixed_point mac identity no_sink paper cancel_order
      × Capable fixed_point mac identity no_sink paper cancel_order
      × (cancel fixed_point mac identity no_sink cancel_impl paper ("o1" ∷ []) cancel_order
          ≡ ([], ok (some "o1")))
cancel-cases_example =
    cancel-cases fixed_point mac identity no_sink cancel_impl paper ("o1" ∷ []) cancel_order

abbrev spent : approvals.ApprovalToken fixed_point
spent = record token { consumed_at = some 200 }

abbrev restarted : World fixed_point
restarted = record { store = after.store; service = service; log = none }

minted_again :
    mint_approval_token fixed_point digest rounded sha256 restarted "apr-1" 210 none none
    ≡ ok (restarted, spent)
unfolding mint_approval_token approvals.token_for_request submit admit verify_staged_or_raise gate_4
    spend check check_dimensions check_dimension status get put upper approvals.consume
    approvals.verify_minimum_display_time approvals.verify_modification_within_bounds
    record_token_consumed initial_policy order_fingerprint
minted_again = refl

no_token : approvals.token_for_request fixed_point service "apr-1" ≡ none
unfolding approvals.token_for_request
no_token = refl

consume-submit_durably_example :
    Refused fixed_point mac identity
      (consumption_sink fixed_point mac identity "apr-1" submit_impl)
      submit_impl
      world
      (submit_durably fixed_point mac identity "apr-1" submit_impl paper world order none 200)
    ⊎ (approvals.consume fixed_point spent "f" (100 * unit) 220 ≡ err approvals.token_consumed)
consume-submit_durably_example =
    consume-submit_durably fixed_point mac identity "apr-1" submit_impl paper world order none 200
      digest rounded sha256 restarted restarted 210 none none spent "f" (100 * unit) 220 refl
      no_token minted_again
