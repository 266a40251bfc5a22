-- ===== src/Policy/Tests.antt =====
-- Runs of agent/policy.py on its initial policy.
use investmentagent.Prelude.{String, ◌≡◌, refl, true, false, some, List, [], ◌∷◌, All, ok, err, ◌↔◌}
use investmentagent.Prelude.Text.{upper}
use investmentagent.Prelude.Dict.{get}
use investmentagent.Policy.{
  universe, adapter, violation, disabled, TradeCapabilityPolicy, status, check_dimension,
  check_dimensions, check, initial_policy,
}
use investmentagent.Policy.Gates.{IsFree, Permits, check_iff}

abbrev policy : TradeCapabilityPolicy
unfolding initial_policy
policy = initial_policy "v1"

abbrev limit_buy : List (String × String)
limit_buy = ("asset_class", "us_equity") ∷ ("side", "buy") ∷ ("order_type", "limit") ∷ []

abbrev option_buy : List (String × String)
option_buy = ("side", "buy") ∷ ("asset_class", "options") ∷ []

limit_buy_passes : check policy universe true (some "AAPL") limit_buy ≡ ok tt
unfolding check check_dimensions check_dimension status get upper initial_policy
limit_buy_passes = refl

option_buy_refused :
    check policy adapter false (some "AAPL") option_buy
    ≡ err (violation adapter "asset_class" "options" disabled)
unfolding check check_dimensions check_dimension status get upper initial_policy
option_buy_refused = refl

check_iff_example :
    (check policy universe true (some "AAPL") limit_buy ≡ ok tt)
    ↔ (IsFree policy (some "AAPL") × All (Permits policy true) limit_buy)
check_iff_example = check_iff policy universe true (some "AAPL") limit_buy
