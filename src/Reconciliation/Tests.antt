-- ===== src/Reconciliation/Tests.antt =====
-- Runs of agent/reconciliation.py.
use investmentagent.Prelude.{String, ◌≡◌, refl, ◌↔◌, List, [], ◌∷◌, All, ok, err}
use investmentagent.Prelude.Int.{pos}
use investmentagent.Prelude.Dict.{get, put}
use investmentagent.Reconciliation.{
  AccountSnapshot, Position, BrokerOrder, reconcile_positions, by_symbol, check_owners,
  reconciliation_mismatch,
}
use investmentagent.Reconciliation.Agreement.{reconcile_positions_iff}

abbrev snapshot : AccountSnapshot
snapshot = record { account_id = "acct"; settled_cash = pos 500 }

abbrev positions : List Position
positions =
    record { account_id = "acct"; symbol = "SPY"; qty = pos 5 }
    ∷ record { account_id = "acct"; symbol = "QQQ"; qty = pos 2 }
    ∷ []

abbrev orders : List BrokerOrder
orders =
    record { account_id = "acct"; client_order_id = "o1" }
    ∷ record { account_id = "acct"; client_order_id = "o2" }
    ∷ []

any_order : reconcile_positions "acct" (("QQQ", pos 2) ∷ ("SPY", pos 5) ∷ []) positions ≡ ok tt
unfolding reconcile_positions check_owners by_symbol get put
any_order = refl

-- a position of zero is not an absent one
zero_is_present :
    reconcile_positions "acct" (("IWM", pos 0) ∷ ("QQQ", pos 2) ∷ ("SPY", pos 5) ∷ []) positions
    ≡ err reconciliation_mismatch
unfolding reconcile_positions check_owners by_symbol get put
zero_is_present = refl

reconcile_positions_iff_example :
    (reconcile_positions "acct" (("QQQ", pos 2) ∷ ("SPY", pos 5) ∷ []) positions ≡ ok tt) ↔ (
      All (λ (p : Position). p.account_id ≡ "acct") positions
      × ((symbol : String)
          → get (by_symbol [] positions) symbol
            ≡ get (("QQQ", pos 2) ∷ ("SPY", pos 5) ∷ []) symbol))
reconcile_positions_iff_example =
    reconcile_positions_iff "acct" (("QQQ", pos 2) ∷ ("SPY", pos 5) ∷ []) positions
