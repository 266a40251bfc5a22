-- ===== src/LotSelection/Tests.antt =====
-- Runs of agent/lot_selection.py on pairs of a lot id and an opening instant.
use investmentagent.Prelude.{ℕ, String, ◌≡◌, refl, List, [], ◌∷◌, ok, err}
use investmentagent.LotSelection.{
  alpaca_default_policy, disposal_order, sort, insert, register, get_policy,
  unsupported_lot_selection_policy,
}
use investmentagent.Prelude.Dict.{get, put}

abbrev id_of : String × ℕ → String
id_of l = l.0

abbrev opened_of : String × ℕ → ℕ
opened_of l = l.1

abbrev lots : List (String × ℕ)
lots = ("c", 20) ∷ ("b", 10) ∷ ("a", 10) ∷ []

oldest_first :
    disposal_order id_of opened_of alpaca_default_policy lots
    ≡ ok (("a", 10) ∷ ("b", 10) ∷ ("c", 20) ∷ [])
unfolding disposal_order sort insert
oldest_first = refl

another_policy :
    register [] alpaca_default_policy ≡ ok (("alpaca-2026-07", alpaca_default_policy) ∷ [])
unfolding register get put
another_policy = refl

unknown_version : get_policy [] "v2" ≡ err unsupported_lot_selection_policy
unfolding get_policy get
unknown_version = refl
