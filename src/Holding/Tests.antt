-- ===== src/Holding/Tests.antt =====
-- Runs of agent/holding.py on three lots of one symbol: the oldest is still held.
use investmentagent.Prelude.{
  ℕ, ◌+◌, ◌≤◌, String, ◌≡◌, refl, none, some, List, [], ◌∷◌, inl, inr, ok, err, filter, sum_by,
}
use investmentagent.Prelude.Dict.{get, put}
use investmentagent.LotSelection.{
  alpaca_default_policy, hifo, disposal_order, sort, insert, unsupported_lot_selection_policy,
}
use investmentagent.Holding.{
  Lot, HoldingPolicy, Registry, register, get_policy, sellable_qty, open_lots, leading_qty,
  symbols_in_cooldown, lot_selection, already_registered,
}
use investmentagent.Holding.Sellable.{up_to, qty_of, ineligible_blocks}

abbrev lot_at : String → ℕ → ℕ → ℕ → Lot
lot_at id opened hold qty = record {
  lot_id = id;
  account_id = "acct";
  symbol = "SPY";
  qty = qty;
  opened_at = opened;
  minimum_hold = hold;
  holding_policy_version = "v1";
  settles_at = some (opened + 5);
  closed_at = none;
}

abbrev held_lot : Lot
held_lot = lot_at "b" 10 100 7

abbrev three : List Lot
three = lot_at "c" 20 10 5 ∷ held_lot ∷ lot_at "a" 1 10 3 ∷ []

three_sellable : sellable_qty alpaca_default_policy three "acct" "SPY" 60 ≡ ok 3
unfolding sellable_qty disposal_order sort insert open_lots leading_qty
three_sellable = refl

other_method_raises :
    sellable_qty (record { version = "x"; method = hifo }) three "acct" "SPY" 60
    ≡ err (lot_selection unsupported_lot_selection_policy)
unfolding sellable_qty disposal_order
other_method_raises = refl

ineligible_blocks_example :
    (s : ℕ) × (sellable_qty alpaca_default_policy three "acct" "SPY" 60 ≡ ok s)
    × (s + 7 ≤ sum_by qty_of (filter (up_to held_lot) (open_lots three "acct" (some "SPY"))))
unfolding open_lots
ineligible_blocks_example = ineligible_blocks three "acct" "SPY" 60 held_lot (inr (inl refl)) refl

abbrev policy : String → ℕ → HoldingPolicy
policy version hold = record {
  version = version;
  minimum_holding_period = hold;
  cooldown_period = 50;
  effective_at = none;
}

abbrev registry : Registry
registry = ("v1", policy "v1" 10) ∷ []

reregistered_differs : register registry (policy "v1" 9) ≡ err already_registered
unfolding register get
reregistered_differs = refl

registered_v2 :
    register registry (policy "v2" 99) ≡ ok (("v1", policy "v1" 10) ∷ ("v2", policy "v2" 99) ∷ [])
unfolding register get put
registered_v2 = refl

v1_known : get_policy registry "v1" ≡ ok (policy "v1" 10)
unfolding get_policy get
v1_known = refl

abbrev closed_lot : Lot
closed_lot = record (lot_at "d" 1 10 3) { closed_at = some 40 }

cooling : symbols_in_cooldown (held_lot ∷ closed_lot ∷ []) registry 60 ≡ ok ("SPY" ∷ [])
unfolding symbols_in_cooldown get_policy get
cooling = refl
