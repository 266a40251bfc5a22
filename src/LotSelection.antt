-- ===== src/LotSelection.antt =====
-- agent/lot_selection.py: the order in which the broker disposes of lots, and the versioned
-- policies that name it. `A` is anything with a lot id and an opening instant.
pub mod Order
mod Tests
use investmentagent.Prelude.{
  ℕ, String, Bool, true, false, not, ◌&&◌, ◌||◌, Option, none, some, List, [], ◌∷◌, ◌==◌, str_eq,
  ltb, if◌then◌else◌, Result, ok, err,
}
use investmentagent.Prelude.TextOrder.{text_le}
use investmentagent.Prelude.Dict.{Dict, get, put}

pub data LotSelectionMethod : Type 0 where
  broker_fifo specific_identification hifo lifo tax_optimized : LotSelectionMethod

abbrev pub supported : LotSelectionMethod → Bool
supported broker_fifo = true
supported _ = false

pub data LotSelectionError : Type 0 where
  unsupported_lot_selection_policy : LotSelectionError

pub record LotSelectionPolicy : Type 0 where
  pub version : String
  pub method : LotSelectionMethod

abbrev pub alpaca_default_policy : LotSelectionPolicy
alpaca_default_policy = record { version = "alpaca-2026-07"; method = broker_fifo }

abbrev method_number : LotSelectionMethod → ℕ
method_number broker_fifo = 0
method_number specific_identification = 1
method_number hifo = 2
method_number lifo = 3
method_number tax_optimized = 4

-- `==` of the dataclass
abbrev pub same_policy : LotSelectionPolicy → LotSelectionPolicy → Bool
same_policy p q = str_eq p.version q.version && method_number p.method == method_number q.method

abbrev pub Registry : Type 0
Registry = Dict LotSelectionPolicy

abbrev register_over :
    Registry → LotSelectionPolicy → Option LotSelectionPolicy → Result LotSelectionError Registry
register_over r p none = ok (put r p.version p)
register_over r p (some existing) =
    if same_policy existing p then ok (put r p.version p) else err unsupported_lot_selection_policy

-- `LotSelectionPolicyRegistry.register` and `.get`
unfoldable pub register : Registry → LotSelectionPolicy → Result LotSelectionError Registry
register r p = register_over r p (get r p.version)

abbrev found : Option LotSelectionPolicy → Result LotSelectionError LotSelectionPolicy
found none = err unsupported_lot_selection_policy
found (some p) = ok p

unfoldable pub get_policy : Registry → String → Result LotSelectionError LotSelectionPolicy
get_policy r version = found (get r version)

module _ {A : Type 0} (lot_id : A → String) (opened_at : A → ℕ) where
  -- the order of the sort key `(opened_at, lot_id)`
  abbrev pub key_le : A → A → Bool
  key_le a b =
      ltb (opened_at a) (opened_at b) || opened_at a == opened_at b && text_le (lot_id a) (lot_id b)

  unfoldable pub insert : A → List A → List A
  insert x [] = x ∷ []
  insert x (y ∷ ys) = if key_le x y then x ∷ y ∷ ys else y ∷ insert x ys

  -- `sorted(lots, key=…)`, which is stable
  unfoldable pub sort : List A → List A
  sort [] = []
  sort (x ∷ xs) = insert x (sort xs)

  -- `disposal_order`
  unfoldable pub disposal_order : LotSelectionPolicy → List A → Result LotSelectionError (List A)
  disposal_order policy lots =
      if not (supported policy.method) then err unsupported_lot_selection_policy else ok (sort lots)
