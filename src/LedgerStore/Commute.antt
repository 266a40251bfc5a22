-- ===== src/LedgerStore/Commute.antt =====
-- Each call of agent/ledger.py reads and writes its own records alone, so it commutes with a change
-- of the others and of the opening balance.
use investmentagent.Prelude.{
  ◌≡◌, refl, List, [], ◌∷◌, arith, Result, ok, err, Result-cases, inl, inr,
}
use investmentagent.Prelude.Int.{ℤ}
use investmentagent.Prelude.Dict.{Dict}
use investmentagent.Ledger.Records.{Fill, CashAdjustment, OpeningBalanceCorrection, OrderRecord}
use investmentagent.Ledger.{
  Ledger, LedgerError, record_fill, record_each, record_cash_adjustment,
  record_opening_balance_correction, record_order_status, sum_qty,
}

abbrev pub map_ok {ℓ} : {E A : Type ℓ} → (A → A) → Result E A → Result E A
map_ok f (ok a) = ok (f a)
map_ok f (err e) = err e

module _ {X : Type 0} (write : Ledger → X → Result LedgerError Ledger) (c : Ledger → Ledger) where
  abbrev pub Commutes : Type 0
  Commutes = (l : Ledger) (x : X) → write (c l) x ≡ map_ok c (write l x)

  pub record_each-commutes :
      Commutes
      → (l : Ledger) (xs : List X) → record_each write (c l) xs ≡ map_ok c (record_each write l xs)
  unfolding record_each
  record_each-commutes h l [] = refl
  record_each-commutes h l (x ∷ xs) = elim (Result-cases (write l x)) [
    | inl (l', e) ↦ rw (h l x, e) (record_each-commutes h l' xs)
    | inr (r, e) ↦ rw (h l x, e) refl
  ]

-- the opening and the records of a ledger
pub record Parts : Type 0 where
  pub opening : ℤ
  pub positions : Dict ℤ
  pub fills : List Fill
  pub fill_ids : Dict Fill
  pub orders : List OrderRecord
  pub adjustments : List CashAdjustment
  pub adjustment_ids : Dict CashAdjustment
  pub corrections : List OpeningBalanceCorrection
  pub correction_ids : Dict OpeningBalanceCorrection

-- A change of all parts but the own ones of a call.
abbrev pub outside_fills : Parts → Ledger → Ledger
outside_fills p l = record l {
  opening_settled_cash = p.opening;
  opening_positions = p.positions;
  order_records = p.orders;
  cash_adjustments = p.adjustments;
  cash_adjustment_ids = p.adjustment_ids;
  opening_balance_corrections = p.corrections;
  opening_balance_correction_ids = p.correction_ids;
}

abbrev pub outside_orders : Parts → Ledger → Ledger
outside_orders p l = record l {
  opening_settled_cash = p.opening;
  opening_positions = p.positions;
  fills = p.fills;
  fill_ids = p.fill_ids;
  cash_adjustments = p.adjustments;
  cash_adjustment_ids = p.adjustment_ids;
  opening_balance_corrections = p.corrections;
  opening_balance_correction_ids = p.correction_ids;
}

abbrev pub outside_adjustments : Parts → Ledger → Ledger
outside_adjustments p l = record l {
  opening_settled_cash = p.opening;
  opening_positions = p.positions;
  fills = p.fills;
  fill_ids = p.fill_ids;
  order_records = p.orders;
  opening_balance_corrections = p.corrections;
  opening_balance_correction_ids = p.correction_ids;
}

abbrev pub outside_corrections : Parts → Ledger → Ledger
outside_corrections p l = record l {
  opening_settled_cash = p.opening;
  opening_positions = p.positions;
  fills = p.fills;
  fill_ids = p.fill_ids;
  order_records = p.orders;
  cash_adjustments = p.adjustments;
  cash_adjustment_ids = p.adjustment_ids;
}

pub record_fill-commutes : (p : Parts) → Commutes record_fill (outside_fills p)
unfolding record_fill sum_qty
record_fill-commutes p l f = ground arith

pub record_order_status-commutes : (p : Parts) → Commutes record_order_status (outside_orders p)
unfolding record_order_status
record_order_status-commutes p l r = ground arith

pub record_cash_adjustment-commutes :
    (p : Parts) → Commutes record_cash_adjustment (outside_adjustments p)
unfolding record_cash_adjustment
record_cash_adjustment-commutes p l a = ground arith

pub record_opening_balance_correction-commutes :
    (p : Parts) → Commutes record_opening_balance_correction (outside_corrections p)
unfolding record_opening_balance_correction
record_opening_balance_correction-commutes p l c = ground arith
