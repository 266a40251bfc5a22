-- ===== src/LedgerStore/Restart.antt =====
-- The restart of agent/ledger_store.py: `to_ledger` gives back the internal ledger with the opening
-- balance and positions of the store.
use investmentagent.Prelude.{◌≡◌, refl, ap, ◌∙◌, false, some, ok}
use investmentagent.Prelude.Int.{ℤ, pos, ltb_ℤ}
use investmentagent.Prelude.Dict.{Dict}
use investmentagent.Ledger.{
  Ledger, record_fill, record_each, record_cash_adjustment, record_opening_balance_correction,
  record_order_status, from_records, new_ledger,
}
use investmentagent.LedgerStore.Commute.{
  Parts, outside_fills, outside_orders, outside_adjustments, outside_corrections,
  record_fill-commutes, record_order_status-commutes, record_cash_adjustment-commutes,
  record_opening_balance_correction-commutes, map_ok, record_each-commutes,
}
use investmentagent.LedgerStore.Built.{Built, blank, base_of}
use investmentagent.LedgerStore.{LedgerStore, to_ledger}

-- the ledger with another opening
abbrev pub reopened : Ledger → ℤ → Dict ℤ → Ledger
reopened l opening positions = record l {
  opening_settled_cash = opening;
  opening_positions = positions;
}

module _ (l : Ledger) (opening : ℤ) (positions : Dict ℤ) (built : Built l) where
  abbrev p0 : Parts
  p0 = record blank { opening = opening; positions = positions }

  abbrev p1 : Parts
  p1 = record p0 { fills = l.fills; fill_ids = l.fill_ids }

  abbrev p2 : Parts
  p2 = record p1 { orders = l.order_records }

  abbrev p3 : Parts
  p3 = record p2 { adjustments = l.cash_adjustments; adjustment_ids = l.cash_adjustment_ids }

  stage1 : record_each record_fill (outside_fills p0 (base_of l)) l.fills ≡ ok (outside_fills p0 l)
  stage1 =
      record_each-commutes record_fill (outside_fills p0) (record_fill-commutes p0) (base_of l)
        l.fills
      ∙ ap (map_ok (outside_fills p0)) built.0

  stage2 :
      record_each record_order_status (outside_fills p0 l) l.order_records
      ≡ ok (outside_orders p1 l)
  stage2 =
      record_each-commutes record_order_status (outside_orders p1) (record_order_status-commutes p1)
        (base_of l) l.order_records
      ∙ ap (map_ok (outside_orders p1)) built.1

  stage3 :
      record_each record_cash_adjustment (outside_orders p1 l) l.cash_adjustments
      ≡ ok (outside_adjustments p2 l)
  stage3 =
      record_each-commutes record_cash_adjustment (outside_adjustments p2)
        (record_cash_adjustment-commutes p2) (base_of l) l.cash_adjustments
      ∙ ap (map_ok (outside_adjustments p2)) built.2

  stage4 :
      record_each record_opening_balance_correction
        (outside_adjustments p2 l)
        l.opening_balance_corrections
      ≡ ok (reopened l opening positions)
  stage4 =
      record_each-commutes record_opening_balance_correction (outside_corrections p3)
        (record_opening_balance_correction-commutes p3) (base_of l) l.opening_balance_corrections
      ∙ ap (map_ok (outside_corrections p3)) built.3

  pub from_records-Built :
      ltb_ℤ opening (pos 0) ≡ false
      → from_records
          (new_ledger l.account_id opening l.policy_registry l.t_plus l.lot_selection_policy
            positions)
          l.fills
          l.order_records
          l.cash_adjustments
          l.opening_balance_corrections
        ≡ ok (reopened l opening positions)
  unfolding from_records new_ledger
  from_records-Built h = rw h (simp (stage1, stage2, stage3, stage4))

-- The restart path works: a seeded store with an opening balance that is not negative gives back its internal ledger, the same in every record, with that balance and the seeded positions.
pub to_ledger-Built :
    (s : LedgerStore) (opening : ℤ)
    → Built s.internal
    → s.opening ≡ some opening
    → ltb_ℤ opening (pos 0) ≡ false
    → to_ledger s ≡ ok (reopened s.internal opening s.opening_positions)
unfolding to_ledger
to_ledger-Built s opening built seeded h =
    rw (seeded, from_records-Built s.internal opening s.opening_positions built h) refl
