-- ===== src/LedgerStore/Built.antt =====
-- A ledger that the calls of agent/ledger.py have built, in any order, holds each of its lists as
-- the calls on that list alone would have left it.
use investmentagent.Prelude.{
  ◌≡◌, ap, ◌∙◌, List, [], ◌∷◌, ◌++◌, arith, Result, ok, ◌>>=◌, ◌⊎◌, inl, inr, Option-cases,
}
use investmentagent.Prelude.Int.{pos}
use investmentagent.Prelude.Dict.{get, put}
use investmentagent.Ledger.Records.{Fill, CashAdjustment, OpeningBalanceCorrection, OrderRecord}
use investmentagent.Ledger.{
  Ledger, LedgerError, record_fill, record_each, record_cash_adjustment,
  record_opening_balance_correction, record_order_status,
}
use investmentagent.Ledger.Soundness.{record_fill-cases}
use investmentagent.Ledger.Frames.{record_each-append}
use investmentagent.LedgerStore.Commute.{
  Parts, outside_fills, outside_orders, outside_adjustments, outside_corrections,
  record_fill-commutes, record_order_status-commutes, record_cash_adjustment-commutes,
  record_opening_balance_correction-commutes, map_ok,
}

-- no records
abbrev pub blank : Parts
blank = record {
  opening = pos 0;
  positions = [];
  fills = [];
  fill_ids = [];
  orders = [];
  adjustments = [];
  adjustment_ids = [];
  corrections = [];
  correction_ids = [];
}

abbrev pub base_of : Ledger → Ledger
base_of l = outside_fills blank (outside_orders blank l)

abbrev pub Built : Ledger → Type 0
Built l =
    (record_each record_fill (base_of l) l.fills ≡ ok (outside_fills blank l))
    × (record_each record_order_status (base_of l) l.order_records ≡ ok (outside_orders blank l))
    × (record_each record_cash_adjustment (base_of l) l.cash_adjustments
        ≡ ok (outside_adjustments blank l))
    × (record_each record_opening_balance_correction (base_of l) l.opening_balance_corrections
        ≡ ok (outside_corrections blank l))

pub record_order_status-shape :
    (l l' : Ledger) (r : OrderRecord)
    → record_order_status l r ≡ ok l'
    → l' ≡ record l { order_records = l.order_records ++ r ∷ [] }
unfolding record_order_status
record_order_status-shape l l' r h = ground (arith, h)

abbrev pub with_adjustment : Ledger → CashAdjustment → Ledger
with_adjustment l a = record l {
  cash_adjustments = l.cash_adjustments ++ a ∷ [];
  cash_adjustment_ids = put l.cash_adjustment_ids a.adjustment_id a;
}

pub record_cash_adjustment-shape :
    (l l' : Ledger) (a : CashAdjustment)
    → record_cash_adjustment l a ≡ ok l'
    → (l' ≡ l) ⊎ (l' ≡ with_adjustment l a)
unfolding record_cash_adjustment
record_cash_adjustment-shape l l' a h =
    elim (Option-cases (get l.cash_adjustment_ids a.adjustment_id)) [
      | inl new ↦ inr (ground (arith, new, h))
      | inr (b, known) ↦ inl (ground (arith, known, h))
    ]

abbrev pub with_correction : Ledger → OpeningBalanceCorrection → Ledger
with_correction l c = record l {
  opening_balance_corrections = l.opening_balance_corrections ++ c ∷ [];
  opening_balance_correction_ids = put l.opening_balance_correction_ids c.correction_id c;
}

pub record_opening_balance_correction-shape :
    (l l' : Ledger) (c : OpeningBalanceCorrection)
    → record_opening_balance_correction l c ≡ ok l'
    → (l' ≡ l) ⊎ (l' ≡ with_correction l c)
unfolding record_opening_balance_correction
record_opening_balance_correction-shape l l' c h =
    elim (Option-cases (get l.opening_balance_correction_ids c.correction_id)) [
      | inl new ↦ inr (ground (arith, new, h))
      | inr (d, known) ↦ inl (ground (arith, known, h))
    ]

module _ {X : Type 0} (write : Ledger → X → Result LedgerError Ledger) (c : Ledger → Ledger) where
  -- one more record, written on the own part alone
  extended :
      ((l : Ledger) (x : X) → write (c l) x ≡ map_ok c (write l x))
      → (base l l' : Ledger) (xs : List X) (x : X) → record_each write base xs ≡ ok (c l)
      → write l x ≡ ok l'
      → record_each write base (xs ++ x ∷ []) ≡ ok (c l')
  extended commutes base l l' xs x before h =
      record_each-append write base xs x
      ∙ ap (λ r. r >>= λ m. write m x) before
      ∙ commutes l x
      ∙ ap (map_ok c) h

pub record_fill-Built : (l l' : Ledger) (f : Fill) → record_fill l f ≡ ok l' → Built l → Built l'
record_fill-Built l l' f h (fs, rs, xs, cs) = elim (record_fill-cases l l' f h) [
  | inl same ↦ rw same (fs, rs, xs, cs)
  | inr (more, checked) ↦
      let own =
        extended record_fill (outside_fills blank) (record_fill-commutes blank) (base_of l) l l'
          l.fills f fs h in
      rw more (rw more at own, rs, xs, cs)
]

pub record_order_status-Built :
    (l l' : Ledger) (r : OrderRecord) → record_order_status l r ≡ ok l' → Built l → Built l'
record_order_status-Built l l' r h (fs, rs, xs, cs) =
    let more = record_order_status-shape l l' r h in
    let own =
      extended record_order_status (outside_orders blank) (record_order_status-commutes blank)
        (base_of l) l l' l.order_records r rs h in
    rw more (fs, rw more at own, xs, cs)

pub record_cash_adjustment-Built :
    (l l' : Ledger) (a : CashAdjustment) → record_cash_adjustment l a ≡ ok l' → Built l → Built l'
record_cash_adjustment-Built l l' a h (fs, rs, xs, cs) =
    elim (record_cash_adjustment-shape l l' a h) [
      | inl same ↦ rw same (fs, rs, xs, cs)
      | inr more ↦
          let own =
            extended record_cash_adjustment (outside_adjustments blank)
              (record_cash_adjustment-commutes blank) (base_of l) l l' l.cash_adjustments a xs h in
          rw more (fs, rs, rw more at own, cs)
    ]

pub record_opening_balance_correction-Built :
    (l l' : Ledger) (c : OpeningBalanceCorrection)
    → record_opening_balance_correction l c ≡ ok l'
    → Built l
    → Built l'
record_opening_balance_correction-Built l l' c h (fs, rs, xs, cs) =
    elim (record_opening_balance_correction-shape l l' c h) [
      | inl same ↦ rw same (fs, rs, xs, cs)
      | inr more ↦
          let own =
            extended record_opening_balance_correction (outside_corrections blank)
              (record_opening_balance_correction-commutes blank) (base_of l) l l'
              l.opening_balance_corrections c cs h in
          rw more (fs, rs, xs, rw more at own)
    ]
