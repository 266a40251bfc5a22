-- ===== src/LedgerStore/Indexed.antt =====
-- The tables of ids in the ledger of agent/ledger.py know every record of its lists, so that a second
-- write of one leaves the ledger as it is.
use investmentagent.Prelude.{
  String, ◌≡◌, true, List, [], ◌∷◌, ◌++◌, arith, ok, inl, inr, Option-cases, Bool-cases, All, any,
  str_eq, eq_iff,
}
use investmentagent.Prelude.Dict.{Dict, get, put, contains, get-put, get-put_self}
use investmentagent.Ledger.Records.{Fill, CashAdjustment, OpeningBalanceCorrection, OrderRecord}
use investmentagent.Ledger.{
  Ledger, record_fill, record_cash_adjustment, record_opening_balance_correction,
  record_order_status,
}
use investmentagent.Ledger.Soundness.{record_fill-cases}
use investmentagent.LedgerStore.Built.{
  record_order_status-shape, record_cash_adjustment-shape, record_opening_balance_correction-shape,
}

module _ {X : Type 0} (key : X → String) where
  -- the table has the id of every record of the list
  abbrev pub Knows : Dict X → List X → Type 0
  Knows ids xs = All (λ x. contains ids (key x) ≡ true) xs

  Knows-append :
      (ids : Dict X) (xs : List X) (x : X) → Knows ids xs → Knows (put ids (key x) x) (xs ++ x ∷ [])
  Knows-append ids [] x h = (ground (arith, get-put_self ids (key x) x), tt)
  Knows-append ids (y ∷ xs) x (own, h) =
      (ground (arith, get-put ids (key x) (key y) x, own), Knows-append ids xs x h)

  pub any-known :
      (ids : Dict X) (xs : List X) (k : String)
      → any (λ x. str_eq (key x) k) xs ≡ true
      → Knows ids xs
      → contains ids k ≡ true
  any-known ids [] k h known = cc
  any-known ids (y ∷ xs) k h (own, known) = elim (Bool-cases (str_eq (key y) k)) [
    | inl same ↦ rw (← (eq_iff (key y) k).0 same) own
    | inr other ↦ any-known ids xs k (ground (arith, other, h)) known
  ]

abbrev fill_key : Fill → String
fill_key f = f.fill_id

abbrev adjustment_key : CashAdjustment → String
adjustment_key a = a.adjustment_id

abbrev correction_key : OpeningBalanceCorrection → String
correction_key c = c.correction_id

abbrev pub Indexed : Ledger → Type 0
Indexed l =
    Knows fill_key l.fill_ids l.fills
    × Knows adjustment_key l.cash_adjustment_ids l.cash_adjustments
    × Knows correction_key l.opening_balance_correction_ids l.opening_balance_corrections

pub record_fill-Indexed :
    (l l' : Ledger) (f : Fill) → record_fill l f ≡ ok l' → Indexed l → Indexed l'
record_fill-Indexed l l' f h (fs, xs, cs) = elim (record_fill-cases l l' f h) [
  | inl same ↦ rw same (fs, xs, cs)
  | inr (more, checked) ↦ rw more (Knows-append fill_key l.fill_ids l.fills f fs, xs, cs)
]

pub record_order_status-Indexed :
    (l l' : Ledger) (r : OrderRecord) → record_order_status l r ≡ ok l' → Indexed l → Indexed l'
record_order_status-Indexed l l' r h known = rw (record_order_status-shape l l' r h) known

pub record_cash_adjustment-Indexed :
    (l l' : Ledger) (a : CashAdjustment)
    → record_cash_adjustment l a ≡ ok l'
    → Indexed l
    → Indexed l'
record_cash_adjustment-Indexed l l' a h (fs, xs, cs) =
    elim (record_cash_adjustment-shape l l' a h) [
      | inl same ↦ rw same (fs, xs, cs)
      | inr more ↦
          rw more
            (fs, Knows-append adjustment_key l.cash_adjustment_ids l.cash_adjustments a xs, cs)
    ]

pub record_opening_balance_correction-Indexed :
    (l l' : Ledger) (c : OpeningBalanceCorrection)
    → record_opening_balance_correction l c ≡ ok l'
    → Indexed l
    → Indexed l'
record_opening_balance_correction-Indexed l l' c h (fs, xs, cs) =
    elim (record_opening_balance_correction-shape l l' c h) [
      | inl same ↦ rw same (fs, xs, cs)
      | inr more ↦ rw more (
        fs,
        xs,
        Knows-append correction_key l.opening_balance_correction_ids l.opening_balance_corrections c
            cs,
      )
    ]

-- a second write of a known record
pub record_fill-again :
    (l l' : Ledger) (f : Fill)
    → record_fill l f ≡ ok l'
    → Indexed l
    → any (λ (g : Fill). str_eq g.fill_id f.fill_id) l.fills ≡ true
    → l' ≡ l
unfolding record_fill
record_fill-again l l' f h known there =
    let has = any-known fill_key l.fill_ids l.fills f.fill_id there known.0 in
    elim (Option-cases (get l.fill_ids f.fill_id)) [
      | inl new ↦ absurd (ground (arith, new, has))
      | inr (g, old) ↦ ground (arith, old, h)
    ]

pub record_cash_adjustment-again :
    (l l' : Ledger) (a : CashAdjustment)
    → record_cash_adjustment l a ≡ ok l'
    → Indexed l
    → any (λ (b : CashAdjustment). str_eq b.adjustment_id a.adjustment_id) l.cash_adjustments ≡ true
    → l' ≡ l
unfolding record_cash_adjustment
record_cash_adjustment-again l l' a h known there =
    let has =
      any-known adjustment_key l.cash_adjustment_ids l.cash_adjustments a.adjustment_id there
        known.1 in
    elim (Option-cases (get l.cash_adjustment_ids a.adjustment_id)) [
      | inl new ↦ absurd (ground (arith, new, has))
      | inr (b, old) ↦ ground (arith, old, h)
    ]

pub record_opening_balance_correction-again :
    (l l' : Ledger) (c : OpeningBalanceCorrection)
    → record_opening_balance_correction l c ≡ ok l'
    → Indexed l
    → any
        (λ (d : OpeningBalanceCorrection). str_eq d.correction_id c.correction_id)
        l.opening_balance_corrections
      ≡ true
    → l' ≡ l
unfolding record_opening_balance_correction
record_opening_balance_correction-again l l' c h known there =
    let has =
      any-known correction_key l.opening_balance_correction_ids l.opening_balance_corrections
        c.correction_id there known.2 in
    elim (Option-cases (get l.opening_balance_correction_ids c.correction_id)) [
      | inl new ↦ absurd (ground (arith, new, has))
      | inr (d, old) ↦ ground (arith, old, h)
    ]
