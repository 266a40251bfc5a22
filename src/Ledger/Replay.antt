-- ===== src/Ledger/Replay.antt =====
-- A ledger of agent/ledger.py is rebuilt from its own records: `from_records` on the lists that it
-- holds, and its soundness after any calls.
use investmentagent.Prelude.{
  ℕ, String, ◌≡◌, sym, ap, ◌∙◌, inl, inr, List, [], arith, Result, ok, Result-cases, ◌>>=◌,
  >>=-eq-ok,
}
use investmentagent.Prelude.Int.{ℤ}
use investmentagent.Prelude.Dict.{Dict}
use investmentagent.Holding as holding
use investmentagent.LotSelection.{LotSelectionPolicy}
use investmentagent.Ledger.Records.{Fill, CashAdjustment, OpeningBalanceCorrection, OrderRecord}
use investmentagent.Ledger.{
  Ledger, LedgerError, sum_qty, record_fill, record_each, from_records, new_ledger,
  record_cash_adjustment, record_opening_balance_correction, record_order_status,
}
use investmentagent.Ledger.Soundness.{IsSound, purchases, record_fill-IsSound}
use investmentagent.Ledger.Frames.{
  record_each-keeps, record_each-Rebuilt, fills-Grows, orders-Grows, adjustments-Grows,
  corrections-Grows, fill_frame, order_frame, adjustment_frame, correction_frame, kept, fills_of,
  orders_of, adjustments_of, corrections_of, Same,
}

-- the four stages of `from_records`
from_records-stages :
    (base l : Ledger)
    → (fs : List Fill) → (rs : List OrderRecord) → (xs : List CashAdjustment)
    → (cs : List OpeningBalanceCorrection) → from_records (ok base) fs rs xs cs ≡ ok l
    → (l1 : Ledger) × (l2 : Ledger) × (l3 : Ledger) × (record_each record_fill base fs ≡ ok l1)
      × (record_each record_order_status l1 rs ≡ ok l2)
      × (record_each record_cash_adjustment l2 xs ≡ ok l3)
      × (record_each record_opening_balance_correction l3 cs ≡ ok l)
unfolding from_records
from_records-stages base l fs rs xs cs h =
    let (l1, h1, r1) =
      >>=-eq-ok (record_each record_fill base fs)
        (λ m. record_each record_order_status m rs >>= λ m.
          record_each record_cash_adjustment m xs >>= λ m.
          record_each record_opening_balance_correction m cs)
        h in
    let (l2, h2, r2) =
      >>=-eq-ok (record_each record_order_status l1 rs)
        (λ m. record_each record_cash_adjustment m xs >>= λ m.
          record_each record_opening_balance_correction m cs)
        r1 in
    let (l3, h3, h4) =
      >>=-eq-ok (record_each record_cash_adjustment l2 xs)
        (λ m. record_each record_opening_balance_correction m cs) r2 in
    (l1, l2, l3, h1, h2, h3, h4)

carry-IsSound :
    (l l' : Ledger)
    → Same fills_of l l'
    → Same (λ (m : Ledger). m.account_id) l l'
    → IsSound l
    → IsSound l'
carry-IsSound l l' fills account (proper, covered) = (rw (fills, account) proper, rw fills covered)

empty-IsSound : (l : Ledger) → l.fills ≡ [] → IsSound l
unfolding purchases sum_qty
empty-IsSound l empty = rw empty (tt, λ lot_id. (omega arith, omega arith))

-- a ledger with no records yet
abbrev IsFresh : Ledger → Type 0
IsFresh l =
    (l.fills ≡ [])
    × (l.order_records ≡ [])
    × (l.cash_adjustments ≡ [])
    × (l.opening_balance_corrections ≡ [])

module _ (base l1 l2 l3 l : Ledger) (fs : List Fill) (rs : List OrderRecord)
    (xs : List CashAdjustment) (cs : List OpeningBalanceCorrection)
    (h1 : record_each record_fill base fs ≡ ok l1)
    (h2 : record_each record_order_status l1 rs ≡ ok l2)
    (h3 : record_each record_cash_adjustment l2 xs ≡ ok l3)
    (h4 : record_each record_opening_balance_correction l3 cs ≡ ok l) (fresh : IsFresh base) where
  rebuilt_fills : record_each record_fill base l.fills ≡ ok l1
  rebuilt_fills =
      rw
        (kept fills_of record_opening_balance_correction (λ m m' c w. (correction_frame m m' c w).0)
          l3 l cs h4)
        (rw
          (kept fills_of record_cash_adjustment (λ m m' a w. (adjustment_frame m m' a w).0) l2 l3 xs
            h3)
          (rw (kept fills_of record_order_status (λ m m' r w. (order_frame m m' r w).0) l1 l2 rs h2)
            (record_each-Rebuilt record_fill fills_of fills-Grows base l1 fs fresh.0 h1)))

  rebuilt_orders : record_each record_order_status l1 l.order_records ≡ ok l2
  rebuilt_orders =
      rw
        (kept orders_of record_opening_balance_correction
          (λ m m' c w. (correction_frame m m' c w).1) l3 l cs h4)
        (rw
          (kept orders_of record_cash_adjustment (λ m m' a w. (adjustment_frame m m' a w).1) l2 l3
            xs h3)
          (record_each-Rebuilt record_order_status orders_of orders-Grows l1 l2 rs
            (kept orders_of record_fill (λ m m' f w. (fill_frame m m' f w).0) base l1 fs h1
              ∙ fresh.1)
            h2))

  rebuilt_adjustments : record_each record_cash_adjustment l2 l.cash_adjustments ≡ ok l3
  rebuilt_adjustments =
      rw
        (kept adjustments_of record_opening_balance_correction
          (λ m m' c w. (correction_frame m m' c w).2) l3 l cs h4)
        (record_each-Rebuilt record_cash_adjustment adjustments_of adjustments-Grows l2 l3 xs
          (kept adjustments_of record_order_status (λ m m' r w. (order_frame m m' r w).1) l1 l2 rs
              h2
            ∙ kept adjustments_of record_fill (λ m m' f w. (fill_frame m m' f w).1) base l1 fs h1
            ∙ fresh.2)
          h3)

  rebuilt_corrections :
      record_each record_opening_balance_correction l3 l.opening_balance_corrections ≡ ok l
  rebuilt_corrections =
      record_each-Rebuilt record_opening_balance_correction corrections_of corrections-Grows l3 l cs
        (kept corrections_of record_cash_adjustment (λ m m' a w. (adjustment_frame m m' a w).2) l2
            l3 xs h3
          ∙ kept corrections_of record_order_status (λ m m' r w. (order_frame m m' r w).2) l1 l2 rs
              h2
          ∙ kept corrections_of record_fill (λ m m' f w. (fill_frame m m' f w).2) base l1 fs h1
          ∙ fresh.3)
        h4

  rebuilt :
      from_records
        (ok base)
        l.fills
        l.order_records
        l.cash_adjustments
        l.opening_balance_corrections
      ≡ ok l
  unfolding from_records
  rebuilt = simp (rebuilt_fills, rebuilt_orders, rebuilt_adjustments, rebuilt_corrections)

  -- soundness of the fills comes from the first stage alone
  stages-IsSound : IsSound l
  stages-IsSound =
      record_each-keeps record_opening_balance_correction IsSound
        (λ m m' c w. carry-IsSound m m' (correction_frame m m' c w).0 (correction_frame m m' c w).3)
        l3 l cs h4
        (record_each-keeps record_cash_adjustment IsSound
          (λ m m' a w.
            carry-IsSound m m' (adjustment_frame m m' a w).0 (adjustment_frame m m' a w).3)
          l2 l3 xs h3
          (record_each-keeps record_order_status IsSound
            (λ m m' r w. carry-IsSound m m' (order_frame m m' r w).0 (order_frame m m' r w).3) l1 l2
            rs h2
            (record_each-keeps record_fill IsSound
              (λ m m' f w sound. record_fill-IsSound m m' f sound w) base l1 fs h1
              (empty-IsSound base fresh.0))))

module _ (account_id : String) (cash : ℤ) (registry : holding.Registry) (t_plus : ℕ)
    (policy : LotSelectionPolicy) (positions : Dict ℤ) where
  abbrev fresh : Result LedgerError Ledger
  fresh = new_ledger account_id cash registry t_plus policy positions

  new_ledger-IsFresh : (base : Ledger) → fresh ≡ ok base → IsFresh base
  unfolding new_ledger
  new_ledger-IsFresh base h =
      (ground (arith, h), ground (arith, h), ground (arith, h), ground (arith, h))

  begun :
      (fs : List Fill) (rs : List OrderRecord) (xs : List CashAdjustment)
      → (cs : List OpeningBalanceCorrection) (l : Ledger) → from_records fresh fs rs xs cs ≡ ok l
      → (base : Ledger) × (fresh ≡ ok base) × (from_records (ok base) fs rs xs cs ≡ ok l)
  unfolding from_records
  begun fs rs xs cs l h = elim (Result-cases fresh) [
    | inl (base, made) ↦ (base, made, sym (ap (λ r. from_records r fs rs xs cs) made) ∙ h)
    | inr (e, failed) ↦ absurd (ground (arith, h, failed))
  ]

  -- A ledger built from records is built again, the same in every field, from the lists of records
  -- that it holds.
  pub from_records-rebuilds :
      (fs : List Fill) (rs : List OrderRecord) (xs : List CashAdjustment)
      → (cs : List OpeningBalanceCorrection) (l : Ledger) → from_records fresh fs rs xs cs ≡ ok l
      → from_records fresh l.fills l.order_records l.cash_adjustments l.opening_balance_corrections
        ≡ ok l
  from_records-rebuilds fs rs xs cs l h =
      let (base, made, h') = begun fs rs xs cs l h in
      let (l1, l2, l3, h1, h2, h3, h4) = from_records-stages base l fs rs xs cs h' in
      rw made (rebuilt base l1 l2 l3 l fs rs xs cs h1 h2 h3 h4 (new_ledger-IsFresh base made))

  -- Whatever records a ledger was built from, its fills are sound: all of the account, of a known
  -- side and a positive quantity, no lot bought twice and none sold beyond what was bought.
  pub from_records-IsSound :
      (fs : List Fill) (rs : List OrderRecord) (xs : List CashAdjustment)
      → (cs : List OpeningBalanceCorrection) (l : Ledger) → from_records fresh fs rs xs cs ≡ ok l
      → IsSound l
  from_records-IsSound fs rs xs cs l h =
      let (base, made, h') = begun fs rs xs cs l h in
      let (l1, l2, l3, h1, h2, h3, h4) = from_records-stages base l fs rs xs cs h' in
      stages-IsSound base l1 l2 l3 l fs rs xs cs h1 h2 h3 h4 (new_ledger-IsFresh base made)
