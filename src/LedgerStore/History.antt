-- ===== src/LedgerStore/History.antt =====
-- Sequences of writes on the store of agent/ledger_store.py: the internal ledger stays one that was
-- built by its calls, and the file gives the store back.
use investmentagent.Prelude.{
  ℕ, ◌≡◌, refl, Bool, false, List, [], ◌∷◌, arith, Result, ok, err, Result-cases, ◌⊎◌, inl, inr,
  Option-cases, Bool-cases, any, str_eq, >>-eq-ok, raise_if,
}
use investmentagent.Prelude.Int.{ℤ, pos, ◌-ℤ◌}
use investmentagent.MarketCalendar.{Zone}
use investmentagent.Ledger.Records.{Fill, CashAdjustment, OpeningBalanceCorrection, OrderRecord}
use investmentagent.Ledger.{
  Ledger, record_fill, record_cash_adjustment, record_opening_balance_correction,
  record_order_status, settled_cash,
}
use investmentagent.LedgerStore.Built.{
  Built, record_fill-Built, record_order_status-Built, record_cash_adjustment-Built,
  record_opening_balance_correction-Built, record_order_status-shape, record_cash_adjustment-shape,
  record_opening_balance_correction-shape,
}
use investmentagent.LedgerStore.Indexed.{
  Indexed, record_fill-Indexed, record_order_status-Indexed, record_cash_adjustment-Indexed,
  record_opening_balance_correction-Indexed, record_fill-again, record_cash_adjustment-again,
  record_opening_balance_correction-again,
}
use investmentagent.Ledger.Soundness.{record_fill-cases}
use investmentagent.LedgerStore.{
  LedgerStore, LedgerStoreError, Row, fill, order_record, cash_adjustment,
  opening_balance_correction, write_opening_balance, seed_opening_balance_from_broker, write_fill,
  write_order_record, write_cash_adjustment, write_opening_balance_correction, load_row,
  set_opening, persisted, write_once, traded_unseeded, already_traded,
}

pub data Call : Type 0 where
  opens seeds : ℤ → ℕ → Call
  fills : Fill → Call
  orders : OrderRecord → Call
  adjusts : CashAdjustment → Call
  corrects : OpeningBalanceCorrection → Call

module _ (zone : Zone) where
  unfoldable pub step : Call → LedgerStore → Result LedgerStoreError LedgerStore
  step (opens amount at) s = write_opening_balance s amount at
  step (seeds amount now) s = seed_opening_balance_from_broker zone s amount now
  step (fills f) s = write_fill s f
  step (orders r) s = write_order_record s r
  step (adjusts a) s = write_cash_adjustment s a
  step (corrects c) s = write_opening_balance_correction s c

  abbrev after : LedgerStore → Result LedgerStoreError LedgerStore → LedgerStore
  after s (ok s') = s'
  after s (err e) = s

  -- the store after the calls; one that raises changes nothing
  unfoldable pub run : List Call → LedgerStore → LedgerStore
  run [] s = s
  run (c ∷ cs) s = run cs (after s (step c s))

-- an internal ledger that its own calls have built, with the placeholder as its opening balance
abbrev pub Grounded : Ledger → Type 0
Grounded l = Built l × Indexed l × (l.opening_settled_cash ≡ pos 0)

-- What a write that returns does: it takes a record into the ledger, with or without a row, or sets
-- the opening balance, or nothing.
pub data Effect (s : LedgerStore) : LedgerStore → Type 0 where
  kept : Effect s s
  opened : (amount : ℤ) (at : ℕ) → Effect s (set_opening s amount at)
  took :
      (row : Row) (known : Bool) (l : Ledger)
      → load_row s row ≡ ok (record s { internal = l })
      → ((known ≡ false) ⊎ (l ≡ s.internal))
      → Grounded l
      → Effect s (persisted s known row l)

opening-Effect :
    (s s' : LedgerStore) (amount : ℤ) (at : ℕ)
    → write_once s amount at s.opening ≡ ok s'
    → Effect s s'
opening-Effect s s' amount at h = elim (Option-cases s.opening) [
  | inl unset ↦
      let e : set_opening s amount at ≡ s' = ground (arith, unset, h) in rw (← e) (opened amount at)
  | inr (known, set) ↦ let e : s ≡ s' = ground (arith, set, h) in rw (← e) kept
]

opens-Effect :
    (s s' : LedgerStore) (amount : ℤ) (at : ℕ)
    → write_opening_balance s amount at ≡ ok s'
    → Effect s s'
unfolding write_opening_balance
opens-Effect s s' amount at h = opening-Effect s s' amount at (
    >>-eq-ok (raise_if (traded_unseeded s.opening s.internal.fills) already_traded)
      (write_once s amount at s.opening) h)

seeds-Effect :
    (zone : Zone) (s s' : LedgerStore) (amount : ℤ) (now : ℕ)
    → seed_opening_balance_from_broker zone s amount now ≡ ok s'
    → Effect s s'
unfolding seed_opening_balance_from_broker
seeds-Effect zone s s' amount now h = elim (Result-cases (settled_cash zone s.internal now)) [
  | inl (effect, e) ↦ opening-Effect s s' (amount -ℤ effect) now (ground (arith, e, h))
  | inr (x, e) ↦ absurd (ground (arith, e, h))
]

fills-Effect :
    (s s' : LedgerStore) (f : Fill) → Grounded s.internal → write_fill s f ≡ ok s' → Effect s s'
unfolding write_fill load_row
fills-Effect s s' f (built, known, zeroed) h = elim (Result-cases (record_fill s.internal f)) [
  | inr (x, e) ↦ absurd (ground (arith, e, h))
  | inl (l, e) ↦
      let there = any (λ (g : Fill). str_eq g.fill_id f.fill_id) s.internal.fills in
      let done : persisted s there (fill f) l ≡ s' = ground (arith, e, h) in
      rw (← done) (
        took (fill f) there l (rw e refl)
          (elim (Bool-cases there) [
            | inl old ↦ inr (record_fill-again s.internal l f e known old)
            | inr new ↦ inl new
          ])
          (
            record_fill-Built s.internal l f e built,
            record_fill-Indexed s.internal l f e known,
            elim (record_fill-cases s.internal l f e) [
              | inl same ↦ rw same zeroed
              | inr (more, checked) ↦ rw more zeroed
            ],
          ))
]

orders-Effect :
    (s s' : LedgerStore) (r : OrderRecord)
    → Grounded s.internal
    → write_order_record s r ≡ ok s'
    → Effect s s'
unfolding write_order_record load_row
orders-Effect s s' r (built, known, zeroed) h =
    elim (Result-cases (record_order_status s.internal r)) [
      | inr (x, e) ↦ absurd (ground (arith, e, h))
      | inl (l, e) ↦
          let done : persisted s false (order_record r) l ≡ s' = ground (arith, e, h) in
          rw (← done) (
            took (order_record r) false l (rw e refl) (inl refl) (
              record_order_status-Built s.internal l r e built,
              record_order_status-Indexed s.internal l r e known,
              rw (record_order_status-shape s.internal l r e) zeroed,
            ))
    ]

adjusts-Effect :
    (s s' : LedgerStore) (a : CashAdjustment)
    → Grounded s.internal
    → write_cash_adjustment s a ≡ ok s'
    → Effect s s'
unfolding write_cash_adjustment load_row
adjusts-Effect s s' a (built, known, zeroed) h =
    elim (Result-cases (record_cash_adjustment s.internal a)) [
      | inr (x, e) ↦ absurd (ground (arith, e, h))
      | inl (l, e) ↦
          let there =
            any (λ (b : CashAdjustment). str_eq b.adjustment_id a.adjustment_id)
              s.internal.cash_adjustments in
          let done : persisted s there (cash_adjustment a) l ≡ s' = ground (arith, e, h) in
          rw (← done) (
            took (cash_adjustment a) there l (rw e refl)
              (elim (Bool-cases there) [
                | inl old ↦ inr (record_cash_adjustment-again s.internal l a e known old)
                | inr new ↦ inl new
              ])
              (
                record_cash_adjustment-Built s.internal l a e built,
                record_cash_adjustment-Indexed s.internal l a e known,
                elim (record_cash_adjustment-shape s.internal l a e) [
                  | inl same ↦ rw same zeroed
                  | inr more ↦ rw more zeroed
                ],
              ))
    ]

corrects-Effect :
    (s s' : LedgerStore) (c : OpeningBalanceCorrection)
    → Grounded s.internal
    → write_opening_balance_correction s c ≡ ok s'
    → Effect s s'
unfolding write_opening_balance_correction load_row
corrects-Effect s s' c (built, known, zeroed) h =
    elim (Result-cases (record_opening_balance_correction s.internal c)) [
      | inr (x, e) ↦ absurd (ground (arith, e, h))
      | inl (l, e) ↦
          let there =
            any (λ (d : OpeningBalanceCorrection). str_eq d.correction_id c.correction_id)
              s.internal.opening_balance_corrections in
          let done : persisted s there (opening_balance_correction c) l ≡ s' =
            ground (arith, e, h) in
          rw (← done) (
            took (opening_balance_correction c) there l (rw e refl)
              (elim (Bool-cases there) [
                | inl old ↦ inr (record_opening_balance_correction-again s.internal l c e known old)
                | inr new ↦ inl new
              ])
              (
                record_opening_balance_correction-Built s.internal l c e built,
                record_opening_balance_correction-Indexed s.internal l c e known,
                elim (record_opening_balance_correction-shape s.internal l c e) [
                  | inl same ↦ rw same zeroed
                  | inr more ↦ rw more zeroed
                ],
              ))
    ]

pub step-Effect :
    (zone : Zone) (c : Call) (s s' : LedgerStore)
    → Grounded s.internal
    → step zone c s ≡ ok s'
    → Effect s s'
unfolding step
step-Effect zone (opens amount at) s s' g h = opens-Effect s s' amount at h
step-Effect zone (seeds amount now) s s' g h = seeds-Effect zone s s' amount now h
step-Effect zone (fills f) s s' g h = fills-Effect s s' f g h
step-Effect zone (orders r) s s' g h = orders-Effect s s' r g h
step-Effect zone (adjusts a) s s' g h = adjusts-Effect s s' a g h
step-Effect zone (corrects c) s s' g h = corrects-Effect s s' c g h
