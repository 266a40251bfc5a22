-- ===== src/Ledger/Frames.antt =====
-- How each call of agent/ledger.py changes the lists of records: it adds one record to its own list
-- or none, and leaves the other lists as they are.
use investmentagent.Prelude.{
  ◌≡◌, refl, sym, ap, ◌∙◌, ◌⊎◌, inl, inr, some, List, [], ◌∷◌, ◌++◌, arith, Result, ok,
  Result-cases, Option-cases, ◌>>=◌, ok-injective, >>=-eq-ok,
}
use investmentagent.Prelude.Dict.{get}
use investmentagent.Ledger.Records.{Fill, CashAdjustment, OpeningBalanceCorrection, OrderRecord}
use investmentagent.Ledger.{
  Ledger, LedgerError, record_fill, record_each, record_cash_adjustment,
  record_opening_balance_correction, record_order_status,
}
use investmentagent.Ledger.Soundness.{record_fill-cases}

module _ {X : Type 0} (write : Ledger → X → Result LedgerError Ledger) where
  pub record_each-append :
      (l : Ledger) (xs : List X) (x : X)
      → record_each write l (xs ++ x ∷ []) ≡ (record_each write l xs >>= λ l'. write l' x)
  unfolding record_each
  record_each-append l [] x = elim (Result-cases (write l x)) [
    | inl (l', written) ↦ rw written refl
    | inr (e, failed) ↦ rw failed refl
  ]
  record_each-append l (y ∷ xs) x = elim (Result-cases (write l y)) [
    | inl (l', written) ↦ rw written (record_each-append l' xs x)
    | inr (e, failed) ↦ rw failed refl
  ]

  -- what every call keeps is kept by the loop
  pub record_each-keeps :
      (P : Ledger → Type 0)
      → ((l l' : Ledger) (x : X) → write l x ≡ ok l' → P l → P l')
      → (l l' : Ledger) (xs : List X) → record_each write l xs ≡ ok l'
      → P l
      → P l'
  unfolding record_each
  record_each-keeps P step l l' [] h p = rw (sym (ok-injective h)) p
  record_each-keeps P step l l' (x ∷ xs) h p =
      (let (next, written, rest) = >>=-eq-ok (write l x) (λ m. record_each write m xs) h in
        record_each-keeps P step next l' xs rest (step l next x written p))

  module _ (records : Ledger → List X) where
    -- a call leaves the ledger as it is or adds its record to the list
    abbrev pub Grows : Type 0
    Grows =
        (l l' : Ledger) (x : X) → write l x ≡ ok l' → (l' ≡ l) ⊎ (records l' ≡ records l ++ x ∷ [])

    abbrev pub Rebuilt : Ledger → Ledger → Type 0
    Rebuilt base l = record_each write base (records l) ≡ ok l

    step-Rebuilt :
        Grows → (base l l' : Ledger) (x : X) → write l x ≡ ok l' → Rebuilt base l → Rebuilt base l'
    step-Rebuilt grows base l l' x h rebuilt = elim (grows l l' x h) [
      | inl same ↦ rw same rebuilt
      | inr grown ↦
          rw grown
            (record_each-append base (records l) x ∙ ap (λ r. r >>= λ m. write m x) rebuilt ∙ h)
    ]

    pub record_each-Rebuilt :
        Grows
        → (base l : Ledger) (xs : List X) → records base ≡ []
        → record_each write base xs ≡ ok l
        → Rebuilt base l
    unfolding record_each
    record_each-Rebuilt grows base l xs empty h =
        record_each-keeps (Rebuilt base) (step-Rebuilt grows base) base l xs h (rw empty refl)

pub fills-Grows : Grows record_fill (λ (l : Ledger). l.fills)
fills-Grows l l' f h = elim (record_fill-cases l l' f h) [
  | inl same ↦ inl same
  | inr (grown, checked) ↦ inr (rw grown refl)
]

pub orders-Grows : Grows record_order_status (λ (l : Ledger). l.order_records)
unfolding record_order_status
orders-Grows l l' r h = inr (ground (arith, h))

pub adjustments-Grows : Grows record_cash_adjustment (λ (l : Ledger). l.cash_adjustments)
unfolding record_cash_adjustment
adjustments-Grows l l' a h = elim (Option-cases (get l.cash_adjustment_ids a.adjustment_id)) [
  | inl fresh ↦ inr (ground (arith, h, fresh))
  | inr (existing, known) ↦ inl (ground (arith, h, known))
]

pub corrections-Grows :
    Grows record_opening_balance_correction (λ (l : Ledger). l.opening_balance_corrections)
unfolding record_opening_balance_correction
corrections-Grows l l' c h =
    elim (Option-cases (get l.opening_balance_correction_ids c.correction_id)) [
      | inl fresh ↦ inr (ground (arith, h, fresh))
      | inr (existing, known) ↦ inl (ground (arith, h, known))
    ]

-- the lists that a call on one of the others leaves as they are
abbrev pub fills_of : Ledger → List Fill
fills_of l = l.fills

abbrev pub orders_of : Ledger → List OrderRecord
orders_of l = l.order_records

abbrev pub adjustments_of : Ledger → List CashAdjustment
adjustments_of l = l.cash_adjustments

abbrev pub corrections_of : Ledger → List OpeningBalanceCorrection
corrections_of l = l.opening_balance_corrections

abbrev pub Same : {X : Type 0} → (Ledger → X) → Ledger → Ledger → Type 0
Same part l l' = part l' ≡ part l

pub fill_frame :
    (l l' : Ledger) (f : Fill)
    → record_fill l f ≡ ok l'
    → Same orders_of l l' × Same adjustments_of l l' × Same corrections_of l l'
fill_frame l l' f h = elim (record_fill-cases l l' f h) [
  | inl same ↦ rw same (refl, refl, refl)
  | inr (grown, checked) ↦ rw grown (refl, refl, refl)
]

pub order_frame :
    (l l' : Ledger) (r : OrderRecord)
    → record_order_status l r ≡ ok l'
    → Same fills_of l l'
      × Same adjustments_of l l'
      × Same corrections_of l l'
      × Same (λ (m : Ledger). m.account_id) l l'
unfolding record_order_status
order_frame l l' r h = (ground (arith, h), ground (arith, h), ground (arith, h), ground (arith, h))

pub adjustment_frame :
    (l l' : Ledger) (a : CashAdjustment)
    → record_cash_adjustment l a ≡ ok l'
    → Same fills_of l l'
      × Same orders_of l l'
      × Same corrections_of l l'
      × Same (λ (m : Ledger). m.account_id) l l'
unfolding record_cash_adjustment
adjustment_frame l l' a h = elim (Option-cases (get l.cash_adjustment_ids a.adjustment_id)) [
  | inl fresh ↦ (
    ground (arith, h, fresh),
    ground (arith, h, fresh),
    ground (arith, h, fresh),
    ground (arith, h, fresh),
  )
  | inr (existing, known) ↦ rw (same_ledger known) (refl, refl, refl, refl)
]
  where
    same_ledger :
        {existing : CashAdjustment}
        → get l.cash_adjustment_ids a.adjustment_id ≡ some existing
        → l' ≡ l
    same_ledger known = ground (arith, h, known)

pub correction_frame :
    (l l' : Ledger) (c : OpeningBalanceCorrection)
    → record_opening_balance_correction l c ≡ ok l'
    → Same fills_of l l'
      × Same orders_of l l'
      × Same adjustments_of l l'
      × Same (λ (m : Ledger). m.account_id) l l'
unfolding record_opening_balance_correction
correction_frame l l' c h =
    elim (Option-cases (get l.opening_balance_correction_ids c.correction_id)) [
      | inl fresh ↦ (
        ground (arith, h, fresh),
        ground (arith, h, fresh),
        ground (arith, h, fresh),
        ground (arith, h, fresh),
      )
      | inr (existing, known) ↦ rw (same_ledger known) (refl, refl, refl, refl)
    ]
  where
    same_ledger :
        {existing : OpeningBalanceCorrection}
        → get l.opening_balance_correction_ids c.correction_id ≡ some existing
        → l' ≡ l
    same_ledger known = ground (arith, h, known)

pub kept :
    {X T : Type 0} (part : Ledger → T) (write : Ledger → X → Result LedgerError Ledger)
    → ((l l' : Ledger) (x : X) → write l x ≡ ok l' → Same part l l')
    → (l l' : Ledger) (xs : List X) → record_each write l xs ≡ ok l'
    → Same part l l'
kept part write frame l l' xs h =
    record_each-keeps write (Same part l) (λ m m' x written before. frame m m' x written ∙ before) l
      l' xs h refl
