-- ===== src/CashEvents/Turns.antt =====
-- What one turn of the loop of agent/cash_events.py does to the ledger and to the quarantine.
use mathlib.Core.Path.{ap, ◌∙◌}
use investmentagent.Prelude.{
  ◌||◌, map, [], ℕ, String, ◌≡◌, refl, true, false, any, str_eq, Option, none, some, Option-cases,
  List, ◌∷◌, ◌++◌, arith, Result, ok, err, Result-cases, inl, inr, ◌⊎◌,
}
use investmentagent.Prelude.Int.{ℤ}
use investmentagent.Prelude.Dict.{Dict, get, put, get-put}
use investmentagent.Audit.{Payload, AuditLog, AuditError}
use investmentagent.Ledger.{Ledger, record_cash_adjustment}
use investmentagent.Ledger.Records.{CashAdjustment}
use investmentagent.LedgerStore.{LedgerStore, cash_adjustment, write_cash_adjustment}
use investmentagent.LedgerStore.Built.{with_adjustment}
use investmentagent.CashQuarantine.{AccountActivity, Refusal, quarantine}
use investmentagent.CashEvents.{
  CashSyncError, CashSyncWorld, Action, skip, admit, auto_admit, hold, cash_adjustment_for, plan,
  perform, written, audit_quarantine, audit_admission, audit_auto_admission, turn,
}
use investmentagent.CashEvents.Plan.{MayApply, plan-MayApply, plan-fresh, quarantine-resolutions}

-- every adjustment that the ledger finds by its id is among the known ids
abbrev pub Covers : List String → Ledger → Type 0
Covers ids l =
    (i : String) (a : CashAdjustment)
    → get l.cash_adjustment_ids i ≡ some a
    → any (λ j. str_eq j i) ids ≡ true

-- and the list of adjustments has just the known ids
abbrev pub Knows : List String → Ledger → Type 0
Knows ids l =
    Covers ids l
    × ((i : String)
        → any (λ (b : CashAdjustment). str_eq b.adjustment_id i) l.cash_adjustments
          ≡ any (λ j. str_eq j i) ids)

any-last :
    (xs : List CashAdjustment) (a : CashAdjustment) (i : String)
    → any (λ (b : CashAdjustment). str_eq b.adjustment_id i) (xs ++ a ∷ [])
      ≡ (str_eq a.adjustment_id i || any (λ (b : CashAdjustment). str_eq b.adjustment_id i) xs)
any-last [] a i = ground arith
any-last (x ∷ xs) a i = ground (arith, any-last xs a i)

pub any-ids :
    (xs : List CashAdjustment) (i : String)
    → any (λ (b : CashAdjustment). str_eq b.adjustment_id i) xs
      ≡ any (λ j. str_eq j i) (map (λ (b : CashAdjustment). b.adjustment_id) xs)
any-ids [] i = refl
any-ids (x ∷ xs) i = ground (arith, any-ids xs i)

pub Knows-after :
    (ids : List String) (l : Ledger) (a : CashAdjustment)
    → Knows ids l
    → Knows (a.adjustment_id ∷ ids) (with_adjustment l a)
Knows-after ids l a h = (
  λ i b found. elim (Option-cases (get l.cash_adjustment_ids i)) [
    | inl new ↦ ground (arith, new, get-put l.cash_adjustment_ids a.adjustment_id i a, found)
    | inr (c, known) ↦ ground (arith, h.0 i c known)
  ],
  λ i. any-last l.cash_adjustments a i ∙ ap (λ t. str_eq a.adjustment_id i || t) (h.1 i),
)

uncovered :
    (ids : List String) (l : Ledger) (i : String)
    → Knows ids l
    → any (λ j. str_eq j i) ids ≡ false
    → get l.cash_adjustment_ids i ≡ none
uncovered ids l i h new = elim (Option-cases (get l.cash_adjustment_ids i)) [
  | inl absent ↦ absent
  | inr (a, known) ↦ absurd (ground (arith, new, h.0 i a known))
]

-- the index with the adjustments in it, in their order
abbrev pub indexed : Dict CashAdjustment → List CashAdjustment → Dict CashAdjustment
indexed d [] = d
indexed d (a ∷ rest) = indexed (put d a.adjustment_id a) rest

-- the store with the adjustments in its ledger's list and index, and their rows in its file
abbrev pub grown : LedgerStore → List CashAdjustment → LedgerStore
grown s booked = record s {
  internal = record s.internal {
    cash_adjustments = s.internal.cash_adjustments ++ booked;
    cash_adjustment_ids = indexed s.internal.cash_adjustment_ids booked;
  };
  rows = s.rows ++ map cash_adjustment booked;
}

write-grown :
    (s s' : LedgerStore) (a : CashAdjustment)
    → get s.internal.cash_adjustment_ids a.adjustment_id ≡ none
    → any
        (λ (b : CashAdjustment). str_eq b.adjustment_id a.adjustment_id)
        s.internal.cash_adjustments
      ≡ false
    → write_cash_adjustment s a ≡ ok s'
    → s' ≡ grown s (a ∷ [])
unfolding write_cash_adjustment record_cash_adjustment
write-grown s s' a new unlisted h = ground (arith, new, unlisted, h)

module _ (digest : Payload → String → String) (show_amount : ℤ → String)
    (explain : Option Refusal → AccountActivity → String) (ceiling : ℤ) (now : ℕ)
    (established_at : Option ℕ) where
  -- what one turn does to the world, and what it reports
  pub data Turned (w : CashSyncWorld) (ids : List String) (act : AccountActivity)
      (v : CashSyncWorld) (r : Result CashSyncError (Option CashAdjustment)) : Type 0 where
    nothing_booked :
        v.quarantined.resolutions ≡ w.quarantined.resolutions
        → v.ledger ≡ w.ledger
        → (r ≡ ok none) ⊎ ((x : CashSyncError) × (r ≡ err x))
        → Turned w ids act v r
    booked :
        v.quarantined.resolutions ≡ w.quarantined.resolutions
        → v.ledger ≡ grown w.ledger (cash_adjustment_for act ∷ [])
        → act.account_id ≡ w.ledger.internal.account_id
        → MayApply w.quarantined established_at ceiling act
        → (r ≡ ok (some (cash_adjustment_for act))) ⊎ ((x : CashSyncError) × (r ≡ err x))
        → Turned w ids act v r

  abbrev pub Ends :
      CashSyncWorld
      → List String
      → AccountActivity
      → CashSyncWorld × Result CashSyncError (Option CashAdjustment)
      → Type 0
  Ends w ids act (v, r) = Turned w ids act v r

  -- the write of an adjustment that is planned, and the row about it
  written-Turned :
      (w : CashSyncWorld) (ids : List String) (act : AccountActivity) (todo : Action)
      (record_it : AuditLog → AccountActivity → Result AuditError AuditLog)
      → Knows ids w.ledger.internal
      → plan w.ledger.internal.account_id established_at w.quarantined ids ceiling act ≡ ok todo
      → (todo ≡ admit) ⊎ (todo ≡ auto_admit)
      → Ends w ids act (
          written digest show_amount explain ceiling now w act record_it
            (write_cash_adjustment w.ledger (cash_adjustment_for act)))
  written-Turned w ids act todo record_it h p which =
      let fresh =
        plan-fresh w.ledger.internal.account_id established_at w.quarantined ids ceiling act todo p
          which in
      let may =
        plan-MayApply w.ledger.internal.account_id established_at w.quarantined ids ceiling act todo
          p which in
      let new = uncovered ids w.ledger.internal act.activity_id h fresh.0 in
      elim (Result-cases (write_cash_adjustment w.ledger (cash_adjustment_for act))) [
        | inr (x, failed) ↦ rw failed (nothing_booked refl refl (inr (_, refl)))
        | inl (s, done) ↦
            let e =
              write-grown w.ledger s (cash_adjustment_for act) new (h.1 act.activity_id ∙ fresh.0)
                done in
            elim (Result-cases (record_it w.log act)) [
              | inr (x, failed) ↦ rw done (rw failed (booked refl e fresh.1 may (inr (_, refl))))
              | inl (l, row) ↦ rw done (rw row (booked refl e fresh.1 may (inl refl)))
            ]
      ]

  perform-Turned :
      (w : CashSyncWorld) (ids : List String) (act : AccountActivity) (todo : Action)
      → Knows ids w.ledger.internal
      → plan w.ledger.internal.account_id established_at w.quarantined ids ceiling act ≡ ok todo
      → Ends w ids act (perform digest show_amount explain ceiling now w act (ok todo))
  perform-Turned w ids act skip h p = nothing_booked refl refl (inl refl)
  perform-Turned w ids act admit h p =
      written-Turned w ids act admit (audit_admission digest show_amount explain ceiling now) h p
        (inl refl)
  perform-Turned w ids act auto_admit h p =
      written-Turned w ids act auto_admit
        (audit_auto_admission digest show_amount explain ceiling now) h p (inr refl)
  perform-Turned w ids act (hold r) h p =
      elim (Result-cases (quarantine w.quarantined act (explain r act) now)) [
        | inr (x, failed) ↦ rw failed (nothing_booked refl refl (inr (_, refl)))
        | inl (q, done) ↦
            let kept = quarantine-resolutions w.quarantined q act (explain r act) now done in
            elim (Result-cases
              (audit_quarantine digest show_amount explain ceiling now w.log (explain r act) act)) [
                | inr (x, failed) ↦ rw done (rw failed (nothing_booked kept refl (inr (_, refl))))
                | inl (l, row) ↦ rw done (rw row (nothing_booked kept refl (inl refl)))
              ]
      ]

  pub turn-Turned :
      (w : CashSyncWorld) (ids : List String) (act : AccountActivity)
      → Knows ids w.ledger.internal
      → Ends w ids act (turn digest show_amount explain ceiling now w established_at ids act)
  unfolding turn
  turn-Turned w ids act h =
      elim (Result-cases
        (plan w.ledger.internal.account_id established_at w.quarantined ids ceiling act)) [
          | inr (x, failed) ↦ rw failed (nothing_booked refl refl (inr (_, refl)))
          | inl (todo, p) ↦ rw p (perform-Turned w ids act todo h p)
        ]
