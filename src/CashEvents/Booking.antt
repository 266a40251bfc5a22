-- ===== src/CashEvents/Booking.antt =====
-- How the turns of the loop of agent/cash_events.py add up to what a call books in the ledger.
use mathlib.Core.Path.{subst}
use mathlib.Core.List.{append-nil, append_assoc}
use investmentagent.Prelude.{
  map, ◌++◌, All, All-map, Member, ℕ, String, ◌≡◌, refl, sym, ap, ◌∙◌, Option, none, some, List, [],
  ◌∷◌, arith, Result, ok, err, inl, inr,
}
use investmentagent.Prelude.Int.{ℤ}
use investmentagent.Audit.{Payload}
use investmentagent.Ledger.Records.{CashAdjustment}
use investmentagent.LedgerStore.{LedgerStore, cash_adjustment}
use investmentagent.LedgerStore.Built.{with_adjustment}
use investmentagent.CashQuarantine.{AccountActivity, CashQuarantineStore, Refusal}
use investmentagent.CashEvents.{
  CashSyncError, CashSyncWorld, cash_adjustment_for, applied, known_after,
}
use investmentagent.CashEvents.Plan.{MayApply, MayApply-resolutions}
use investmentagent.CashEvents.Turns.{
  indexed, Knows, Knows-after, Turned, nothing_booked, booked, grown,
}

module _ (digest : Payload → String → String) (show_amount : ℤ → String)
    (explain : Option Refusal → AccountActivity → String) (ceiling : ℤ) (now : ℕ)
    (established_at : Option ℕ) where
  -- an adjustment that may be booked, of one of the activities, on the ledger's own account
  abbrev pub Justified :
      CashQuarantineStore → String → List AccountActivity → CashAdjustment → Type 0
  Justified q account_id acts a =
      (act : AccountActivity) × Member act acts
      × (a ≡ cash_adjustment_for act)
      × (act.account_id ≡ account_id)
      × MayApply q established_at ceiling act

  -- what a call reports if it returns
  abbrev pub Reports : Result CashSyncError (List CashAdjustment) → List CashAdjustment → Type 0
  Reports (ok done) done' = done ≡ done'
  Reports (err x) done' = Unit

  -- the adjustments that a call books, all of them justified, and no other change of the ledger's store
  abbrev pub Booked :
      CashQuarantineStore
      → String
      → List AccountActivity
      → CashSyncWorld
      → CashSyncWorld × Result CashSyncError (List CashAdjustment)
      → Type 0
  Booked q account_id acts w (v, r) =
      (done : List CashAdjustment) × (v.ledger ≡ grown w.ledger done)
      × All (Justified q account_id acts) done
      × Reports r done

  later :
      (q : CashQuarantineStore) (account_id : String) (act : AccountActivity)
      (acts : List AccountActivity) (a : CashAdjustment)
      → Justified q account_id acts a
      → Justified q account_id (act ∷ acts) a
  later q account_id act acts a (b, m, same, own, may) = (b, inr m, same, own, may)

  pub grown_none : (s : LedgerStore) → s ≡ grown s []
  grown_none s =
      ap (λ l. record s { internal = record s.internal { cash_adjustments = l } })
        (sym (append-nil s.internal.cash_adjustments))
      ∙ ap
          (λ r. record s {
            internal = record s.internal { cash_adjustments = s.internal.cash_adjustments ++ [] };
            rows = r;
          })
          (sym (append-nil s.rows))

  grown_one :
      (s t u : LedgerStore) (a : CashAdjustment) (done : List CashAdjustment)
      → t ≡ grown s (a ∷ [])
      → u ≡ grown t done
      → u ≡ grown s (a ∷ done)
  grown_one s t u a done e h =
      let ids = indexed s.internal.cash_adjustment_ids (a ∷ done) in
      h
      ∙ ap (λ x. grown x done) e
      ∙ ap
          (λ l. record s {
            internal = record s.internal { cash_adjustments = l; cash_adjustment_ids = ids };
            rows = (s.rows ++ cash_adjustment a ∷ []) ++ map cash_adjustment done;
          })
          (append_assoc s.internal.cash_adjustments (a ∷ []) done)
      ∙ ap
          (λ r. record s {
            internal = record s.internal {
              cash_adjustments = s.internal.cash_adjustments ++ a ∷ done;
              cash_adjustment_ids = ids;
            };
            rows = r;
          })
          (append_assoc s.rows (cash_adjustment a ∷ []) (map cash_adjustment done))

  -- a turn that returned, and what came after it
  pub applied-Booked :
      (q : CashQuarantineStore) (account_id : String) (w v : CashSyncWorld) (ids : List String)
      (act : AccountActivity) (acts : List AccountActivity) (a : Option CashAdjustment)
      (u : CashSyncWorld) (r : Result CashSyncError (List CashAdjustment))
      → w.quarantined.resolutions ≡ q.resolutions
      → w.ledger.internal.account_id ≡ account_id
      → Turned digest show_amount explain ceiling now established_at w ids act v (ok a)
      → Booked q account_id acts v (u, r)
      → Booked q account_id (act ∷ acts) w (applied a (u, r))
  applied-Booked q account_id w v ids act acts none u r same own (nothing_booked k e ends)
        (done, h, all, told) =
      (
        done,
        h ∙ ap (λ s. grown s done) e,
        All-map (Justified q account_id acts) (Justified q account_id (act ∷ acts))
            (later q account_id act acts) done all,
        told,
      )
  applied-Booked q account_id w v ids act acts (some b) u r same own (nothing_booked k e ends) h =
      absurd (ground (arith, ends))
  applied-Booked q account_id w v ids act acts none u r same own (booked k e of may ends) h =
      absurd (ground (arith, ends))
  applied-Booked q account_id w v ids act acts (some b) u (ok rest) same own
        (booked k e of may ends) (done, h, all, told) =
      let got : b ≡ cash_adjustment_for act = ground (arith, ends) in
      (
        b ∷ done,
        grown_one w.ledger v.ledger u.ledger b done
            (e ∙ ap (λ c. grown w.ledger (c ∷ [])) (sym got)) h,
        (
          (
            act,
            inl refl,
            got,
            of ∙ own,
            MayApply-resolutions q w.quarantined established_at ceiling act same may,
          ),
          All-map (Justified q account_id acts) (Justified q account_id (act ∷ acts))
              (later q account_id act acts) done all,
        ),
        ap (λ l. b ∷ l) told,
      )
  applied-Booked q account_id w v ids act acts (some b) u (err x) same own (booked k e of may ends)
        (done, h, all, told) =
      let got : b ≡ cash_adjustment_for act = ground (arith, ends) in
      (
        b ∷ done,
        grown_one w.ledger v.ledger u.ledger b done
            (e ∙ ap (λ c. grown w.ledger (c ∷ [])) (sym got)) h,
        (
          (
            act,
            inl refl,
            got,
            of ∙ own,
            MayApply-resolutions q w.quarantined established_at ceiling act same may,
          ),
          All-map (Justified q account_id acts) (Justified q account_id (act ∷ acts))
              (later q account_id act acts) done all,
        ),
        tt,
      )

  pub stopped-Booked :
      (q : CashQuarantineStore) (account_id : String) (w v : CashSyncWorld) (ids : List String)
      (act : AccountActivity) (acts : List AccountActivity) (x : CashSyncError)
      → w.quarantined.resolutions ≡ q.resolutions
      → w.ledger.internal.account_id ≡ account_id
      → Turned digest show_amount explain ceiling now established_at w ids act v (err x)
      → Booked q account_id (act ∷ acts) w (v, err x)
  stopped-Booked q account_id w v ids act acts x same own (nothing_booked k e ends) =
      ([], e ∙ grown_none w.ledger, tt, tt)
  stopped-Booked q account_id w v ids act acts x same own (booked k e of may ends) = (
    cash_adjustment_for act ∷ [],
    grown_one w.ledger v.ledger v.ledger (cash_adjustment_for act) [] e (grown_none v.ledger),
    (
      (
        act,
        inl refl,
        refl,
        of ∙ own,
        MayApply-resolutions q w.quarantined established_at ceiling act same may,
      ),
      tt,
    ),
    tt,
  )

  -- what the next turns start from
  pub next_start :
      (w v : CashSyncWorld) (ids : List String) (act : AccountActivity) (a : Option CashAdjustment)
      → Knows ids w.ledger.internal
      → Turned digest show_amount explain ceiling now established_at w ids act v (ok a)
      → (v.quarantined.resolutions ≡ w.quarantined.resolutions)
        × (v.ledger.internal.account_id ≡ w.ledger.internal.account_id)
        × Knows (known_after ids a) v.ledger.internal
  next_start w v ids act none h (nothing_booked k e ends) = (
    k,
    ap (λ (s : LedgerStore). s.internal.account_id) e,
    subst (λ (s : LedgerStore). Knows ids s.internal) (sym e) h,
  )
  next_start w v ids act (some b) h (nothing_booked k e ends) = absurd (ground (arith, ends))
  next_start w v ids act none h (booked k e of may ends) = absurd (ground (arith, ends))
  next_start w v ids act (some b) h (booked k e of may ends) =
      let got : cash_adjustment_for act ≡ b = ground (arith, ends) in
      (
        k,
        ap (λ (s : LedgerStore). s.internal.account_id) e,
        subst (λ (s : LedgerStore). Knows (b.adjustment_id ∷ ids) s.internal) (sym e)
            (subst
              (λ (c : CashAdjustment).
                Knows (c.adjustment_id ∷ ids)
                  (with_adjustment w.ledger.internal (cash_adjustment_for act)))
              got (Knows-after ids w.ledger.internal (cash_adjustment_for act) h)),
      )
