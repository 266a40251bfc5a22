-- ===== src/CashEvents/Admission.antt =====
-- Which cash movements `sync_cash_events` of agent/cash_events.py books in the ledger.
use mathlib.Core.Path.{subst}
use investmentagent.Prelude.{
  ℕ, String, ◌≡◌, refl, ◌∙◌, Option, List, [], ◌∷◌, returned-cases, inl, inr,
}
use investmentagent.Prelude.Int.{ℤ}
use investmentagent.Audit.{Payload}
use investmentagent.LedgerStore.{known_cash_adjustment_ids}
use investmentagent.CashQuarantine.{AccountActivity, CashQuarantineStore, Refusal}
use investmentagent.CashEvents.{CashSyncWorld, known_after, turn, sync_each, sync_cash_events}
use investmentagent.CashEvents.Turns.{Covers, Knows, any-ids, Ends, turn-Turned}
use investmentagent.CashEvents.Booking.{
  Booked, grown_none, applied-Booked, stopped-Booked, next_start,
}

module _ (digest : Payload → String → String) (show_amount : ℤ → String)
    (explain : Option Refusal → AccountActivity → String) (ceiling : ℤ) (now : ℕ)
    (established_at : Option ℕ) where
  sync_each-Booked :
      (q : CashQuarantineStore) (account_id : String) (w : CashSyncWorld) (ids : List String)
      (acts : List AccountActivity)
      → w.quarantined.resolutions ≡ q.resolutions
      → w.ledger.internal.account_id ≡ account_id
      → Knows ids w.ledger.internal
      → Booked digest show_amount explain ceiling now established_at q account_id acts w
          (sync_each digest show_amount explain ceiling now w established_at ids acts)
  unfolding sync_each
  sync_each-Booked q account_id w ids [] same own h =
      ([], grown_none digest show_amount explain ceiling now established_at w.ledger, tt, refl)
  sync_each-Booked q account_id w ids (act ∷ acts) same own h =
      let did = turn-Turned digest show_amount explain ceiling now established_at w ids act h in
      elim (returned-cases (turn digest show_amount explain ceiling now w established_at ids act)) [
        | inr (v, x, failed) ↦ rw failed (
            stopped-Booked digest show_amount explain ceiling now established_at q account_id w v
              ids act acts x same own
              (subst (Ends digest show_amount explain ceiling now established_at w ids act) failed
                did))
        | inl (v, a, turned) ↦
            let t =
              subst (Ends digest show_amount explain ceiling now established_at w ids act) turned
                did in
            let (kept, account, covered) =
              next_start digest show_amount explain ceiling now established_at w v ids act a h t in
            let r =
              sync_each digest show_amount explain ceiling now v established_at (known_after ids a)
                acts in
            rw turned (
              applied-Booked digest show_amount explain ceiling now established_at q account_id w v
                ids act acts a r.0 r.1 same own t
                (sync_each-Booked q account_id v (known_after ids a) acts (kept ∙ same)
                  (account ∙ own) covered))
      ]

-- If the ledger's index of adjustments has no id that its list lacks, then whether a call returns or
-- raises, the ledger's store is after it as before but for cash adjustments that are appended to its
-- list, to its index and, as rows, to its file. Each of them is that of an activity which the broker
-- reported for the ledger's own account, and which an operator had admitted before the call, or which is
-- a CAT fee, a debit of at most the ceiling, that the broker posted at a known instant, which is after
-- the opening balance was established, where it was. A call that returns reports just the adjustments
-- that it appended.
pub sync_cash_events-Booked :
    (digest : Payload → String → String) (show_amount : ℤ → String)
    (explain : Option Refusal → AccountActivity → String) (ceiling : ℤ) (now : ℕ)
    (w : CashSyncWorld) (acts : List AccountActivity)
    → Covers (known_cash_adjustment_ids w.ledger) w.ledger.internal
    → Booked digest show_amount explain ceiling now w.ledger.opening_established_at w.quarantined
        w.ledger.internal.account_id acts w
        (sync_cash_events digest show_amount explain ceiling now w acts)
unfolding sync_cash_events
sync_cash_events-Booked digest show_amount explain ceiling now w acts h =
    sync_each-Booked digest show_amount explain ceiling now w.ledger.opening_established_at
      w.quarantined w.ledger.internal.account_id w (known_cash_adjustment_ids w.ledger) acts refl
      refl (h, any-ids w.ledger.internal.cash_adjustments)
