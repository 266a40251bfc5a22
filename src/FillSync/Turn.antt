-- ===== src/FillSync/Turn.antt =====
-- One turn of the loop of agent/fill_sync.py: afterwards there is nothing left to do about its
-- execution, and nothing that was settled before is unsettled.
use mathlib.Core.Path.{subst}
use investmentagent.Prelude.{
  ℕ, String, ◌≡◌, refl, sym, ap, ◌∙◌, true, Option, none, some, List, [], ◌∷◌, ◌++◌, arith, str_eq,
  Result, ok, err, Bool-cases, inl, inr, eq_iff, eq_refl, Result-cases, Option-cases,
}
use investmentagent.Prelude.Dict.{
  Dict, get, contains, Each-put, Each-map, Each-get, get-put, get-put_self,
}
use investmentagent.Audit.{AuditLog, Payload}
use investmentagent.Ledger.Records.{Fill, OrderRecord}
use investmentagent.Ledger.{Ledger, record_fill, append_fill}
use investmentagent.LedgerStore.{LedgerStore, write_fill}
use investmentagent.Quarantine.{
  Execution, ExecutionResolution, QuarantineError, QuarantineStore, quarantine, resolution_for,
  status, record_of,
}
use investmentagent.Quarantine
use investmentagent.FillSync.Plan.{
  known-append, known-last, known-front, Listed, Ahead, Recorded, Settled, plan-known, plan-write,
  plan-hold, plan-held,
}
use investmentagent.FillSync.{
  audit_quarantine, perform, audited, held_back, written, SyncError, SyncWorld, Action, skip, write,
  hold, plan, turn, known, known_after, fill_ids,
}

-- what holding an execution back keeps
quarantine-holds :
    (q q' : QuarantineStore) (e : Execution) (reason : String) (at : ℕ)
    → quarantine q e reason at ≡ ok q'
    → (q'.resolutions ≡ q.resolutions)
      × ((id : String) → contains q.held id ≡ true → contains q'.held id ≡ true)
      × (contains q'.held e.execution_id ≡ true)
unfolding quarantine
quarantine-holds q q' e reason at h = elim (Option-cases (get q.held e.execution_id)) [
  | inl new ↦
      let record_held = record_of e reason at in
      let done : Quarantine.hold q record_held ≡ q' = ground (arith, new, h) in
      rw (← done) (
        refl,
        λ id there. ground (arith, there, get-put q.held e.execution_id id record_held),
        ground (arith, get-put_self q.held e.execution_id record_held),
      )
  | inr (p, old) ↦
      let done : q ≡ q' = ground (arith, old, h) in
      rw (← done) (refl, λ id there. there, ground (arith, old))
]

pub record_fill-records :
    (l l' : Ledger) (f : Fill)
    → record_fill l f ≡ ok l'
    → Listed l
    → Listed l'
      × (l'.account_id ≡ l.account_id)
      × (l'.order_records ≡ l.order_records)
      × ((id : String) → known (fill_ids l.fills) id ≡ true → known (fill_ids l'.fills) id ≡ true)
      × (known (fill_ids l'.fills) f.fill_id ≡ true)
unfolding record_fill
record_fill-records l l' f h listed = elim (Option-cases (get l.fill_ids f.fill_id)) [
  | inl new ↦
      let more : l' ≡ append_fill l f = ground (arith, new, h) in
      rw more (
        Each-put (λ id g. known (fill_ids (l.fills ++ f ∷ [])) id ≡ true) l.fill_ids f.fill_id f
            (Each-map {P = λ id g. known (fill_ids l.fills) id ≡ true}
              {Q = λ id g. known (fill_ids (l.fills ++ f ∷ [])) id ≡ true} l.fill_ids
              (λ id g there. known-append l.fills f id there) listed)
            (known-last l.fills f),
        refl,
        refl,
        λ id there. known-append l.fills f id there,
        known-last l.fills f,
      )
  | inr (g, old) ↦
      let same : l' ≡ l = ground (arith, old, h) in
      rw same (
        listed,
        refl,
        refl,
        λ id there. there,
        Each-get (λ id g. known (fill_ids l.fills) id ≡ true) l.fill_ids f.fill_id {v = g} listed
            old,
      )
]

-- what writing a fill keeps
write_fill-records :
    (s s' : LedgerStore) (f : Fill)
    → write_fill s f ≡ ok s'
    → Listed s.internal
    → Listed s'.internal
      × (s'.internal.account_id ≡ s.internal.account_id)
      × (s'.internal.order_records ≡ s.internal.order_records)
      × ((id : String)
          → known (fill_ids s.internal.fills) id ≡ true
          → known (fill_ids s'.internal.fills) id ≡ true)
      × (known (fill_ids s'.internal.fills) f.fill_id ≡ true)
unfolding write_fill
write_fill-records s s' f h listed = elim (Result-cases (record_fill s.internal f)) [
  | inr (x, e) ↦ absurd (ground (arith, e, h))
  | inl (l, e) ↦
      let done : s'.internal ≡ l = ground (arith, e, h) in
      rw done (record_fill-records s.internal l f e listed)
]

own_known :
    (ids : List String) (g : Fill) (e : Execution)
    → g.fill_id ≡ e.execution_id
    → known (g.fill_id ∷ ids) e.execution_id ≡ true
own_known ids g e h = rw h (ground (arith, eq_refl e.execution_id))

now_known :
    (w : SyncWorld) (s : LedgerStore) (ids : List String) (g : Fill) (id : String)
    → ((i : String) → known ids i ≡ true → known (fill_ids w.ledger.internal.fills) i ≡ true)
    → ((i : String)
        → known (fill_ids w.ledger.internal.fills) i ≡ true
        → known (fill_ids s.internal.fills) i ≡ true)
    → known (fill_ids s.internal.fills) g.fill_id ≡ true
    → known (g.fill_id ∷ ids) id ≡ true
    → known (fill_ids s.internal.fills) id ≡ true
now_known w s ids g id recorded grown last there = elim (Bool-cases (str_eq g.fill_id id)) [
  | inl same ↦ rw (← (eq_iff g.fill_id id).0 same) last
  | inr other ↦ grown id (recorded id (ground (arith, there, other)))
]

module _ (digest : Payload → String → String) (explain : String → Execution → String) (now : ℕ)
    (latest : Dict OrderRecord) where
  -- the outcome of a turn that returned
  abbrev pub Turned : SyncWorld → List String → Execution → SyncWorld → Option Fill → Type 0
  Turned w ids e w' f =
      Ahead w ids w' (known_after ids f)
      × Recorded w' (known_after ids f)
      × Settled now latest w' (known_after ids f) e

  Ahead-refl : (w : SyncWorld) (ids : List String) → Ahead w ids w ids
  Ahead-refl w ids = (λ id h. h, λ id h. h, refl, refl, refl)

  skipped :
      (w : SyncWorld) (ids : List String) (e : Execution)
      → Settled now latest w ids e
      → Recorded w ids
      → Turned w ids e w none
  skipped w ids e p recorded = (Ahead-refl w ids, recorded, p)

  wrote :
      (w : SyncWorld) (s : LedgerStore) (ids : List String) (e : Execution) (g : Fill)
      → plan w.ledger.internal.account_id now latest w.quarantined ids e ≡ ok (write g)
      → Recorded w ids
      → write_fill w.ledger g ≡ ok s
      → Turned w ids e (record w { ledger = s }) (some g)
  wrote w s ids e g p (listed, recorded) h =
      let (listed', account, orders, grown, last) = write_fill-records w.ledger s g h listed in
      (
        (λ id there. known-front ids g.fill_id id there, λ id there. there, refl, account, orders),
        (listed', λ id there. now_known w s ids g id recorded grown last there),
        plan-known now latest s.internal.account_id w.quarantined (g.fill_id ∷ ids) e (
            own_known ids g e
              (plan-write now latest w.ledger.internal.account_id w.quarantined ids e g p)),
      )

  held :
      (w : SyncWorld) (q : QuarantineStore) (l : AuditLog) (ids : List String) (e : Execution)
      (reason why : String)
      → plan w.ledger.internal.account_id now latest w.quarantined ids e ≡ ok (hold reason)
      → Recorded w ids
      → quarantine w.quarantined e why now ≡ ok q
      → Turned w ids e (record w { quarantined = q; log = l }) none
  unfolding resolution_for
  held w q l ids e reason why p recorded h =
      let (same, grown, there) = quarantine-holds w.quarantined q e why now h in
      let (checked, undecided) =
        plan-hold now latest w.ledger.internal.account_id w.quarantined ids e reason p in
      (
        (λ id k. k, grown, same, refl, refl),
        recorded,
        plan-held now latest w.ledger.internal.account_id q ids e checked (rw same undecided) there,
      )

  abbrev some_fill : Result SyncError (Option Fill) → Option Fill
  some_fill (ok f) = f
  some_fill (err x) = none

  Turned_same :
      (w w' v : SyncWorld) (ids : List String) (e : Execution) (f g : Option Fill)
      → ◌≡◌ {A = SyncWorld × Result SyncError (Option Fill)} (w', ok f) (v, ok g)
      → Turned w ids e w' f
      → Turned w ids e v g
  Turned_same w w' v ids e f g h t = subst (λ r. Turned w ids e r.0 (some_fill r.1)) h t

  acted :
      (w w' : SyncWorld) (ids : List String) (e : Execution) (f : Option Fill) (action : Action)
      → plan w.ledger.internal.account_id now latest w.quarantined ids e ≡ ok action
      → Recorded w ids
      → perform digest explain w now e (ok action) ≡ (w', ok f)
      → Turned w ids e w' f
  acted w w' ids e f skip p recorded h =
      Turned_same w w w' ids e none f h (skipped w ids e p recorded)
  acted w w' ids e f (write g) p recorded h = elim (Result-cases (write_fill w.ledger g)) [
    | inr (x, failed) ↦ absurd (ground (arith, failed, h))
    | inl (s, done) ↦
        Turned_same w (record w { ledger = s }) w' ids e (some g) f
          (ap (λ r. written digest explain w g r) (sym done) ∙ h)
          (wrote w s ids e g p recorded done)
  ]
  acted w w' ids e f (hold reason) p recorded h =
      elim (Result-cases (quarantine w.quarantined e (explain reason e) now)) [
        | inr (x, failed) ↦ absurd (ground (arith, failed, h))
        | inl (q, done) ↦ elim (Result-cases (audit_quarantine digest explain w.log now reason e)) [
          | inr (x, failed) ↦ absurd (ground (arith, failed, done, h))
          | inl (l, logged) ↦
              Turned_same w (record w { quarantined = q; log = l }) w' ids e none f
                (ap (λ r. audited digest explain (record w { quarantined = q }) r) (sym logged)
                  ∙ ap (λ r. held_back digest explain w now reason e r) (sym done)
                  ∙ h)
                (held w q l ids e reason (explain reason e) p recorded done)
        ]
      ]

  pub turn-Turned :
      (w w' : SyncWorld) (ids : List String) (e : Execution) (f : Option Fill)
      → turn digest explain w now latest ids e ≡ (w', ok f)
      → Recorded w ids
      → Turned w ids e w' f
  unfolding turn
  turn-Turned w w' ids e f h (listed, recorded) =
      elim (Result-cases (plan w.ledger.internal.account_id now latest w.quarantined ids e)) [
        | inr (x, p) ↦ absurd (ground (arith, p, h))
        | inl (action, p) ↦
            acted w w' ids e f action p (listed, recorded)
              (ap (λ r. perform digest explain w now e r) (sym p) ∙ h)
      ]
