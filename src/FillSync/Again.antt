-- ===== src/FillSync/Again.antt =====
-- A second poll of agent/fill_sync.py over the same executions.
use mathlib.Core.Path.{subst}
use investmentagent.Prelude.{
  returned-cases, All, All-Member, Member, ℕ, String, ◌≡◌, refl, sym, ap, ◌∙◌, Option, none, some,
  List, [], ◌∷◌, arith, Result, ok, err, inl, inr,
}
use investmentagent.Prelude.Dict.{Dict}
use investmentagent.Audit.{Payload}
use investmentagent.Ledger.Records.{Fill, OrderRecord}
use investmentagent.Ledger.{Ledger, record_fill}
use investmentagent.Ledger.Frames.{record_each-keeps}
use investmentagent.LedgerStore.Commute.{outside_fills}
use investmentagent.LedgerStore.Built.{Built, base_of, blank}
use investmentagent.Quarantine.{Execution}
use investmentagent.FillSync.Plan.{
  Listed, Ahead, Recorded, Settled, Settled-Ahead, Accounted, plan-Accounted,
}
use investmentagent.FillSync.Turn.{turn-Turned, record_fill-records}
use investmentagent.FillSync.{
  SyncError, SyncWorld, turn, proceed, collect, known_after, fill_ids, latest_orders, sync_each,
  sync_fills,
}

Ahead-trans :
    (w v u : SyncWorld) (ids js ks : List String)
    → Ahead w ids v js
    → Ahead v js u ks
    → Ahead w ids u ks
Ahead-trans w v u ids js ks (more, holds, same, account, orders)
      (more', holds', same', account', orders') =
    (
      λ id h. more' id (more id h),
      λ id h. holds' id (holds id h),
      same' ∙ same,
      account' ∙ account,
      orders' ∙ orders,
    )

-- the rest of the loop returned where the loop did
collect-ok :
    (f : Option Fill) (r : SyncWorld × Result SyncError (List Fill)) (w : SyncWorld)
    (fs : List Fill)
    → collect f r ≡ (w, ok fs)
    → (gs : List Fill) × (r ≡ (w, ok gs))
collect-ok none r w fs h = (fs, h)
collect-ok (some f) (v, ok gs) w fs h = (gs, ap (λ u. (u.0, ok gs)) h)
collect-ok (some f) (v, err x) w fs h = absurd (ground (arith, h))

module _ (digest : Payload → String → String) (explain : String → Execution → String) (now : ℕ)
    (latest : Dict OrderRecord) where
  abbrev AllSettled : SyncWorld → List String → List Execution → Type 0
  AllSettled w ids es = All (Settled now latest w ids) es

  AllSettled-Ahead :
      (w w' : SyncWorld) (ids ids' : List String) (es : List Execution)
      → Ahead w ids w' ids'
      → AllSettled w ids es
      → AllSettled w' ids' es
  AllSettled-Ahead w w' ids ids' [] a h = tt
  AllSettled-Ahead w w' ids ids' (e ∷ es) a (h, hs) =
      (Settled-Ahead now latest w w' ids ids' e a h, AllSettled-Ahead w w' ids ids' es a hs)

  abbrev Synced : SyncWorld → List String → List Execution → SyncWorld → Type 0
  Synced w ids es w' =
      (ids' : List String) × Ahead w ids w' ids' × Recorded w' ids' × AllSettled w' ids' es

  -- a loop that returned has settled every execution
  sync_each-Synced :
      (w w' : SyncWorld) (ids : List String) (es : List Execution) (fs : List Fill)
      → sync_each digest explain w now latest ids es ≡ (w', ok fs)
      → Recorded w ids
      → Synced w ids es w'
  unfolding sync_each
  sync_each-Synced w w' ids [] fs h recorded =
      subst (λ r. Synced w ids [] r.0) h
        (ids, (λ id k. k, λ id k. k, refl, refl, refl), recorded, tt)
  sync_each-Synced w w' ids (e ∷ es) fs h recorded =
      elim (returned-cases (turn digest explain w now latest ids e)) [
        | inr (v, x, failed) ↦ absurd (ground (arith, failed, h))
        | inl (v, f, turned) ↦
            let (ahead, recorded', settled) =
              turn-Turned digest explain now latest w v ids e f turned recorded in
            let next : SyncWorld → Option Fill → SyncWorld × Result SyncError (List Fill) =
              λ v f. sync_each digest explain v now latest (known_after ids f) es in
            let (gs, rest) =
              collect-ok f (next v f) w' fs (ap (λ r. proceed next r) (sym turned) ∙ h) in
            let (ids', ahead', recorded'', all) =
              sync_each-Synced v w' (known_after ids f) es gs rest recorded' in
            (
              ids',
              Ahead-trans w v w' ids (known_after ids f) ids' ahead ahead',
              recorded'',
              (Settled-Ahead now latest v w' (known_after ids f) ids' e ahead' settled, all),
            )
      ]

  -- a loop over settled executions does nothing
  settled-sync_each :
      (w : SyncWorld) (ids : List String) (es : List Execution)
      → AllSettled w ids es
      → sync_each digest explain w now latest ids es ≡ (w, ok [])
  unfolding sync_each turn
  settled-sync_each w ids [] h = refl
  settled-sync_each w ids (e ∷ es) (h, hs) = rw h (settled-sync_each w ids es hs)

-- a ledger that was built knows only ids of its fills
Built-Listed : (l : Ledger) → Built l → Listed l
Built-Listed l (fills, orders, adjustments, corrections) =
    record_each-keeps record_fill Listed
      (λ m m' f h listed. (record_fill-records m m' f h listed).0) (base_of l)
      (outside_fills blank l) l.fills fills tt

settled_after :
    (digest : Payload → String → String) (explain : String → Execution → String) (w w' : SyncWorld)
    (now : ℕ) (executions : List Execution) (fs : List Fill)
    → Built w.ledger.internal
    → sync_fills digest explain w now executions ≡ (w', ok fs)
    → (w'.ledger.internal.order_records ≡ w.ledger.internal.order_records)
      × AllSettled digest explain now
          (latest_orders [] w.ledger.internal.order_records)
          w'
          (fill_ids w'.ledger.internal.fills)
          executions
unfolding sync_fills
settled_after digest explain w w' now es fs built h =
    let latest = latest_orders [] w.ledger.internal.order_records in
    let ids = fill_ids w.ledger.internal.fills in
    let (ids', (more, holds, same, account, orders), (listed', recorded), all) =
      sync_each-Synced digest explain now latest w w' ids es fs h
        (Built-Listed w.ledger.internal built, λ id k. k) in
    (
      orders,
      AllSettled-Ahead digest explain now latest w' w' ids' (fill_ids w'.ledger.internal.fills) es
          (recorded, λ id k. k, refl, refl, refl) all,
    )

-- After a poll that returned, a second poll at the same time that reports the same executions leaves
-- the ledger's store, the quarantine and the audit log exactly as they are and returns no new fill, at
-- a ledger that calls of its own methods have built.
pub sync_fills-again :
    (digest : Payload → String → String) (explain : String → Execution → String) (w w' : SyncWorld)
    (now : ℕ) (executions : List Execution) (fs : List Fill)
    → Built w.ledger.internal
    → sync_fills digest explain w now executions ≡ (w', ok fs)
    → sync_fills digest explain w' now executions ≡ (w', ok [])
unfolding sync_fills
sync_fills-again digest explain w w' now es fs built h =
    let (orders, all) = settled_after digest explain w w' now es fs built h in
    ap
      (λ rs.
        sync_each digest explain w' now (latest_orders [] rs) (fill_ids w'.ledger.internal.fills)
          es)
      orders
    ∙ settled-sync_each digest explain now (latest_orders [] w.ledger.internal.order_records) w'
        (fill_ids w'.ledger.internal.fills) es all

-- No execution is lost: after a poll that returned, each execution that was reported is a fill of the
-- ledger, or is held in the quarantine, or was decided by an operator who did not admit it, at a ledger
-- that calls of its own methods have built.
pub sync_fills-Accounted :
    (digest : Payload → String → String) (explain : String → Execution → String) (w w' : SyncWorld)
    (now : ℕ) (executions : List Execution) (fs : List Fill) (e : Execution)
    → Built w.ledger.internal
    → sync_fills digest explain w now executions ≡ (w', ok fs)
    → Member e executions
    → Accounted w'.quarantined (fill_ids w'.ledger.internal.fills) e.execution_id
sync_fills-Accounted digest explain w w' now es fs e built h m =
    let latest = latest_orders [] w.ledger.internal.order_records in
    let (orders, all) = settled_after digest explain w w' now es fs built h in
    plan-Accounted now latest w'.ledger.internal.account_id w'.quarantined
      (fill_ids w'.ledger.internal.fills) e
      (All-Member (Settled now latest w' (fill_ids w'.ledger.internal.fills)) es e all m)
