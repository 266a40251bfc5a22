-- ===== src/FillSync/Closing.antt =====
-- `close_terminal_orders` of agent/fill_sync.py: an order that the broker reports as ended is closed in
-- the ledger's store. `get_by_client_id` is the broker's answer.
use investmentagent.Prelude.{
  ℕ, ◌≤◌, String, ◌≡◌, refl, sym, ap, ◌∙◌, Bool, true, false, not, ◌||◌, Option, none, some, List,
  [], ◌∷◌, ◌++◌, arith, str_eq, if◌then◌else◌, Result, ok, err, Bool-cases, inl, inr, eq_iff,
}
use investmentagent.Prelude.TextOrder.{text_le}
use investmentagent.Prelude.Dict.{Dict, get, put, contains, get-put_self}
use investmentagent.Ledger.Records.{OrderRecord}
use investmentagent.Ledger.{open_order_ids, record_order_status}
use investmentagent.LedgerStore.{LedgerStore, LedgerStoreError, write_order_record}
use investmentagent.Quarantine.{Execution, QuarantineStore, resolution_for, status}
use investmentagent.Simulator.{SimulatedOrder}
use investmentagent.FillSync.{
  SyncError, cross_account, store, hold, latest_orders, known, plan, is_purchase,
}
use investmentagent.FillSync.Plan.{status-held}

-- `TERMINAL_ORDER_STATUSES`
abbrev pub is_terminal : String → Bool
is_terminal status = str_eq status "filled" || str_eq status "canceled" || str_eq status "rejected"

unfoldable pub insert_id : String → List String → List String
insert_id i [] = i ∷ []
insert_id i (j ∷ js) = let rest = insert_id i js in if text_le i j then i ∷ j ∷ js else j ∷ rest

-- `sorted(…)` of the ids
unfoldable pub sorted_ids : List String → List String
sorted_ids [] = []
sorted_ids (i ∷ is) = insert_id i (sorted_ids is)

abbrev pub closed_record : LedgerStore → String → ℕ → OrderRecord
closed_record s id now = record {
  client_order_id = id;
  account_id = s.internal.account_id;
  status = "CLOSED";
  at = now;
  lot_id = none;
  holding_policy_version = none;
}

abbrev pub closed :
    LedgerStore
    → OrderRecord
    → Result LedgerStoreError LedgerStore
    → LedgerStore × Result SyncError (Option OrderRecord)
closed s r (err x) = (s, err (store x))
closed s r (ok s') = (s', ok (some r))

-- one turn of the loop: the store after it, and the record that was written
unfoldable pub close_one :
    LedgerStore
    → String
    → Option SimulatedOrder
    → ℕ
    → LedgerStore × Result SyncError (Option OrderRecord)
close_one s id none now = (s, ok none)
close_one s id (some o) now =
    if not (str_eq o.account_id s.internal.account_id)
    then (s, err (cross_account (record { expected = s.internal.account_id; got = o.account_id })))
    else if is_terminal o.status
    then closed s (closed_record s id now) (write_order_record s (closed_record s id now))
    else (s, ok none)

abbrev pub collected :
    Option OrderRecord
    → LedgerStore × Result SyncError (List OrderRecord)
    → LedgerStore × Result SyncError (List OrderRecord)
collected none r = r
collected (some a) (s, ok rest) = (s, ok (a ∷ rest))
collected (some a) (s, err x) = (s, err x)

abbrev pub next_one :
    (LedgerStore → LedgerStore × Result SyncError (List OrderRecord))
    → LedgerStore × Result SyncError (Option OrderRecord)
    → LedgerStore × Result SyncError (List OrderRecord)
next_one next (s, err x) = (s, err x)
next_one next (s, ok r) = collected r (next s)

unfoldable pub close_each :
    (String → Option SimulatedOrder)
    → LedgerStore
    → List String
    → ℕ
    → LedgerStore × Result SyncError (List OrderRecord)
close_each get_by_client_id s [] now = (s, ok [])
close_each get_by_client_id s (id ∷ ids) now =
    next_one (λ s'. close_each get_by_client_id s' ids now)
      (close_one s id (get_by_client_id id) now)

unfoldable pub close_terminal_orders :
    (String → Option SimulatedOrder)
    → LedgerStore
    → ℕ
    → LedgerStore × Result SyncError (List OrderRecord)
close_terminal_orders get_by_client_id s now =
    close_each get_by_client_id s (sorted_ids (open_order_ids s.internal)) now

latest_orders-append :
    (d : Dict OrderRecord) (rs : List OrderRecord) (r : OrderRecord)
    → latest_orders d (rs ++ r ∷ []) ≡ put (latest_orders d rs) r.client_order_id r
unfolding latest_orders
latest_orders-append d [] r = refl
latest_orders-append d (q ∷ rs) r = latest_orders-append (put d q.client_order_id q) rs r

close_one-records :
    (s s' : LedgerStore) (id : String) (o : Option SimulatedOrder) (now : ℕ) (r : OrderRecord)
    → close_one s id o now ≡ (s', ok (some r))
    → (s'.internal.order_records ≡ s.internal.order_records ++ closed_record s id now ∷ [])
      × (s'.internal.account_id ≡ s.internal.account_id)
unfolding close_one write_order_record record_order_status
close_one-records s s' id none now r h = absurd (ground (arith, h))
close_one-records s s' id (some o) now r h = ground (arith, h)

-- Closing an order loses what its fills need. Once an order was closed, an execution of it that the
-- broker reports afterwards, that is no fill yet, that no operator has decided and that is not held, of
-- the account and not later than now, is to be held back for an operator, whatever lot or holding
-- policy was recorded when the order was staged.
pub plan-close_one :
    (s s' : LedgerStore) (o : Option SimulatedOrder) (r : OrderRecord) (closed_at now : ℕ)
    (q : QuarantineStore) (ids : List String) (e : Execution)
    → close_one s e.client_order_id o closed_at ≡ (s', ok (some r))
    → known ids e.execution_id ≡ false
    → e.account_id ≡ s.internal.account_id
    → e.filled_at ≤ now
    → resolution_for q e.execution_id ≡ none
    → contains q.held e.execution_id ≡ false
    → (reason : String) × (plan s'.internal.account_id now
          (latest_orders [] s'.internal.order_records)
          q
          ids
          e
        ≡ ok (hold reason))
unfolding plan
plan-close_one s s' o r closed_at now q ids e h new own past undecided free =
    let (records, account) = close_one-records s s' e.client_order_id o closed_at r h in
    let stripped : get (latest_orders [] s'.internal.order_records) e.client_order_id
        ≡ some (closed_record s e.client_order_id closed_at) =
      ap (λ rs. get (latest_orders [] rs) e.client_order_id) records
      ∙ ap (λ d. get d e.client_order_id)
          (latest_orders-append [] s.internal.order_records
            (closed_record s e.client_order_id closed_at))
      ∙ get-put_self (latest_orders [] s.internal.order_records) e.client_order_id
          (closed_record s e.client_order_id closed_at) in
    let same : str_eq e.account_id s'.internal.account_id ≡ true =
      (eq_iff e.account_id s'.internal.account_id).1 (own ∙ sym account) in
    elim (Bool-cases (is_purchase e)) [
      | inl buys ↦ (
        "no holding_policy_version recorded at staging time",
        ground (
          arith,
          stripped,
          same,
          buys,
          status-held now (latest_orders [] s'.internal.order_records) q e.execution_id,
        ),
      )
      | inr sells ↦ (
        "no intended lot_id recorded at staging time",
        ground (
          arith,
          stripped,
          same,
          sells,
          status-held now (latest_orders [] s'.internal.order_records) q e.execution_id,
        ),
      )
    ]
