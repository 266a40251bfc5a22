-- ===== src/FillSync/Plan.antt =====
-- What one turn of the loop of agent/fill_sync.py decides, and when a decision to do nothing stays.
use investmentagent.Prelude.{
  ℕ, String, ◌≡◌, ◌≢◌, refl, true, false, Option, none, some, List, [], ◌∷◌, ◌++◌, arith, str_eq,
  is_some, Result, ok, Bool-cases, inl, inr, ◌⊎◌, eq_refl, Option-cases,
}
use investmentagent.Prelude.Dict.{Dict, get, contains, Each}
use investmentagent.Ledger.Records.{Fill, OrderRecord}
use investmentagent.Ledger.{Ledger}
use investmentagent.Quarantine.{
  Execution, ExecutionResolution, QuarantineStore, resolution_for, status,
}
use investmentagent.FillSync.{
  SyncError, SyncWorld, Action, skip, write, hold, plan, known, fill_ids, check_execution,
  intended_action, policy_of, lot_of,
}

pub known-front :
    (ids : List String) (i id : String) → known ids id ≡ true → known (i ∷ ids) id ≡ true
known-front ids i id h = ground (arith, h)

pub known-append :
    (fs : List Fill) (f : Fill) (id : String)
    → known (fill_ids fs) id ≡ true
    → known (fill_ids (fs ++ f ∷ [])) id ≡ true
known-append [] f id h = cc
known-append (g ∷ fs) f id h = ground (arith, known-append fs f id)

pub known-last : (fs : List Fill) (f : Fill) → known (fill_ids (fs ++ f ∷ [])) f.fill_id ≡ true
known-last [] f = ground (arith, eq_refl f.fill_id)
known-last (g ∷ fs) f = ground (arith, known-last fs f)

-- the ledger's table of ids has no id that is not in its list of fills
abbrev pub Listed : Ledger → Type 0
Listed l = Each (λ id f. known (fill_ids l.fills) id ≡ true) l.fill_ids

-- what a later moment keeps of an earlier one
abbrev pub Ahead : SyncWorld → List String → SyncWorld → List String → Type 0
Ahead w ids w' ids' =
    ((id : String) → known ids id ≡ true → known ids' id ≡ true)
    × ((id : String)
        → contains w.quarantined.held id ≡ true
        → contains w'.quarantined.held id ≡ true)
    × (w'.quarantined.resolutions ≡ w.quarantined.resolutions)
    × (w'.ledger.internal.account_id ≡ w.ledger.internal.account_id)
    × (w'.ledger.internal.order_records ≡ w.ledger.internal.order_records)

-- the ids that the loop knows are those of fills
abbrev pub Recorded : SyncWorld → List String → Type 0
Recorded w ids =
    Listed w.ledger.internal
    × ((id : String) → known ids id ≡ true → known (fill_ids w.ledger.internal.fills) id ≡ true)

intended-write :
    (e : Execution) (o : Option OrderRecord) (f : Fill)
    → ◌≡◌ {A = Result SyncError Action} (ok (intended_action e o)) (ok (write f))
    → f.fill_id ≡ e.execution_id
intended-write e o f h = elim (Option-cases (policy_of o)) [
  | inl no_policy ↦ elim (Option-cases (lot_of o)) [
    | inl no_lot ↦ ground (arith, h, no_policy, no_lot)
    | inr (lot, has_lot) ↦ ground (arith, h, no_policy, has_lot)
  ]
  | inr (version, has_policy) ↦ elim (Option-cases (lot_of o)) [
    | inl no_lot ↦ ground (arith, h, has_policy, no_lot)
    | inr (lot, has_lot) ↦ ground (arith, h, has_policy, has_lot)
  ]
]

no-skip :
    (e : Execution) (o : Option OrderRecord)
    → ◌≢◌ {A = Result SyncError Action} (ok (intended_action e o)) (ok skip)
no-skip e o h = elim (Option-cases (policy_of o)) [
  | inl no_policy ↦ elim (Option-cases (lot_of o)) [
    | inl no_lot ↦ ground (arith, h, no_policy, no_lot)
    | inr (lot, has_lot) ↦ ground (arith, h, no_policy, has_lot)
  ]
  | inr (version, has_policy) ↦ elim (Option-cases (lot_of o)) [
    | inl no_lot ↦ ground (arith, h, has_policy, no_lot)
    | inr (lot, has_lot) ↦ ground (arith, h, has_policy, has_lot)
  ]
]

-- where nothing is left to do, the execution is a fill, or is held, or was decided and not admitted
abbrev pub Accounted : QuarantineStore → List String → String → Type 0
Accounted q ids id =
    (known ids id ≡ true)
    ⊎ ((contains q.held id ≡ true)
        ⊎ ((r : ExecutionResolution) × (resolution_for q id ≡ some r)
            × (str_eq r.decision "ADMITTED" ≡ false)))

module _ (now : ℕ) (latest : Dict OrderRecord) where
  -- nothing is left to do about the execution
  abbrev pub Settled : SyncWorld → List String → Execution → Type 0
  Settled w ids e = plan w.ledger.internal.account_id now latest w.quarantined ids e ≡ ok skip

  pub plan-known :
      (a : String) (q : QuarantineStore) (ids : List String) (e : Execution)
      → known ids e.execution_id ≡ true
      → plan a now latest q ids e ≡ ok skip
  unfolding plan
  plan-known a q ids e h = rw h refl

  -- a fill that is written has the id of its execution
  pub plan-write :
      (a : String) (q : QuarantineStore) (ids : List String) (e : Execution) (f : Fill)
      → plan a now latest q ids e ≡ ok (write f)
      → f.fill_id ≡ e.execution_id
  unfolding plan
  plan-write a q ids e f h = elim (Option-cases (resolution_for q e.execution_id)) [
    | inl undecided ↦ elim (Bool-cases (is_some (status q e.execution_id))) [
      | inl held ↦ absurd (ground (arith, h, undecided, held))
      | inr fresh_one ↦
          intended-write e (get latest e.client_order_id) f
            (ground (arith, h, undecided, fresh_one))
    ]
    | inr (r, decided) ↦ elim (Option-cases r.lot_id) [
      | inl no_lot ↦ ground (arith, h, decided, no_lot)
      | inr (lot, has_lot) ↦ ground (arith, h, decided, has_lot)
    ]
  ]

  -- an execution is held back only where nothing was decided and no record of it exists
  pub plan-hold :
      (a : String) (q : QuarantineStore) (ids : List String) (e : Execution) (reason : String)
      → plan a now latest q ids e ≡ ok (hold reason)
      → (check_execution a now e ≡ ok tt) × (resolution_for q e.execution_id ≡ none)
  unfolding plan
  plan-hold a q ids e reason h = elim (Option-cases (resolution_for q e.execution_id)) [
    | inl undecided ↦ (ground (arith, h), undecided)
    | inr (r, decided) ↦ elim (Option-cases r.lot_id) [
      | inl no_lot ↦ absurd (ground (arith, h, decided, no_lot))
      | inr (lot, has_lot) ↦ absurd (ground (arith, h, decided, has_lot))
    ]
  ]

  pub status-held : (q : QuarantineStore) (id : String) → is_some (status q id) ≡ contains q.held id
  unfolding status
  status-held q id = ground arith

  -- the plan to do nothing stays, as more is known and held and the decisions are the same
  pub plan-skip :
      (a : String) (q q' : QuarantineStore) (ids ids' : List String) (e : Execution)
      → q'.resolutions ≡ q.resolutions
      → (contains q.held e.execution_id ≡ true → contains q'.held e.execution_id ≡ true)
      → known ids e.execution_id ≡ false
      → known ids' e.execution_id ≡ false
      → plan a now latest q ids e ≡ ok skip
      → plan a now latest q' ids' e ≡ ok skip
  unfolding plan resolution_for
  plan-skip a q q' ids ids' e same holds new new' h =
      elim (Option-cases (get q.resolutions e.execution_id)) [
        | inl undecided ↦
            let undecided' : get q'.resolutions e.execution_id ≡ none = rw same undecided in
            elim (Bool-cases (contains q.held e.execution_id)) [
              | inl held ↦ ground (
                arith,
                h,
                new,
                new',
                undecided,
                undecided',
                held,
                holds held,
                status-held q e.execution_id,
                status-held q' e.execution_id,
              )
              | inr free ↦ absurd (
                  no-skip e (get latest e.client_order_id)
                    (ground (arith, h, new, undecided, free, status-held q e.execution_id)))
            ]
        | inr (r, decided) ↦
            let decided' : get q'.resolutions e.execution_id ≡ some r = rw same decided in
            ground (arith, h, new, new', decided, decided')
      ]

  pub Settled-Ahead :
      (w w' : SyncWorld) (ids ids' : List String) (e : Execution)
      → Ahead w ids w' ids'
      → Settled w ids e
      → Settled w' ids' e
  Settled-Ahead w w' ids ids' e (more, holds, same, account, orders) h =
      elim (Bool-cases (known ids' e.execution_id)) [
        | inl there ↦ plan-known w'.ledger.internal.account_id w'.quarantined ids' e there
        | inr gone ↦ elim (Bool-cases (known ids e.execution_id)) [
          | inl there ↦ absurd (ground (arith, gone, more e.execution_id there))
          | inr new ↦ rw account (
              plan-skip w.ledger.internal.account_id w.quarantined w'.quarantined ids ids' e same
                (holds e.execution_id) new gone h)
        ]
      ]

  -- an execution that is held is left alone until it is decided
  pub plan-held :
      (a : String) (q : QuarantineStore) (ids : List String) (e : Execution)
      → check_execution a now e ≡ ok tt
      → resolution_for q e.execution_id ≡ none
      → contains q.held e.execution_id ≡ true
      → plan a now latest q ids e ≡ ok skip
  unfolding plan
  plan-held a q ids e checked undecided held =
      ground (arith, checked, undecided, held, status-held q e.execution_id)

  pub plan-Accounted :
      (a : String) (q : QuarantineStore) (ids : List String) (e : Execution)
      → plan a now latest q ids e ≡ ok skip
      → Accounted q ids e.execution_id
  unfolding plan
  plan-Accounted a q ids e h = elim (Bool-cases (known ids e.execution_id)) [
    | inl there ↦ inl there
    | inr new ↦ elim (Option-cases (resolution_for q e.execution_id)) [
      | inl undecided ↦ elim (Bool-cases (contains q.held e.execution_id)) [
        | inl held ↦ inr (inl held)
        | inr free ↦ absurd (
            no-skip e (get latest e.client_order_id)
              (ground (arith, h, new, undecided, free, status-held q e.execution_id)))
      ]
      | inr (r, decided) ↦ elim (Bool-cases (str_eq r.decision "ADMITTED")) [
        | inr other ↦ inr (inr (r, decided, other))
        | inl admitted ↦ elim (Option-cases r.lot_id) [
          | inl no_lot ↦ absurd (ground (arith, h, new, decided, admitted, no_lot))
          | inr (lot, has_lot) ↦ absurd (ground (arith, h, new, decided, admitted, has_lot))
        ]
      ]
    ]
  ]
