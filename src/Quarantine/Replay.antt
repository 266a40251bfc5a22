-- ===== src/Quarantine/Replay.antt =====
-- What the calls on the store of agent/execution_quarantine.py come to: decisions are permanent and
-- well-formed, and the file gives the store back.
use investmentagent.Prelude.{
  String, ◌≡◌, refl, ap, ◌∙◌, true, false, none, some, List, [], ◌∷◌, ◌++◌, arith, str_eq, ok,
  ◌>>=◌, inl, inr, Result-cases,
}
use investmentagent.Prelude.Dict.{get, get-put_other}
use investmentagent.Quarantine.{
  ExecutionResolution, QuarantineStore, Row, quarantined, resolution, empty, load_row, load_rows,
}
use investmentagent.Quarantine.Decisions.{
  Call, step, run, resolved, Decided, Effect, kept, holds, resolves, step-Effect, IsSound,
  Effect-IsSound,
}

-- the store without its rows, which a reading does not collect
abbrev pub unwritten : QuarantineStore → QuarantineStore
unwritten s = record s { rows = [] }

load_rows-append :
    (s : QuarantineStore) (rows : List Row) (row : Row)
    → load_rows s (rows ++ row ∷ []) ≡ (load_rows s rows >>= λ s'. load_row s' row)
unfolding load_rows
load_rows-append s [] row = elim (Result-cases (load_row s row)) [
  | inl (s', e) ↦ rw e refl
  | inr (x, e) ↦ rw e refl
]
load_rows-append s (r ∷ rows) row = elim (Result-cases (load_row s r)) [
  | inl (s', e) ↦ rw e (load_rows-append s' rows row)
  | inr (x, e) ↦ rw e refl
]

load_row-resolution :
    (s : QuarantineStore) (r : ExecutionResolution)
    → get s.resolutions r.execution_id ≡ none
    → Decided s.held r.execution_id r
    → load_row (unwritten s) (resolution r) ≡ ok (unwritten (resolved s r))
unfolding load_row
load_row-resolution s r new (own, (q, there, inl rejected)) =
    let no : str_eq r.decision "ADMITTED" ≡ false = rw rejected refl in
    let is : str_eq r.decision "REJECTED" ≡ true = rw rejected refl in
    ground (arith, new, there, no, is)
load_row-resolution s r new (own, (q, there, inr (admitted, fit))) =
    let is : str_eq r.decision "ADMITTED" ≡ true = rw admitted refl in
    ground (arith, new, there, is, fit)

module _ (account_id : String) where
  abbrev IsLoaded : QuarantineStore → Type 0
  IsLoaded s = load_rows (empty account_id) s.rows ≡ ok (unwritten s)

  one_more :
      (s : QuarantineStore) (row : Row)
      → IsLoaded s
      → load_rows (empty account_id) (s.rows ++ row ∷ []) ≡ load_row (unwritten s) row
  one_more s row h =
      load_rows-append (empty account_id) s.rows row ∙ ap (λ r. r >>= λ s'. load_row s' row) h

  Effect-IsLoaded : {s s' : QuarantineStore} → Effect s s' → IsLoaded s → IsLoaded s'
  unfolding load_row
  Effect-IsLoaded kept h = h
  Effect-IsLoaded {s} (holds q own new) h = one_more s (quarantined q) h ∙ rw (own, new) refl
  Effect-IsLoaded {s} (resolves r new d) h =
      one_more s (resolution r) h ∙ load_row-resolution s r new d

  abbrev Good : QuarantineStore → Type 0
  Good s = IsSound s × IsLoaded s

  run-Good : (cs : List Call) (s : QuarantineStore) → Good s → Good (run cs s)
  unfolding run
  run-Good [] s good = good
  run-Good (c ∷ cs) s (sound, loaded) = elim (Result-cases (step c s)) [
    | inl (s', e) ↦
        let effect = step-Effect c s s' e in
        rw (e, run) (run-Good cs s' (Effect-IsSound effect sound, Effect-IsLoaded effect loaded))
    | inr (x, e) ↦ rw (e, run) (run-Good cs s (sound, loaded))
  ]

  -- Nothing is guessed: after any calls on a new store, each held execution is of the account, and each decision is about a held execution and is a rejection, or an admission with exactly the field that the execution's side wants, the holding policy of a purchase or else the lot.
  pub run-IsSound : (cs : List Call) → IsSound (run cs (empty account_id))
  unfolding load_rows
  run-IsSound cs = (run-Good cs (empty account_id) ((tt, tt), refl)).0

  -- Reading is pure and complete: after any calls on a new store, reading its rows gives that store's executions and decisions, and every row is accepted.
  pub load_rows-decisions :
      (cs : List Call)
      → load_rows (empty account_id) (run cs (empty account_id)).rows
        ≡ ok (unwritten (run cs (empty account_id)))
  unfolding load_rows
  load_rows-decisions cs = (run-Good cs (empty account_id) ((tt, tt), refl)).1

Effect-resolution :
    {s s' : QuarantineStore} (id : String) (r : ExecutionResolution)
    → Effect s s'
    → get s.resolutions id ≡ some r
    → get s'.resolutions id ≡ some r
Effect-resolution id r kept h = h
Effect-resolution id r (holds q own new) h = h
Effect-resolution {s} id r (resolves q new d) h =
    get-put_other s.resolutions q.execution_id id q new h

-- A decision is permanent: whatever is called afterwards, the resolution of an execution that has one stays the same in every field.
pub run-permanent :
    (cs : List Call) (s : QuarantineStore) (id : String) (r : ExecutionResolution)
    → get s.resolutions id ≡ some r
    → get (run cs s).resolutions id ≡ some r
unfolding run
run-permanent [] s id r h = h
run-permanent (c ∷ cs) s id r h = elim (Result-cases (step c s)) [
  | inl (s', e) ↦
      rw (e, run) (run-permanent cs s' id r (Effect-resolution id r (step-Effect c s s' e) h))
  | inr (x, e) ↦ rw (e, run) (run-permanent cs s id r h)
]
