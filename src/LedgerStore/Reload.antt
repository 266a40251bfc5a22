-- ===== src/LedgerStore/Reload.antt =====
-- What a restart reads from the file of agent/ledger_store.py is the store that wrote it.
use investmentagent.Prelude.{
  ℕ, String, ◌≡◌, refl, sym, ap, ◌∙◌, true, false, some, List, [], ◌∷◌, ◌++◌, arith, ok,
  Result-cases, ◌>>=◌, inl, inr, ok-injective,
}
use investmentagent.Prelude.Int.{ℤ, pos, ltb_ℤ}
use investmentagent.MarketCalendar.{Zone}
use investmentagent.LotSelection.{LotSelectionPolicy}
use investmentagent.Holding as holding
use investmentagent.Ledger.{Ledger, record_each, new_ledger}
use investmentagent.LedgerStore.Restart.{reopened, to_ledger-Built}
use investmentagent.LedgerStore.History.{
  Call, step, run, Effect, kept, opened, took, step-Effect, Grounded,
}
use investmentagent.LedgerStore.{
  LedgerStore, Row, load_row, load_rows, opening_balance, new_store, to_ledger, empty_store, fill,
  order_record, cash_adjustment, opening_balance_correction, opening_position,
}

-- a store as a reading of its rows leaves it, which collects no rows
abbrev pub unwritten : LedgerStore → LedgerStore
unwritten s = record s { rows = [] }

load_rows-append :
    (s : LedgerStore) (rows : List Row) (row : Row)
    → load_rows s (rows ++ row ∷ []) ≡ (load_rows s rows >>= λ s'. load_row s' row)
unfolding load_rows
load_rows-append s [] row = elim (Result-cases (load_row s row)) [
  | inl (s', e) ↦ rw e refl
  | inr (x, e) ↦ rw e refl
]
load_rows-append s (r ∷ rows) row = elim (Result-cases (load_row s r)) [
  | inl (s', e) ↦ rw e (load_rows-append s' rows row)
  | inr (x, e) ↦ rw e refl
]

-- reading a row does not look at the rows that were read
load_row-unwritten :
    (s : LedgerStore) (row : Row) (l : Ledger)
    → load_row s row ≡ ok (record s { internal = l })
    → load_row (unwritten s) row ≡ ok (record (unwritten s) { internal = l })
unfolding load_row
load_row-unwritten s (opening_balance amount at) l h = ground (arith, h)
load_row-unwritten s (fill f) l h = ground (arith, h)
load_row-unwritten s (order_record r) l h = ground (arith, h)
load_row-unwritten s (cash_adjustment a) l h = ground (arith, h)
load_row-unwritten s (opening_balance_correction c) l h = ground (arith, h)
load_row-unwritten s (opening_position symbol qty) l h = ground (arith, h)

module _ (base : LedgerStore) where
  abbrev pub IsLoaded : LedgerStore → Type 0
  IsLoaded s = load_rows base s.rows ≡ ok (unwritten s)

  one_more :
      (s : LedgerStore) (row : Row)
      → IsLoaded s
      → load_rows base (s.rows ++ row ∷ []) ≡ load_row (unwritten s) row
  one_more s row h = load_rows-append base s.rows row ∙ ap (λ r. r >>= λ s'. load_row s' row) h

  Effect-IsLoaded : {s s' : LedgerStore} → Effect s s' → IsLoaded s → IsLoaded s'
  unfolding load_row
  Effect-IsLoaded kept h = h
  Effect-IsLoaded {s} (opened amount at) h = one_more s (opening_balance amount at) h
  Effect-IsLoaded {s} (took row false l read again grounded) h =
      one_more s row h ∙ load_row-unwritten s row l read
  Effect-IsLoaded {s} (took row true l read (inl new) grounded) h = cc
  Effect-IsLoaded {s} (took row true l read (inr same) grounded) h =
      h ∙ ap (λ m. ok (record s { internal = m; rows = [] })) (sym same)

Effect-Grounded : {s s' : LedgerStore} → Effect s s' → Grounded s.internal → Grounded s'.internal
Effect-Grounded kept g = g
Effect-Grounded (opened amount at) g = g
Effect-Grounded (took row known l read again grounded) g = grounded

module _ (zone : Zone) (base : LedgerStore) where
  abbrev Good : LedgerStore → Type 0
  Good s = Grounded s.internal × IsLoaded base s

  run-Good : (cs : List Call) (s : LedgerStore) → Good s → Good (run zone cs s)
  unfolding run
  run-Good [] s good = good
  run-Good (c ∷ cs) s (grounded, loaded) = elim (Result-cases (step zone c s)) [
    | inl (s', e) ↦
        let effect = step-Effect zone c s s' grounded e in
        rw (e, run)
          (run-Good cs s' (Effect-Grounded effect grounded, Effect-IsLoaded base effect loaded))
    | inr (x, e) ↦ rw (e, run) (run-Good cs s (grounded, loaded))
  ]

module _ (zone : Zone) (account_id : String) (registry : holding.Registry) (t_plus : ℕ)
    (policy : LotSelectionPolicy) (base : LedgerStore)
    (new : new_store account_id registry t_plus policy ≡ ok base) where
  abbrev first_store : LedgerStore
  first_store = empty_store record {
    account_id = account_id;
    opening_settled_cash = pos 0;
    opening_positions = [];
    policy_registry = registry;
    t_plus = t_plus;
    lot_selection_policy = policy;
    fills = [];
    order_records = [];
    fill_ids = [];
    cash_adjustments = [];
    cash_adjustment_ids = [];
    opening_balance_corrections = [];
    opening_balance_correction_ids = [];
  }

  new-first : first_store ≡ base
  unfolding new_store new_ledger
  new-first = ok-injective new

  new-Good : Good zone base base
  unfolding load_rows record_each
  new-Good = rw (← new-first) (((refl, refl, refl, refl), (tt, tt, tt), refl), refl)

  -- The file is complete: after any writes on a new store, of which some may have been refused, reading its rows into a new store gives that store: its ledger in every list and table, its opening balance and the time it was taken.
  pub load_rows-run :
      (cs : List Call) → load_rows base (run zone cs base).rows ≡ ok (unwritten (run zone cs base))
  load_rows-run cs = (run-Good zone base cs base new-Good).1

  -- A restart succeeds: after any writes on a new store, once the opening balance is set and is not negative, `to_ledger` gives the internal ledger, the same in every record, with that balance.
  pub to_ledger-run :
      (cs : List Call) (opening : ℤ)
      → (run zone cs base).opening ≡ some opening
      → ltb_ℤ opening (pos 0) ≡ false
      → to_ledger (run zone cs base)
        ≡ ok (reopened (run zone cs base).internal opening (run zone cs base).opening_positions)
  to_ledger-run cs opening seeded funded =
      to_ledger-Built (run zone cs base) opening (run-Good zone base cs base new-Good).0.0 seeded
        funded
