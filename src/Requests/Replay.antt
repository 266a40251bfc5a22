-- ===== src/Requests/Replay.antt =====
-- The file of agent/approval_request_store.py: what is loaded from the rows is the store that wrote
-- them.
use investmentagent.Prelude.{
  String, ◌≡◌, refl, ap, ◌∙◌, true, List, [], ◌∷◌, ◌++◌, inl, inr, Result-cases,
}
use investmentagent.Prelude.Dict.{Dict, get, put, contains, setdefault, Each-get}
use mathlib.Core.List.{append-nil}
use investmentagent.Prelude.Floats.{Floats}
use investmentagent.MarketCalendar.{Zone}
use investmentagent.Requests.{
  Event, created, ApprovalRequest, Row, RequestStore, empty, request_of, account_text,
}
use investmentagent.Requests.Lifecycle.{
  Call, Move, decide_it, mint_it, consume_it, invalidate_it, step, run, Effect, kept, fresh, move,
  step-Effect, moved, opened, date_of,
}
use investmentagent.Requests.States.{IsConsistent, Sound, Effect-IsConsistent, Move-request_id}

module _ (fl : Floats) (zone : Zone) where
  abbrev account_after : Event → Dict String → String → String → Dict String
  account_after created d id account_id = put d id account_id
  account_after _ d id account_id = setdefault d id account_id

  -- one turn of the loop of `_load_into`
  abbrev pub load_row : RequestStore fl → Row fl → RequestStore fl
  load_row s row =
      let id = row.request.request_id in
      record {
        rows = s.rows ++ row ∷ [];
        current = put s.current id row.request;
        account_of = account_after row.event s.account_of id row.account_id;
        decided_dates = s.decided_dates ++ date_of fl zone row.event row.request.decided_at;
      }

  load_from : RequestStore fl → List (Row fl) → RequestStore fl
  load_from s [] = s
  load_from s (row ∷ rows) = load_from (load_row s row) rows

  -- `_load_into`
  unfoldable pub load : List (Row fl) → RequestStore fl
  unfolding load_from
  load rows = load_from (empty fl) rows

  load_from-append :
      (s : RequestStore fl) (rows : List (Row fl)) (row : Row fl)
      → load_from s (rows ++ row ∷ []) ≡ load_row (load_from s rows) row
  unfolding load_from
  load_from-append s [] row = refl
  load_from-append s (r ∷ rows) row = load_from-append (load_row s r) rows row

  abbrev IsLoaded : RequestStore fl → Type 0
  IsLoaded s = load s.rows ≡ s

  load-append :
      (s : RequestStore fl) (row : Row fl) → IsLoaded s → load (s.rows ++ row ∷ []) ≡ load_row s row
  unfolding load
  load-append s row h = load_from-append (empty fl) s.rows row ∙ ap (λ t. load_row t row) h

  setdefault_known : (d : Dict String) (k a : String) → contains d k ≡ true → setdefault d k a ≡ d
  setdefault_known d k a h = rw h

  account_after-Move :
      {e : Event} {r r' : ApprovalRequest fl} (d : Dict String) (id a : String)
      → Move fl e r r'
      → contains d id ≡ true
      → account_after e d id a ≡ d
  account_after-Move d id a (decide_it word now by ok_word open_one valid) h =
      setdefault_known d id a h
  account_after-Move d id a (mint_it tok approved bare) h = setdefault_known d id a h
  account_after-Move d id a (consume_it tok minted) h = setdefault_known d id a h
  account_after-Move d id a (invalidate_it reason open_one valid) h = setdefault_known d id a h

  Effect-IsLoaded :
      {s s' : RequestStore fl} → Effect fl zone s s' → IsConsistent fl s → IsLoaded s → IsLoaded s'
  Effect-IsLoaded kept good h = h
  Effect-IsLoaded {s} (fresh a d now id free) good h =
      load-append s (record { event = created; account_id = a; request = request_of fl d id now }) h
      ∙ ap
          (λ dates. record (opened fl zone s a (request_of fl d id now) id) {
            decided_dates = dates;
          })
          (append-nil s.decided_dates)
  Effect-IsLoaded {s} (move e id r r' found m) good h =
      let (own, known, allowed) =
        Each-get (Sound fl s.account_of) s.current id {v = r} good found in
      let row : Row fl = record {
        event = e;
        account_id = account_text fl (get s.account_of id);
        request = r';
      } in
      load-append s row h
      ∙ ap
          (λ (key : String). record {
            rows = s.rows ++ row ∷ [];
            current = put s.current key r';
            account_of = account_after e s.account_of key row.account_id;
            decided_dates = s.decided_dates ++ date_of fl zone e r'.decided_at;
          })
          (Move-request_id fl m ∙ own)
      ∙ ap (λ accounts. record (moved fl zone s e id r') { account_of = accounts })
          (account_after-Move s.account_of id row.account_id m known)

  run-IsLoaded :
      (cs : List (Call fl)) (s : RequestStore fl)
      → IsConsistent fl s
      → IsLoaded s
      → IsLoaded (run fl zone cs s)
  unfolding run
  run-IsLoaded [] s good h = h
  run-IsLoaded (c ∷ cs) s good h = elim (Result-cases (step fl zone c s)) [
    | inl (s', e) ↦
        let effect = step-Effect fl zone c s s' e in
        rw (e, run)
          (run-IsLoaded cs s' (Effect-IsConsistent fl zone effect good)
            (Effect-IsLoaded effect good h))
    | inr (x, e) ↦ rw (e, run) (run-IsLoaded cs s good h)
  ]

  -- The file is complete: after any calls on a new store, what a restart loads from the rows is that store, with its requests, accounts and counted decisions.
  pub load-run :
      (cs : List (Call fl)) → load (run fl zone cs (empty fl)).rows ≡ run fl zone cs (empty fl)
  unfolding load load_from
  load-run cs = run-IsLoaded cs (empty fl) tt refl
