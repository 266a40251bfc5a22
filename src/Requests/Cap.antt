-- ===== src/Requests/Cap.antt =====
-- The daily cap of agent/approval_request_store.py: what `count_decided_on` counts.
use investmentagent.Prelude.{
  ℕ, ◌+◌, String, ◌≡◌, refl, Bool, false, none, some, List, [], ◌∷◌, ◌++◌, arith, length, filter,
  if◌then◌else◌, ◌==◌, inl, inr, Result-cases, Option-cases,
}
use investmentagent.Prelude.Dict.{Dict, get, put, Each-get}
use investmentagent.Prelude.Floats.{Floats}
use investmentagent.MarketCalendar.{Zone, session_for_instant}
use investmentagent.Requests.{
  ApprovalRequest, RequestStore, count_decided_on, empty, request_of, Event,
}
use investmentagent.Requests.Lifecycle.{
  Call, Move, decide_it, mint_it, consume_it, invalidate_it, step, run, Effect, kept, fresh, move,
  step-Effect, date_of,
}
use investmentagent.Requests.States.{IsConsistent, Sound, Effect-IsConsistent, Allowed}

-- how many entries of a table pass a test
module _ {V : Type 0} (p : V → Bool) where
  tally : Dict V → ℕ
  tally [] = 0
  tally ((k, v) ∷ d) = let rest = tally d in if p v then rest + 1 else rest

  tally-put_new :
      (d : Dict V) (k : String) (v : V)
      → get d k ≡ none
      → tally (put d k v) ≡ tally d + (if p v then 1 else 0)
  unfolding tally put get
  tally-put_new [] k v h = ground arith
  tally-put_new ((j, w) ∷ d) k v h = ground (arith, tally-put_new d k v)

  tally-put_old :
      (d : Dict V) (k : String) (v w : V)
      → get d k ≡ some v
      → tally (put d k w) + (if p v then 1 else 0) ≡ tally d + (if p w then 1 else 0)
  unfolding tally put get
  tally-put_old [] k v w h = cc
  tally-put_old ((j, u) ∷ d) k v w h = ground (arith, tally-put_old d k v w)

module _ (fl : Floats) (zone : Zone) (day : ℕ) where
  -- decided in the session of the day, either way
  abbrev pub decided_in : ApprovalRequest fl → Bool
  decided_in r = elim r.decided_at [ none ↦ false | some t ↦ session_for_instant zone t == day ]

  pub decided_requests : Dict (ApprovalRequest fl) → ℕ
  unfolding tally
  decided_requests d = tally decided_in d

  abbrev Counted : RequestStore fl → Type 0
  Counted s = count_decided_on fl s day ≡ decided_requests s.current

  abbrev on_day : List ℕ → ℕ
  on_day dates = length (filter (λ d. d == day) dates)

  on_day-append : (xs ys : List ℕ) → on_day (xs ++ ys) ≡ on_day xs + on_day ys
  on_day-append [] ys = omega arith
  on_day-append (x ∷ xs) ys = ground (arith, on_day-append xs ys)

  abbrev one_if : Bool → ℕ
  one_if b = if b then 1 else 0

  Move-on_day :
      {e : Event} {r r' : ApprovalRequest fl}
      → Move fl e r r'
      → Allowed fl r
      → on_day (date_of fl zone e r'.decided_at) + one_if (decided_in r) ≡ one_if (decided_in r')
  Move-on_day (decide_it {r} d now by word open_one valid) (one, token, timed) =
      elim (Option-cases r.decided_at) [
        | inl untimed ↦ rw untimed (ground arith)
        | inr (t, known) ↦ absurd (ground (arith, open_one, known, timed))
      ]
  Move-on_day (mint_it tok approved bare) allowed = omega arith
  Move-on_day (consume_it tok minted) allowed = omega arith
  Move-on_day (invalidate_it reason open_one valid) allowed = omega arith

  Effect-Counted :
      {s s' : RequestStore fl} → Effect fl zone s s' → IsConsistent fl s → Counted s → Counted s'
  unfolding count_decided_on decided_requests
  Effect-Counted kept good h = h
  Effect-Counted {s} (fresh a d now id free) good h =
      omega (arith, h, tally-put_new decided_in s.current id (request_of fl d id now) free)
  Effect-Counted {s} (move e id r r' found m) good h =
      let (own, known, allowed) =
        Each-get (Sound fl s.account_of) s.current id {v = r} good found in
      omega (
        arith,
        h,
        on_day-append s.decided_dates (date_of fl zone e r'.decided_at),
        Move-on_day m allowed,
        tally-put_old decided_in s.current id r r' found,
      )

  run-Counted :
      (cs : List (Call fl)) (s : RequestStore fl)
      → IsConsistent fl s
      → Counted s
      → Counted (run fl zone cs s)
  unfolding run
  run-Counted [] s good h = h
  run-Counted (c ∷ cs) s good h = elim (Result-cases (step fl zone c s)) [
    | inl (s', e) ↦
        let effect = step-Effect fl zone c s s' e in
        rw (e, run)
          (run-Counted cs s' (Effect-IsConsistent fl zone effect good)
            (Effect-Counted effect good h))
    | inr (x, e) ↦ rw (e, run) (run-Counted cs s good h)
  ]

  -- After any calls on a new store, the count that the daily cap is held against is the number of requests that were approved or rejected in that session: one that expired, was invalidated or is still open does not count.
  pub count_decided_on-run :
      (cs : List (Call fl))
      → count_decided_on fl (run fl zone cs (empty fl)) day
        ≡ decided_requests (run fl zone cs (empty fl)).current
  unfolding count_decided_on decided_requests
  count_decided_on-run cs = run-Counted cs (empty fl) tt refl
