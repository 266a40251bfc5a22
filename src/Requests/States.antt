-- ===== src/Requests/States.antt =====
-- What the calls on the store of agent/approval_request_store.py keep: each request is in an allowed
-- state, and a request that is decided or invalidated stays so.
use investmentagent.Prelude.{
  String, ◌≡◌, refl, ◌∙◌, true, ◌||◌, none, some, List, [], ◌∷◌, arith, is_some, Bool-cases, inl,
  inr, ◌⊎◌, eq_iff, str_eq, Result-cases,
}
use investmentagent.Prelude.Dict.{
  Dict, get, put, contains, Each, Each-put, Each-get, Each-map, get-put, get-put_self,
}
use investmentagent.Prelude.Floats.{Floats}
use investmentagent.MarketCalendar.{Zone}
use investmentagent.Requests.{Event, ApprovalRequest, RequestStore, request_of}
use investmentagent.Requests.Lifecycle.{
  Call, Move, decide_it, mint_it, consume_it, invalidate_it, step, run, Effect, kept, fresh, move,
  step-Effect,
}

module _ (fl : Floats) where
  -- decided or invalidated, never both; a token only of an approved request; a decision has its time
  abbrev pub Allowed : ApprovalRequest fl → Type 0
  Allowed r =
      ((r.decision ≡ none) ⊎ (r.invalidated_reason ≡ none))
      × ((r.token_snapshot ≡ none) ⊎ (r.decision ≡ some "APPROVED"))
      × (is_some r.decision ≡ is_some r.decided_at)

  Move-Allowed : {e : Event} {r r' : ApprovalRequest fl} → Move fl e r r' → Allowed r → Allowed r'
  Move-Allowed (decide_it {r} d now by word open_one valid) (one, inl bare, timed) =
      (inr valid, inl bare, refl)
  Move-Allowed (decide_it {r} d now by word open_one valid) (one, inr approved, timed) =
      absurd (ground (arith, open_one, approved))
  Move-Allowed (mint_it tok approved bare) (one, token, timed) = (one, inr approved, timed)
  Move-Allowed (consume_it tok minted) (one, inl bare, timed) =
      absurd (ground (arith, bare, minted))
  Move-Allowed (consume_it tok minted) (one, inr approved, timed) = (one, inr approved, timed)
  Move-Allowed (invalidate_it reason open_one valid) (one, token, timed) =
      (inl open_one, token, timed)

  pub Move-request_id :
      {e : Event} {r r' : ApprovalRequest fl} → Move fl e r r' → r'.request_id ≡ r.request_id
  Move-request_id (decide_it d now by word open_one valid) = refl
  Move-request_id (mint_it tok approved bare) = refl
  Move-request_id (consume_it tok minted) = refl
  Move-request_id (invalidate_it reason open_one valid) = refl

  -- a request stands under its id, has an account and is in an allowed state
  abbrev pub Sound : Dict String → String → ApprovalRequest fl → Type 0
  Sound accounts id r = (r.request_id ≡ id) × (contains accounts id ≡ true) × Allowed r

  abbrev pub IsConsistent : RequestStore fl → Type 0
  IsConsistent s = Each (Sound s.account_of) s.current

  contains-put :
      (d : Dict String) (k j a : String) → contains d j ≡ true → contains (put d k a) j ≡ true
  contains-put d k j a h = ground (arith, get-put d k j a)

  module _ (zone : Zone) where
    pub Effect-IsConsistent :
        {s s' : RequestStore fl} → Effect fl zone s s' → IsConsistent s → IsConsistent s'
    Effect-IsConsistent kept h = h
    Effect-IsConsistent {s} (fresh a d now id free) h =
        Each-put (Sound (put s.account_of id a)) s.current id (request_of fl d id now)
          (Each-map {P = Sound s.account_of} {Q = Sound (put s.account_of id a)} s.current
            (λ j r known. (known.0, contains-put s.account_of id j a known.1, known.2)) h)
          (refl, ground (arith, get-put_self s.account_of id a), (inl refl, inl refl, refl))
    Effect-IsConsistent {s} (move e id r r' found m) h =
        let (own, known, allowed) = Each-get (Sound s.account_of) s.current id {v = r} h found in
        Each-put (Sound s.account_of) s.current id r' h
          (Move-request_id m ∙ own, known, Move-Allowed m allowed)

    -- A request that was decided, or that was invalidated, keeps its decision, who took it and when, and its reason of invalidation.
    abbrev pub Fixed : ApprovalRequest fl → ApprovalRequest fl → Type 0
    Fixed r r' =
        (r'.decision ≡ r.decision)
        × (r'.decided_by ≡ r.decided_by)
        × (r'.decided_at ≡ r.decided_at)
        × (r'.decision_elapsed_ms ≡ r.decision_elapsed_ms)
        × (r'.invalidated_reason ≡ r.invalidated_reason)

    abbrev pub Closed : ApprovalRequest fl → Type 0
    Closed r = (is_some r.decision || is_some r.invalidated_reason) ≡ true

    Move-Fixed : {e : Event} {r r' : ApprovalRequest fl} → Move fl e r r' → Closed r → Fixed r r'
    Move-Fixed (decide_it d now by word open_one valid) h =
        absurd (ground (arith, open_one, valid, h))
    Move-Fixed (mint_it tok approved bare) h = (refl, refl, refl, refl, refl)
    Move-Fixed (consume_it tok minted) h = (refl, refl, refl, refl, refl)
    Move-Fixed (invalidate_it reason open_one valid) h = absurd (ground (arith, open_one, valid, h))

    Fixed-refl : (r : ApprovalRequest fl) → Fixed r r
    Fixed-refl r = (refl, refl, refl, refl, refl)

    abbrev pub StillFixed : ApprovalRequest fl → RequestStore fl → String → Type 0
    StillFixed r s id = (r' : ApprovalRequest fl) × (get s.current id ≡ some r') × Fixed r r'

    Effect-Fixed :
        {s s' : RequestStore fl} (id : String) (r : ApprovalRequest fl)
        → Effect fl zone s s'
        → get s.current id ≡ some r
        → Closed r
        → StillFixed r s' id
    Effect-Fixed id r kept found h = (r, found, Fixed-refl r)
    Effect-Fixed {s} id r (fresh a d now j free) found h = elim (Bool-cases (str_eq j id)) [
      | inl same ↦
          let e = (eq_iff j id).0 same in
          absurd (let there : get s.current j ≡ some r = rw e found in ground (arith, there, free))
      | inr other ↦
          (r, rw (get-put s.current j id (request_of fl d j now), other) found, Fixed-refl r)
    ]
    Effect-Fixed {s} id r (move e j q q' there m) found h = elim (Bool-cases (str_eq j id)) [
      | inl same ↦
          let e = (eq_iff j id).0 same in
          let here : get s.current j ≡ some r = rw e found in
          let own : q ≡ r = ground (arith, here, there) in
          (q', rw (get-put s.current j id q', same) refl, rw (← own) (Move-Fixed m (rw own h)))
      | inr other ↦ (r, rw (get-put s.current j id q', other) found, Fixed-refl r)
    ]

    -- Whatever is called, this is kept: each request stands under its id and has an account, is never both decided and invalidated, holds a token only if it was approved, and has the time of its decision exactly when it has one.
    pub run-IsConsistent :
        (cs : List (Call fl)) (s : RequestStore fl)
        → IsConsistent s
        → IsConsistent (run fl zone cs s)
    unfolding run
    run-IsConsistent [] s h = h
    run-IsConsistent (c ∷ cs) s h = elim (Result-cases (step fl zone c s)) [
      | inl (s', e) ↦
          rw (e, run)
            (run-IsConsistent cs s' (Effect-IsConsistent (step-Effect fl zone c s s' e) h))
      | inr (x, e) ↦ rw (e, run) (run-IsConsistent cs s h)
    ]

    Fixed-trans : (a b c : ApprovalRequest fl) → Fixed a b → Fixed b c → Fixed a c
    Fixed-trans a b c f g = (g.0 ∙ f.0, g.1 ∙ f.1, g.2 ∙ f.2, g.3 ∙ f.3, g.4 ∙ f.4)

    Fixed-Closed : (r r' : ApprovalRequest fl) → Fixed r r' → Closed r → Closed r'
    Fixed-Closed r r' f h = rw (f.0, f.4) h

    -- Once a request is decided or invalidated, no sequence of calls changes its decision, who took it and when, its elapsed time or its reason of invalidation, nor removes it.
    pub run-Fixed :
        (cs : List (Call fl)) (s : RequestStore fl) (id : String) (r : ApprovalRequest fl)
        → get s.current id ≡ some r
        → Closed r
        → StillFixed r (run fl zone cs s) id
    unfolding run
    run-Fixed [] s id r found h = (r, found, Fixed-refl r)
    run-Fixed (c ∷ cs) s id r found h = elim (Result-cases (step fl zone c s)) [
      | inl (s', e) ↦
          let (r', there, f) = Effect-Fixed id r (step-Effect fl zone c s s' e) found h in
          let (r'', last, g) = run-Fixed cs s' id r' there (Fixed-Closed r r' f h) in
          rw (e, run) (r'', last, Fixed-trans r r' r'' f g)
      | inr (x, e) ↦ rw (e, run) (run-Fixed cs s id r found h)
    ]
