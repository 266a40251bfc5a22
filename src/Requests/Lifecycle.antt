-- ===== src/Requests/Lifecycle.antt =====
-- The life of a request in agent/approval_request_store.py: the transitions that a call can make,
-- and what they keep.
use investmentagent.Prelude.{
  ℕ, String, ◌≡◌, refl, ◌∙◌, ap, true, Option, none, some, List, [], ◌∷◌, ◌++◌, arith, is_some,
  Result, ok, err, Bool-cases, inl, inr, Option-cases,
}
use mathlib.Core.List.{append-nil}
use investmentagent.Prelude.Text.{same_text?, same_text?_iff}
use investmentagent.Prelude.Dict.{get, put}
use investmentagent.Prelude.Floats.{Floats}
use investmentagent.MarketCalendar.{Zone, session_for_instant}
use investmentagent.Requests.{
  Event, created, decided, token_minted, token_consumed, invalidated, ApprovalRequest, RequestStore,
  RequestError, replaced, create, decide, record_token_minted, record_token_consumed, invalidate,
  request_of, with_decision, Draft, is_decision,
}
use investmentagent.Approval.{ApprovalToken}

module _ (fl : Floats) where
  -- a call that changes the store
  pub data Call : Type 0 where
    creating : String → Draft fl → ℕ → String → Call
    deciding : String → String → ℕ → String → Call
    minting consuming : String → ApprovalToken fl → Call
    invalidating : String → String → Call

  -- the transitions of a request that exists
  pub data Move : Event → ApprovalRequest fl → ApprovalRequest fl → Type 0 where
    decide_it :
        {r : ApprovalRequest fl} (d : String) (now : ℕ) (decided_by : String)
        → is_decision fl d ≡ true
        → r.decision ≡ none
        → r.invalidated_reason ≡ none
        → Move decided r (with_decision fl r d now decided_by)
    mint_it :
        {r : ApprovalRequest fl} (tok : ApprovalToken fl)
        → r.decision ≡ some "APPROVED"
        → r.token_snapshot ≡ none
        → Move token_minted r (record r { token_snapshot = some tok })
    consume_it :
        {r : ApprovalRequest fl} (tok : ApprovalToken fl)
        → is_some r.token_snapshot ≡ true
        → Move token_consumed r (record r { token_snapshot = some tok })
    invalidate_it :
        {r : ApprovalRequest fl} (reason : String)
        → r.decision ≡ none
        → r.invalidated_reason ≡ none
        → Move invalidated r (record r { invalidated_reason = some reason })

  module _ (zone : Zone) where
    unfoldable pub step : Call → RequestStore fl → Result RequestError (RequestStore fl)
    step (creating account_id d now id) s = create fl s account_id d now id
    step (deciding id d now decided_by) s = decide fl zone s id d now decided_by
    step (minting id tok) s = record_token_minted fl s id tok
    step (consuming id tok) s = record_token_consumed fl s id tok
    step (invalidating id reason) s = invalidate fl s id reason

    abbrev after : RequestStore fl → Result RequestError (RequestStore fl) → RequestStore fl
    after s (ok s') = s'
    after s (err e) = s

    -- the store after the calls; one that raises changes nothing
    unfoldable pub run : List Call → RequestStore fl → RequestStore fl
    run [] s = s
    run (c ∷ cs) s = run cs (after s (step c s))

    abbrev pub date_of : Event → Option ℕ → List ℕ
    date_of decided (some t) = session_for_instant zone t ∷ []
    date_of _ _ = []

    abbrev pub moved : RequestStore fl → Event → String → ApprovalRequest fl → RequestStore fl
    moved s e id r = record (replaced fl s e id r) {
      decided_dates = s.decided_dates ++ date_of e r.decided_at;
    }

    abbrev pub opened : RequestStore fl → String → ApprovalRequest fl → String → RequestStore fl
    opened s account_id r id = record {
      rows = s.rows ++ record { event = created; account_id = account_id; request = r } ∷ [];
      current = put s.current id r;
      account_of = put s.account_of id account_id;
      decided_dates = s.decided_dates;
    }

    -- What a call that returns does: nothing, a new request, or one transition of one request.
    pub data Effect (s : RequestStore fl) : RequestStore fl → Type 0 where
      kept : Effect s s
      fresh :
          (account_id : String) (d : Draft fl) (now : ℕ) (id : String)
          → get s.current id ≡ none
          → Effect s (opened s account_id (request_of fl d id now) id)
      move :
          (e : Event) (id : String) (r r' : ApprovalRequest fl)
          → get s.current id ≡ some r
          → Move e r r'
          → Effect s (moved s e id r')

    create-Effect :
        (s s' : RequestStore fl) (a : String) (d : Draft fl) (now : ℕ) (id : String)
        → create fl s a d now id ≡ ok s'
        → Effect s s'
    unfolding create
    create-Effect s s' a d now id h = elim (Option-cases (get s.current id)) [
      | inl free ↦
          let e : opened s a (request_of fl d id now) id ≡ s' = ground (arith, free, h) in
          rw (← e) (fresh a d now id free)
      | inr (r, taken) ↦ absurd (ground (arith, taken, h))
    ]

    decide-Effect :
        (s s' : RequestStore fl) (id d : String) (now : ℕ) (by : String)
        → decide fl zone s id d now by ≡ ok s'
        → Effect s s'
    unfolding decide
    decide-Effect s s' id d now by h = elim (Option-cases (get s.current id)) [
      | inl free ↦ absurd (ground (arith, free, h))
      | inr (r, found) ↦
          let e : moved s decided id (with_decision fl r d now by) ≡ s' =
            ground (arith, found, h) in
          rw (← e) (
            move decided id r (with_decision fl r d now by) found (
              decide_it d now by (ground (arith, found, h)) (ground (arith, found, h))
                (ground (arith, found, h))))
    ]

    quiet :
        (s : RequestStore fl) (e : Event) (id : String) (r : ApprovalRequest fl)
        → date_of e r.decided_at ≡ []
        → moved s e id r ≡ replaced fl s e id r
    quiet s e id r h =
        ap (λ dates. record (replaced fl s e id r) { decided_dates = dates })
          (rw h (append-nil s.decided_dates))

    record_token_minted-Effect :
        (s s' : RequestStore fl) (id : String) (tok : ApprovalToken fl)
        → record_token_minted fl s id tok ≡ ok s'
        → Effect s s'
    unfolding record_token_minted
    record_token_minted-Effect s s' id tok h = elim (Option-cases (get s.current id)) [
      | inl free ↦ absurd (ground (arith, free, h))
      | inr (r, found) ↦
          let r' : ApprovalRequest fl = record r { token_snapshot = some tok } in
          let e : replaced fl s token_minted id r' ≡ s' = ground (arith, found, h) in
          let approved : same_text? r.decision (some "APPROVED") ≡ true =
            ground (arith, found, h) in
          rw (← (quiet s token_minted id r' refl ∙ e)) (
            move token_minted id r r' found (
              mint_it tok ((same_text?_iff r.decision (some "APPROVED")).0 approved)
                (ground (arith, found, h))))
    ]

    record_token_consumed-Effect :
        (s s' : RequestStore fl) (id : String) (tok : ApprovalToken fl)
        → record_token_consumed fl s id tok ≡ ok s'
        → Effect s s'
    unfolding record_token_consumed
    record_token_consumed-Effect s s' id tok h = elim (Option-cases (get s.current id)) [
      | inl free ↦ absurd (ground (arith, free, h))
      | inr (r, found) ↦
          let r' : ApprovalRequest fl = record r { token_snapshot = some tok } in
          let e : replaced fl s token_consumed id r' ≡ s' = ground (arith, found, h) in
          rw (← (quiet s token_consumed id r' refl ∙ e))
            (move token_consumed id r r' found (consume_it tok (ground (arith, found, h))))
    ]

    invalidate-Effect :
        (s s' : RequestStore fl) (id reason : String)
        → invalidate fl s id reason ≡ ok s'
        → Effect s s'
    unfolding invalidate
    invalidate-Effect s s' id reason h = elim (Option-cases (get s.current id)) [
      | inl free ↦ absurd (ground (arith, free, h))
      | inr (r, found) ↦ elim (Bool-cases (is_some r.invalidated_reason)) [
        | inl already ↦ let e : s ≡ s' = ground (arith, found, already, h) in rw (← e) kept
        | inr valid ↦
            let r' : ApprovalRequest fl = record r { invalidated_reason = some reason } in
            let e : replaced fl s invalidated id r' ≡ s' = ground (arith, found, valid, h) in
            rw (← (quiet s invalidated id r' refl ∙ e)) (
              move invalidated id r r' found
                (invalidate_it reason (ground (arith, found, h)) (ground (arith, valid))))
      ]
    ]

    -- Every call that returns either leaves the store as it is, or opens a request under an id that was free, or takes one request through one transition that its state allows.
    pub step-Effect : (c : Call) (s s' : RequestStore fl) → step c s ≡ ok s' → Effect s s'
    unfolding step
    step-Effect (creating a d now id) s s' h = create-Effect s s' a d now id h
    step-Effect (deciding id d now by) s s' h = decide-Effect s s' id d now by h
    step-Effect (minting id tok) s s' h = record_token_minted-Effect s s' id tok h
    step-Effect (consuming id tok) s s' h = record_token_consumed-Effect s s' id tok h
    step-Effect (invalidating id reason) s s' h = invalidate-Effect s s' id reason h
