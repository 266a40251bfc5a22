-- ===== src/Bridge/Mint.antt =====
-- The steps of `mint_approval_token` of agent/approval_bridge.py: the calls that a first token has
-- gone through, and the replay of a recorded one.
use investmentagent.Prelude.{
  ℕ, String, ◌≡◌, ◌≢◌, refl, sym, ◌∙◌, ap, true, false, Option, none, some, [], ◌∷◌, arith, str_eq,
  leb, find, Result, ok, err, inl, inr, eq_iff, Result-cases, Option-cases,
}
use investmentagent.Prelude.Int.{ℤ}
use investmentagent.Prelude.Dict.{Dict, get, put, get-put_self}
use investmentagent.Prelude.Floats.{Floats}
use investmentagent.Audit.{AuditLog, Payload, Value}
use investmentagent.Approval.{
  ApprovalToken, ApprovalService, Approval, approve, choose_band, mint, token_for_request,
  first_token,
}
use investmentagent.Requests.{
  ApprovalRequest, RequestStore, RequestError, record_token_minted, is_approved, replaced,
  token_minted,
}
use investmentagent.Bridge.{
  BridgeError, World, request, final_order, approval_of, issue, mint_first, mint_approval_token,
  validate_modification, reject_compound, replayed,
}

module _ (fl : Floats) (digest : Payload → String → String) (rounded : ℕ → fl.Float → fl.Float)
    (sha256 : Value → String) where
  open fl use {Float, le, lt, add, sub, literal}

  choose_band-own :
      (s : ApprovalService fl) (a : Approval fl) (log log' : Option AuditLog) (band : Float × Float)
      (low high : Float)
      → a.price_band_low ≡ some low
      → a.price_band_high ≡ some high
      → choose_band fl digest s a log ≡ ok (band, log')
      → band ≡ (low, high)
  unfolding choose_band
  choose_band-own s a none log' band low high p q h = ground (arith, p, q, h)
  choose_band-own s a (some l) log' band low high p q h = ground (arith, p, q, h)

  pub approve-mint :
      (s s' : ApprovalService fl) (a : Approval fl) (log log' : Option AuditLog)
      (tok : ApprovalToken fl) (low high : Float)
      → a.price_band_low ≡ some low
      → a.price_band_high ≡ some high
      → approve fl digest s a log ≡ ok (s', tok, log')
      → (tok ≡ mint fl digest s a (low, high))
        × (get s.tokens a.token_id ≡ none)
        × (s' ≡ record s { tokens = put s.tokens a.token_id tok })
  unfolding approve
  approve-mint s s' a log log' tok low high p q h =
      elim (Result-cases (choose_band fl digest s a log)) [
        | inl ((band, log''), e) ↦
            let own = choose_band-own s a log log'' band low high p q e in
            let minted : tok ≡ mint fl digest s a band = ground (arith, e, h) in
            (rw (← own) minted, ground (arith, e, h), ground (arith, e, h))
        | inr (x, e) ↦ absurd (ground (arith, e, h))
      ]

  -- a token that was entered under a new id is the one that the request finds
  find-put_new :
      (d : Dict (ApprovalToken fl)) (k : String) (tok : ApprovalToken fl) (id : String)
      → get d k ≡ none
      → tok.request_id ≡ id
      → first_token fl (find (λ (e : String × ApprovalToken fl). str_eq (e.1).request_id id) d)
        ≡ none
      → first_token fl
          (find (λ (e : String × ApprovalToken fl). str_eq (e.1).request_id id) (put d k tok))
        ≡ some tok
  unfolding put get
  find-put_new [] k tok id new own h = ground (arith, eq_iff tok.request_id id)
  find-put_new ((j, t) ∷ d) k tok id new own h =
      ground (arith, find-put_new d k tok id, eq_iff tok.request_id id)

  record-fits :
      (s : RequestStore fl) (id : String) (r : ApprovalRequest fl) (tok : ApprovalToken fl)
      → get s.current id ≡ some r
      → is_approved fl r ≡ true
      → r.token_snapshot ≡ none
      → record_token_minted fl s id tok
        ≡ ok (replaced fl s token_minted id (record r { token_snapshot = some tok }))
  unfolding record_token_minted
  record-fits s id r tok found approved bare = rw (found, approved, bare) refl

  -- a first token: what was called, and the world after it
  abbrev pub Issued :
      World fl → String → ApprovalRequest fl → Approval fl → World fl → ApprovalToken fl → Type 0
  Issued w id r a w' tok =
      (approve fl digest w.service a w.log ≡ ok (w'.service, tok, w'.log))
      × (w'.store ≡ replaced fl w.store token_minted id (record r { token_snapshot = some tok }))

  module _ (w : World fl) (id : String) (r : ApprovalRequest fl)
      (found : get w.store.current id ≡ some r) (approved : is_approved fl r ≡ true)
      (bare : r.token_snapshot ≡ none) where
    pub issue-Issued :
        (a : Approval fl) (w' : World fl) (tok : ApprovalToken fl)
        → issue fl digest rounded sha256 w id a ≡ ok (w', tok)
        → Issued w id r a w' tok
    unfolding issue
    issue-Issued a w' tok h = elim (Result-cases (approve fl digest w.service a w.log)) [
      | inl ((service, t, log), e) ↦
          ground (arith, e, h, record-fits w.store id r t found approved bare)
      | inr (x, e) ↦ absurd (ground (arith, e, h))
    ]

    pub issue-recorded :
        (a : Approval fl) (e : RequestError)
        → issue fl digest rounded sha256 w id a ≢ err (request e)
    unfolding issue
    issue-recorded a x h = elim (Result-cases (approve fl digest w.service a w.log)) [
      | inl ((service, t, log), e) ↦
          ground (arith, e, h, record-fits w.store id r t found approved bare)
      | inr (y, e) ↦ ground (arith, e, h)
    ]

  pub mint_first-issue :
      (w w' : World fl) (id : String) (r : ApprovalRequest fl) (now : ℕ) (qty limit : Option Float)
      (tok : ApprovalToken fl)
      → mint_first fl digest rounded sha256 w id r now qty limit ≡ ok (w', tok)
      → (recorded : ℤ) × (r.decision_elapsed_ms ≡ some recorded)
        × (leb r.expires_at now ≡ false)
        × (reject_compound fl r.proposal_snapshot ≡ ok tt)
        × (validate_modification fl r.proposal_snapshot qty limit ≡ ok tt)
        × (issue fl digest rounded sha256 w id (
              approval_of fl digest rounded sha256 r id
                (final_order fl r.proposal_snapshot qty limit)
                now
                recorded)
            ≡ ok (w', tok))
  unfolding mint_first
  mint_first-issue w w' id r now qty limit tok h = elim (Option-cases r.decision_elapsed_ms) [
    | inl unrecorded ↦ absurd (ground (arith, unrecorded, h))
    | inr (recorded, e) ↦ (
      recorded,
      e,
      ground (arith, e, h),
      ground (arith, e, h),
      ground (arith, e, h),
      ground (arith, e, h),
    )
  ]

  -- a request that may have a token
  abbrev pub Mintable : World fl → String → ApprovalRequest fl → Type 0
  Mintable w id r =
      (get w.store.current id ≡ some r) × (is_approved fl r ≡ true) × (r.invalidated_reason ≡ none)

  module _ (w : World fl) (id : String) (now : ℕ) (qty limit : Option Float) where
    abbrev pub first : ApprovalRequest fl → Result BridgeError (World fl × ApprovalToken fl)
    first r = mint_first fl digest rounded sha256 w id r now qty limit

    pub mint-replayed :
        (r : ApprovalRequest fl)
        → Mintable w id r
        → mint_approval_token fl digest rounded sha256 w id now qty limit
          ≡ replayed fl digest rounded sha256 w
              (token_for_request fl w.service id)
              r.token_snapshot
              (first r)
    unfolding mint_approval_token
    mint-replayed r (found, approved, valid) = rw (found, approved, valid) refl

    pub mint-Mintable :
        (w' : World fl) (tok : ApprovalToken fl)
        → mint_approval_token fl digest rounded sha256 w id now qty limit ≡ ok (w', tok)
        → (r : ApprovalRequest fl) × Mintable w id r
    unfolding mint_approval_token
    mint-Mintable w' tok h = elim (Option-cases (get w.store.current id)) [
      | inl unknown ↦ absurd (ground (arith, unknown, h))
      | inr (r, found) ↦ (r, (found, ground (arith, found, h), ground (arith, found, h)))
    ]

    -- what the first token of a request is made of
    pub mint-Issued :
        (w' : World fl) (tok : ApprovalToken fl) (r : ApprovalRequest fl)
        → Mintable w id r
        → token_for_request fl w.service id ≡ none
        → r.token_snapshot ≡ none
        → mint_approval_token fl digest rounded sha256 w id now qty limit ≡ ok (w', tok)
        → first r ≡ ok (w', tok)
    mint-Issued w' tok r m free bare h =
        sym (
          mint-replayed r m
          ∙ ap (λ t. replayed fl digest rounded sha256 w t r.token_snapshot (first r)) free
          ∙ ap (λ t. replayed fl digest rounded sha256 w none t (first r)) bare)
        ∙ h

  -- the store and the service after a first token
  pub Issued-service :
      (w w' : World fl) (id : String) (r : ApprovalRequest fl) (a : Approval fl)
      (tok : ApprovalToken fl) (low high : Float)
      → a.price_band_low ≡ some low
      → a.price_band_high ≡ some high
      → a.request_id ≡ id
      → token_for_request fl w.service id ≡ none
      → Issued w id r a w' tok
      → token_for_request fl w'.service id ≡ some tok
  unfolding token_for_request
  Issued-service w w' id r a tok low high p q own free (called, stored) =
      let (minted, new, table) =
        approve-mint w.service w'.service a w.log w'.log tok low high p q called in
      rw table (
        find-put_new w.service.tokens a.token_id tok id new
          (ap (λ (t : ApprovalToken fl). t.request_id) minted ∙ own) free)

  pub Issued-Mintable :
      (w w' : World fl) (id : String) (r : ApprovalRequest fl) (a : Approval fl)
      (tok : ApprovalToken fl)
      → Mintable w id r
      → Issued w id r a w' tok
      → Mintable w' id (record r { token_snapshot = some tok })
  Issued-Mintable w w' id r a tok (found, approved, valid) (called, stored) = (
    rw stored (get-put_self w.store.current id (record r { token_snapshot = some tok })),
    approved,
    valid,
  )
