-- ===== src/Bridge/Once.antt =====
-- One token for each approved request of agent/approval_bridge.py: it authorises no more than the
-- request, it is recorded, and a later call gives it again, also after a restart.
use investmentagent.Prelude.{
  ℕ, String, ◌≡◌, ◌≢◌, refl, sym, ◌∙◌, true, false, Option, none, some, arith, leb, ok, err, inl,
  inr, ◌⊎◌, Option-cases, raise_if, >>=-ne-err,
}
use investmentagent.Prelude.Int.{ℤ}
use investmentagent.Prelude.Dict.{get}
use investmentagent.Prelude.Floats.{Floats}
use investmentagent.Audit.{Payload, Value}
use investmentagent.Approval.{ApprovalToken, ApprovalService, token_for_request}
use investmentagent.Requests.{ApprovalRequest, RequestError, is_approved}
use investmentagent.Bridge.{
  World, request, final_order, approval_of, mint_approval_token, validate_modification,
  reject_compound, mint_first, recorded_ms, check_elapsed, request_expired,
}
use investmentagent.Bridge.Bounds.{validate-no-request, compound-no-request}
use investmentagent.Bridge.Mint.{
  Issued, Mintable, issue-Issued, issue-recorded, mint_first-issue, mint-replayed, mint-Mintable,
  mint-Issued, Issued-service, Issued-Mintable,
}

module _ (fl : Floats) (digest : Payload → String → String) (rounded : ℕ → fl.Float → fl.Float)
    (sha256 : Value → String) where
  open fl use {Float, le, lt, add, sub, literal}

  -- the service after a restart knows no token of the request, or it is still the one that issued
  abbrev pub Restarted : World fl → ApprovalService fl → String → Type 0
  Restarted w service id =
      (token_for_request fl service id ≡ none)
      ⊎ (token_for_request fl service id ≡ token_for_request fl w.service id)

  abbrev with_service : World fl → ApprovalService fl → World fl
  with_service w service = record w { service = service }

  -- a recorded token is given again, whichever service is asked
  replay-recorded :
      (w : World fl) (id : String) (now : ℕ) (qty limit : Option Float) (r : ApprovalRequest fl)
      (tok : ApprovalToken fl)
      → Mintable fl digest rounded sha256 w id r
      → r.token_snapshot ≡ some tok
      → (token_for_request fl w.service id ≡ none) ⊎ (token_for_request fl w.service id ≡ some tok)
      → mint_approval_token fl digest rounded sha256 w id now qty limit ≡ ok (w, tok)
  replay-recorded w id now qty limit r tok m known (inl gone) =
      mint-replayed fl digest rounded sha256 w id now qty limit r m ∙ rw (gone, known) refl
  replay-recorded w id now qty limit r tok m known (inr live) =
      mint-replayed fl digest rounded sha256 w id now qty limit r m ∙ rw live refl

  module _ (w w' : World fl) (id : String) (now : ℕ) (qty limit : Option Float)
      (tok : ApprovalToken fl) (free : token_for_request fl w.service id ≡ none)
      (minted : mint_approval_token fl digest rounded sha256 w id now qty limit
        ≡ ok (w', tok)) where
    -- the call that issued the token, if none was recorded before
    issued :
        (r : ApprovalRequest fl)
        → Mintable fl digest rounded sha256 w id r
        → r.token_snapshot ≡ none
        → (recorded : ℤ) × (r.decision_elapsed_ms ≡ some recorded)
          × (leb r.expires_at now ≡ false)
          × (reject_compound fl r.proposal_snapshot ≡ ok tt)
          × (validate_modification fl r.proposal_snapshot qty limit ≡ ok tt)
          × Issued fl digest rounded sha256 w id r
              (approval_of fl digest rounded sha256 r id
                (final_order fl r.proposal_snapshot qty limit)
                now
                recorded)
              w'
              tok
    issued r m bare =
        let (recorded, known, alive, single, within, called) =
          mint_first-issue fl digest rounded sha256 w w' id r now qty limit tok
            (mint-Issued fl digest rounded sha256 w id now qty limit w' tok r m free bare minted) in
        (
          recorded,
          known,
          alive,
          single,
          within,
          issue-Issued fl digest rounded sha256 w id r m.0 m.1 bare
              (approval_of fl digest rounded sha256 r id
                (final_order fl r.proposal_snapshot qty limit) now recorded)
              w' tok called,
        )

    forgotten :
        (service : ApprovalService fl)
        → w ≡ w'
        → Restarted w' service id
        → token_for_request fl service id ≡ none
    forgotten service same (inl gone) = gone
    forgotten service same (inr live) = live ∙ rw (← same) free

    mint-twice_recorded :
        (r : ApprovalRequest fl) (t : ApprovalToken fl) (service : ApprovalService fl) (now' : ℕ)
        (qty' limit' : Option Float)
        → Mintable fl digest rounded sha256 w id r
        → r.token_snapshot ≡ some t
        → Restarted w' service id
        → mint_approval_token fl digest rounded sha256 (with_service w' service) id now' qty' limit'
          ≡ ok (with_service w' service, tok)
    mint-twice_recorded r t service now' qty' limit' m known back =
        let again = sym (replay-recorded w id now qty limit r t m known (inl free)) ∙ minted in
        let same_world : w ≡ w' = cc again in
        let same_token : t ≡ tok = cc again in
        let gone : (token_for_request fl service id ≡ none) = forgotten service same_world back in
        rw (← same_world, ← same_token)
          (replay-recorded (with_service w service) id now' qty' limit' r t m known (inl gone))

    mint-twice_new :
        (r : ApprovalRequest fl) (service : ApprovalService fl) (now' : ℕ)
        (qty' limit' : Option Float)
        → Mintable fl digest rounded sha256 w id r
        → r.token_snapshot ≡ none
        → Restarted w' service id
        → mint_approval_token fl digest rounded sha256 (with_service w' service) id now' qty' limit'
          ≡ ok (with_service w' service, tok)
    mint-twice_new r service now' qty' limit' m bare back =
        let (recorded, known, alive, single, within, called) = issued r m bare in
        let o = final_order fl r.proposal_snapshot qty limit in
        let a = approval_of fl digest rounded sha256 r id o now recorded in
        replay-recorded (with_service w' service) id now' qty' limit'
          (record r { token_snapshot = some tok }) tok
          (Issued-Mintable fl digest rounded sha256 w w' id r a tok m called) refl
          (elim back [
            | inl gone ↦ inl gone
            | inr live ↦ inr (
                live
                ∙ Issued-service fl digest rounded sha256 w w' id r a tok r.price_band_low
                    r.price_band_high refl refl refl free called)
          ])

    -- A request has one token. After a call that returned a token, when the service held none before, every later call gives that token and changes nothing, at any instant and with any overrides: whether it asks the same service, or one that a restart left without the tokens of the request.
    pub mint-twice :
        (service : ApprovalService fl) (now' : ℕ) (qty' limit' : Option Float)
        → Restarted w' service id
        → mint_approval_token fl digest rounded sha256 (with_service w' service) id now' qty' limit'
          ≡ ok (with_service w' service, tok)
    mint-twice service now' qty' limit' back =
        let (r, m) = mint-Mintable fl digest rounded sha256 w id now qty limit w' tok minted in
        elim (Option-cases r.token_snapshot) [
          | inl bare ↦ mint-twice_new r service now' qty' limit' m bare back
          | inr (t, known) ↦ mint-twice_recorded r t service now' qty' limit' m known back
        ]

  recorded-no-request :
      (o : Option ℤ) (e : RequestError) → recorded_ms fl digest rounded sha256 o ≢ err (request e)
  recorded-no-request none e h = cc
  recorded-no-request (some ms) e h = cc

  elapsed-no-request :
      (r : ApprovalRequest fl) (now : ℕ) (ms : ℤ) (e : RequestError)
      → check_elapsed fl r now ms ≢ err (request e)
  elapsed-no-request r now ms e h = ground arith

  mint_first-recorded :
      (w : World fl) (id : String) (r : ApprovalRequest fl) (now : ℕ) (qty limit : Option Float)
      (e : RequestError)
      → Mintable fl digest rounded sha256 w id r
      → r.token_snapshot ≡ none
      → mint_first fl digest rounded sha256 w id r now qty limit ≢ err (request e)
  unfolding mint_first
  mint_first-recorded w id r now qty limit e (found, approved, valid) bare h =
      let o = final_order fl r.proposal_snapshot qty limit in
      let x = request e in
      >>=-ne-err (raise_if (leb r.expires_at now) request_expired) _ x (ground arith)
        (λ _.
          >>=-ne-err (reject_compound fl r.proposal_snapshot) _ x
            (compound-no-request fl r.proposal_snapshot e)
            (λ _.
              >>=-ne-err (validate_modification fl r.proposal_snapshot qty limit) _ x
                (validate-no-request fl r.proposal_snapshot qty limit e)
                (λ _.
                  >>=-ne-err (recorded_ms fl digest rounded sha256 r.decision_elapsed_ms) _ x
                    (recorded-no-request r.decision_elapsed_ms e)
                    (λ ms.
                      >>=-ne-err (check_elapsed fl r now ms) _ x (elapsed-no-request r now ms e)
                        (λ _.
                          issue-recorded fl digest rounded sha256 w id r found approved bare
                            (approval_of fl digest rounded sha256 r id o now ms) e)))))
        h

  -- No token is issued without its record: the store never refuses to record a token that the service has just issued.
  pub mint-recorded :
      (w : World fl) (id : String) (now : ℕ) (qty limit : Option Float) (e : RequestError)
      → mint_approval_token fl digest rounded sha256 w id now qty limit ≢ err (request e)
  unfolding mint_approval_token
  mint-recorded w id now qty limit e h = elim (Option-cases (get w.store.current id)) [
    | inl unknown ↦ ground (arith, unknown, h)
    | inr (r, found) ↦ elim (Option-cases r.token_snapshot) [
      | inl bare ↦ ground (
        arith,
        found,
        bare,
        h,
        λ (a : is_approved fl r ≡ true) (v : r.invalidated_reason ≡ none).
            mint_first-recorded w id r now qty limit e (found, a, v) bare,
      )
      | inr (tok, known) ↦ ground (arith, found, known, h)
    ]
  ]
