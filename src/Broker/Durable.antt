-- ===== src/Broker/Durable.antt =====
-- `submit` of agent/broker/base.py with the sink of agent/approval_execution.py, which records the
-- consumed token in the request store: what a process that starts afterwards finds.
use investmentagent.Prelude.{
  ℕ, String, ◌≡◌, refl, ap, ◌∙◌, true, Option, none, some, arith, is_some, Result, ok, err, inl,
  inr, ◌⊎◌, Option-cases,
}
use investmentagent.Prelude.Dict.{get, get-put_self}
use investmentagent.Prelude.Floats.{Floats}
use investmentagent.Audit.{Value, Payload}
use investmentagent.Approval.{ApprovalToken, token_consumed, token_for_request, consume}
use investmentagent.Requests.{
  ApprovalRequest, RequestStore, RequestError, record_token_consumed, replaced,
}
use investmentagent.Requests as requests
use investmentagent.Bridge.{World, mint_approval_token}
use investmentagent.Broker.{StagedOrder, Adapter, AdapterError, SubmitWorld, submit}
use investmentagent.Broker.Submit.{submit-cases, Refused}

module _ (fl : Floats) {B O : Type 0} (mac : String → Value → String)
    (identity : B → Result RequestError Unit) (request_id : String)
    (submit_impl : B → StagedOrder fl → B × Result RequestError O) where
  open fl use {Float}

  -- the callback that `execute_approved_request` attaches
  abbrev pub consumption_sink :
      Option (RequestStore fl → ApprovalToken fl → Result RequestError (RequestStore fl))
  consumption_sink = some (λ s tok. record_token_consumed fl s request_id tok)

  abbrev pub submit_durably :
      Adapter
      → SubmitWorld fl B (RequestStore fl)
      → StagedOrder fl
      → Option Float
      → ℕ
      → SubmitWorld fl B (RequestStore fl) × Result (AdapterError RequestError) O
  submit_durably a w o reference_price now =
      submit fl mac identity consumption_sink submit_impl a w o reference_price now

  consumed-snapshot :
      (s s' : RequestStore fl) (tok : ApprovalToken fl)
      → record_token_consumed fl s request_id tok ≡ ok s'
      → (r : ApprovalRequest fl) × (get s'.current request_id ≡ some r)
        × (r.token_snapshot ≡ some tok)
  unfolding record_token_consumed
  consumed-snapshot s s' tok h = elim (Option-cases (get s.current request_id)) [
    | inl unknown ↦ absurd (ground (arith, unknown, h))
    | inr (r, found) ↦
        let done : s'
            ≡ replaced fl s requests.token_consumed request_id
                (record r { token_snapshot = some tok }) =
          ground (arith, found, h) in
        (
          record r { token_snapshot = some tok },
          rw done (get-put_self s.current request_id (record r { token_snapshot = some tok })),
          refl,
        )
  ]

  replayed-consumed :
      (bw bw' : World fl) (r : ApprovalRequest fl) (tok tok' : ApprovalToken fl)
      (digest : Payload → String → String) (rounded : ℕ → Float → Float) (sha256 : Value → String)
      (now : ℕ) (qty limit : Option Float)
      → get bw.store.current request_id ≡ some r
      → r.token_snapshot ≡ some tok
      → token_for_request fl bw.service request_id ≡ none
      → mint_approval_token fl digest rounded sha256 bw request_id now qty limit ≡ ok (bw', tok')
      → tok' ≡ tok
  unfolding mint_approval_token
  replayed-consumed bw bw' r tok tok' digest rounded sha256 now qty limit found snapshot fresh h =
      ground (arith, found, snapshot, fresh, h)

  consumed_again :
      (tok : ApprovalToken fl) (fingerprint : String) (price : Float) (at : ℕ)
      → is_some tok.consumed_at ≡ true
      → consume fl tok fingerprint price at ≡ err token_consumed
  unfolding consume
  consumed_again tok fingerprint price at h = rw h refl

  -- An order goes to the broker at most once, a crash included. Where a `submit` whose sink records in
  -- the request store did not raise before it called the broker, a later process that has the store's
  -- rows and no token of the request in its memory may mint the request's token again, but every
  -- attempt to consume that token raises `TokenConsumed`, whatever the broker answered.
  pub consume-submit_durably :
      (a : Adapter) (w : SubmitWorld fl B (RequestStore fl)) (o : StagedOrder fl)
      (reference_price : Option Float) (now : ℕ) (digest : Payload → String → String)
      (rounded : ℕ → Float → Float) (sha256 : Value → String) (bw bw' : World fl) (now' : ℕ)
      (qty limit : Option Float) (tok : ApprovalToken fl) (fingerprint : String) (price : Float)
      (at : ℕ)
      → bw.store ≡ (submit_durably a w o reference_price now).0.store
      → token_for_request fl bw.service request_id ≡ none
      → mint_approval_token fl digest rounded sha256 bw request_id now' qty limit ≡ ok (bw', tok)
      → Refused fl mac identity consumption_sink submit_impl w
          (submit_durably a w o reference_price now)
        ⊎ (consume fl tok fingerprint price at ≡ err token_consumed)
  consume-submit_durably a w o reference_price now digest rounded sha256 bw bw' now' qty limit tok
        fingerprint price at kept restarted minted =
      elim (submit-cases fl mac identity consumption_sink submit_impl a w o reference_price now) [
        | inl refused ↦ inl refused
        | inr (spent, (i, c, v, p, sp), after, recorded, called, r) ↦
            let s' = (submit_durably a w o reference_price now).0.store in
            let (q, found, snapshot) = consumed-snapshot w.store s' spent recorded in
            let same : tok ≡ spent =
              replayed-consumed bw bw' q spent tok digest rounded sha256 now' qty limit
                (ap (λ (s : RequestStore fl). get s.current request_id) kept ∙ found) snapshot
                restarted minted in
            inr (
              consumed_again tok fingerprint price at
                (ap (λ (k : ApprovalToken fl). is_some k.consumed_at) (same ∙ sp.3)))
      ]
