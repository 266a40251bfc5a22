-- ===== src/Broker/Submit.antt =====
-- `submit` and `cancel` of agent/broker/base.py: what holds when an order reaches the broker, and how
-- many orders one token lets through.
use investmentagent.Prelude.{
  ℕ, ◌<◌, String, ◌≡◌, refl, ap, ◌∙◌, true, false, Option, none, some, arith, str_eq, is_ok, eq_iff,
  Result, ok, ◌>>◌, Result-cases, Option-cases, >>=-eq-ok, catch-eq-ok, catch, inl, inr, ◌⊎◌,
}
use investmentagent.Prelude.Floats.{Floats}
use investmentagent.Audit.{Value}
use investmentagent.Approval.{
  ApprovalError, ApprovalToken, verify_modification_within_bounds, verify_minimum_display_time,
  consume,
}
use investmentagent.Approval.Token.{consume_iff}
use investmentagent.Policy.{TradeCapabilityPolicy, PolicyError, check}
use investmentagent.Policy as policy
use investmentagent.Broker.{
  StagedOrder, verify, order_of, AdapterError, Adapter, SubmitWorld, verify_staged_or_raise,
  dimensions, gate_4, price_for, spend, admit, recorded, capability, approval, raised, submit,
  may_cancel, cancel,
}

module _ (fl : Floats) {X B S : Type 0} (mac : String → Value → String)
    (identity : B → Result X Unit) (sink : Option (S → ApprovalToken fl → Result X S)) where
  open fl use {Float, le}

  -- the order carries the Gatekeeper's signature for this account
  abbrev pub Verified : Adapter → StagedOrder fl → Type 0
  Verified a o =
      (key : String) × (a.staging_key ≡ some key)
      × (verify fl mac o key ≡ true)
      × (o.account_id ≡ a.account_id)

  -- the policy allows it
  abbrev pub Capable : Adapter → StagedOrder fl → Type 0
  Capable a o =
      (p : TradeCapabilityPolicy) × (a.capability_policy ≡ some p)
      × (check p policy.adapter a.is_live (some o.symbol) (dimensions fl mac identity sink o)
          ≡ ok tt)

  -- the token covers it and could be spent
  abbrev pub Spendable :
      StagedOrder fl → Option (ApprovalToken fl) → Option Float → ℕ → ApprovalToken fl → Type 0
  Spendable o token reference_price now spent =
      (tok : ApprovalToken fl) × (price : Float) × (token ≡ some tok)
      × (spent ≡ record tok { consumed_at = some now })
      × (tok.consumed_at ≡ none)
      × (price_for fl mac identity sink reference_price o.limit_price ≡ ok price)
      × (verify_modification_within_bounds fl tok (order_of fl o) ≡ ok tt)
      × (verify_minimum_display_time fl tok now ≡ ok tt)
      × (now < tok.expires_at)
      × (le tok.price_band.0 price ≡ true)
      × (le price tok.price_band.1 ≡ true)

  verified :
      (a : Adapter) (o : StagedOrder fl)
      → verify_staged_or_raise fl mac identity sink a o ≡ ok tt
      → Verified a o
  unfolding verify_staged_or_raise
  verified a o h = elim (Option-cases a.staging_key) [
    | inl unset ↦ absurd (ground (arith, unset, h))
    | inr (key, attached) ↦ (
      key,
      attached,
      ground (arith, attached, h, eq_iff o.account_id a.account_id),
      ground (arith, attached, h, eq_iff o.account_id a.account_id),
    )
  ]

  abbrev allowed_by : Adapter → StagedOrder fl → TradeCapabilityPolicy → Result PolicyError Unit
  allowed_by a o p =
      check p policy.adapter a.is_live (some o.symbol) (dimensions fl mac identity sink o)

  capable :
      (a : Adapter) (o : StagedOrder fl) → gate_4 fl mac identity sink a o ≡ ok tt → Capable a o
  unfolding gate_4
  capable a o h = elim (Option-cases a.capability_policy) [
    | inl unset ↦ absurd (ground (arith, unset, h))
    | inr (p, attached) ↦ (
      p,
      attached,
      catch-eq-ok {F = AdapterError X} capability (allowed_by a o p) (ground (arith, attached, h)),
    )
  ]

  abbrev raising : {A : Type 0} → Result ApprovalError A → Result (AdapterError X) A
  raising r = catch approval r

  consumed_token :
      (tok tok' : ApprovalToken fl) (fingerprint : String) (price : Float) (now : ℕ)
      → consume fl tok fingerprint price now ≡ ok tok'
      → tok' ≡ record tok { consumed_at = some now }
  unfolding consume
  consumed_token tok tok' fingerprint price now h = ground (arith, h)

  spendable :
      (o : StagedOrder fl) (token : Option (ApprovalToken fl)) (reference_price : Option Float)
      (now : ℕ) (spent : ApprovalToken fl)
      → spend fl mac identity sink o token reference_price now ≡ ok spent
      → Spendable o token reference_price now spent
  unfolding spend
  spendable o none reference_price now spent h = absurd (ground (arith, h))
  spendable o (some tok) reference_price now spent h =
      elim (Result-cases (price_for fl mac identity sink reference_price o.limit_price)) [
        | inr (x, no_price) ↦ absurd (ground (arith, no_price, h))
        | inl (price, priced) ↦
            let bounds = verify_modification_within_bounds fl tok (order_of fl o) in
            let display = verify_minimum_display_time fl tok now in
            let spending = consume fl tok tok.order_fingerprint price now in
            let (u, within, later) =
              >>=-eq-ok (raising bounds) (λ _. raising display >> raising spending)
                (ground (arith, priced, h)) in
            let (v, shown, last) = >>=-eq-ok (raising display) (λ _. raising spending) later in
            let done = catch-eq-ok {F = AdapterError X} approval spending last in
            let same = consumed_token tok spent tok.order_fingerprint price now done in
            let (fresh, swept, live, own, low, high) =
              (consume_iff fl tok tok.order_fingerprint price now).0 (done ∙ ap ok same) in
            (
              tok,
              price,
              refl,
              same,
              fresh,
              priced,
              catch-eq-ok {F = AdapterError X} approval bounds within,
              catch-eq-ok {F = AdapterError X} approval display shown,
              live,
              low,
              high,
            )
      ]

  -- what holds where an order may be submitted, and the token after that
  abbrev pub Authorised :
      Adapter → SubmitWorld fl B S → StagedOrder fl → Option Float → ℕ → ApprovalToken fl → Type 0
  Authorised a w o reference_price now spent =
      (identity w.broker ≡ ok tt)
      × (str_eq o.side "CANCEL" ≡ false)
      × Verified a o
      × Capable a o
      × Spendable o w.token reference_price now spent

  pub authorised :
      (a : Adapter) (w : SubmitWorld fl B S) (o : StagedOrder fl) (reference_price : Option Float)
      (now : ℕ) (spent : ApprovalToken fl)
      → admit fl mac identity sink a w o reference_price now ≡ ok spent
      → Authorised a w o reference_price now spent
  unfolding admit
  authorised a w o reference_price now spent h = elim (Result-cases (identity w.broker)) [
    | inr (x, wrong) ↦ absurd (ground (arith, wrong, h))
    | inl (u, right) ↦ elim (Result-cases (verify_staged_or_raise fl mac identity sink a o)) [
      | inr (x, forged) ↦ absurd (ground (arith, right, forged, h))
      | inl (v, signed) ↦ elim (Result-cases (gate_4 fl mac identity sink a o)) [
        | inr (x, barred) ↦ absurd (ground (arith, right, signed, barred, h))
        | inl (g, open_gate) ↦ (
          right,
          ground (arith, right, h),
          verified a o signed,
          capable a o open_gate,
          spendable o w.token reference_price now spent
              (ground (arith, right, signed, open_gate, h)),
        )
      ]
    ]
  ]

  module _ {O : Type 0} (submit_impl : B → StagedOrder fl → B × Result X O) where
    abbrev pub Outcome : Type 0
    Outcome = SubmitWorld fl B S × Result (AdapterError X) O

    -- the call raised, and neither the broker nor the store saw it
    abbrev pub Refused : SubmitWorld fl B S → Outcome → Type 0
    Refused w (w', r) = (w'.broker ≡ w.broker) × (w'.store ≡ w.store) × (is_ok r ≡ false)

    -- the order was authorised, the consumption was recorded, and then the broker was called
    abbrev pub Sent :
        Adapter → SubmitWorld fl B S → StagedOrder fl → Option Float → ℕ → Outcome → Type 0
    Sent a w o reference_price now (w', r) =
        (spent : ApprovalToken fl) × Authorised a w o reference_price now spent
        × (w'.token ≡ some spent)
        × (recorded fl mac identity sink sink w.store spent ≡ ok w'.store)
        × (w'.broker ≡ (submit_impl w.broker o).0)
        × (r ≡ catch raised (submit_impl w.broker o).1)

    -- Each `submit` either raises and leaves the broker and the store of requests as they are, or the
    -- broker's identity was checked, the order is no cancel, it has the signature for this adapter's
    -- key and is of its account, the policy allows it at the adapter's gate, the token covers the
    -- order, was shown long enough, was not consumed, has not expired and has the price in its band,
    -- the token is consumed now, the sink has recorded it so, and the result is the broker's.
    pub submit-cases :
        (a : Adapter) (w : SubmitWorld fl B S) (o : StagedOrder fl) (reference_price : Option Float)
        (now : ℕ)
        → Refused w (submit fl mac identity sink submit_impl a w o reference_price now)
          ⊎ Sent a w o reference_price now
              (submit fl mac identity sink submit_impl a w o reference_price now)
    unfolding submit
    submit-cases a w o reference_price now =
        elim (Result-cases (admit fl mac identity sink a w o reference_price now)) [
          | inr (x, refused) ↦ inl (rw refused (refl, refl, refl))
          | inl (spent, admitted) ↦
              elim (Result-cases (recorded fl mac identity sink sink w.store spent)) [
                | inr (x, failed) ↦ inl (rw admitted (rw failed (refl, refl, refl)))
                | inl (s, done) ↦ inr (
                    rw admitted (
                      rw done (
                        spent,
                        authorised a w o reference_price now spent admitted,
                        refl,
                        done,
                        refl,
                        refl,
                      )))
              ]
        ]

  module _ {O : Type 0} (cancel_impl : B → StagedOrder fl → B × Result X (Option O)) where
    -- Each `cancel` either raises and leaves the broker as it is, or the broker's identity was checked,
    -- the order is a cancel that has the signature for this adapter's key and is of its account, the
    -- policy allows it at the adapter's gate, and the result is the broker's; no token is asked for.
    pub cancel-cases :
        (a : Adapter) (b : B) (o : StagedOrder fl)
        → ((cancel fl mac identity sink cancel_impl a b o).0 ≡ b)
            × (is_ok (cancel fl mac identity sink cancel_impl a b o).1 ≡ false)
          ⊎ (identity b ≡ ok tt)
            × (o.side ≡ "CANCEL")
            × Verified a o
            × Capable a o
            × (cancel fl mac identity sink cancel_impl a b o
                ≡ ((cancel_impl b o).0, catch raised (cancel_impl b o).1))
    unfolding cancel
    cancel-cases a b o = elim (Result-cases (may_cancel fl mac identity sink a b o)) [
      | inr (x, refused) ↦ inl (rw refused (refl, refl))
      | inl (u, admitted) ↦ elim (Result-cases (identity b)) [
        | inr (x, wrong) ↦ absurd (ground (arith, wrong, admitted))
        | inl (i, right) ↦ elim (Result-cases (verify_staged_or_raise fl mac identity sink a o)) [
          | inr (x, forged) ↦ absurd (ground (arith, right, forged, admitted))
          | inl (v, signed) ↦ elim (Result-cases (gate_4 fl mac identity sink a o)) [
            | inr (x, barred) ↦ absurd (ground (arith, right, signed, barred, admitted))
            | inl (g, open_gate) ↦ inr (
              right,
              ground (arith, right, admitted, eq_iff o.side "CANCEL"),
              verified a o signed,
              capable a o open_gate,
              rw admitted refl,
            )
          ]
        ]
      ]
    ]
