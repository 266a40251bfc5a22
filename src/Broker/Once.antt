-- ===== src/Broker/Once.antt =====
-- Sequences of `submit` of agent/broker/base.py with one approval token.
use investmentagent.Prelude.{
  ℕ, String, ◌≡◌, refl, ap, ◌∙◌, true, Option, some, List, [], ◌∷◌, arith, is_some, Result, inl,
  inr, ◌⊎◌, Result-cases, Member,
}
use investmentagent.Prelude.Floats.{Floats}
use investmentagent.Audit.{Value}
use investmentagent.Approval.{ApprovalToken}
use investmentagent.Broker.{StagedOrder, Adapter, SubmitWorld, submit, admit}
use investmentagent.Broker.Submit.{submit-cases, authorised}

-- an order that is tried, the reference price and the moment
module _ (fl : Floats) where
  open fl use {Float}

  pub record Attempt : Type 0 where
    pub order : StagedOrder fl
    pub reference_price : Option Float
    pub now : ℕ

module _ (fl : Floats) {X B S O : Type 0} (mac : String → Value → String)
    (identity : B → Result X Unit) (sink : Option (S → ApprovalToken fl → Result X S))
    (submit_impl : B → StagedOrder fl → B × Result X O) (a : Adapter) where
  abbrev pub attempt : SubmitWorld fl B S → Attempt fl → SubmitWorld fl B S
  attempt w t = (submit fl mac identity sink submit_impl a w t.order t.reference_price t.now).0

  -- the world after the attempts, exceptions being caught between them
  unfoldable pub run : List (Attempt fl) → SubmitWorld fl B S → SubmitWorld fl B S
  run [] w = w
  run (t ∷ ts) w = run ts (attempt w t)

  abbrev IsSpent : SubmitWorld fl B S → Type 0
  IsSpent w = (tok : ApprovalToken fl) × (w.token ≡ some tok) × (is_some tok.consumed_at ≡ true)

  submit-IsSpent :
      (w : SubmitWorld fl B S) (t : Attempt fl)
      → IsSpent w
      → ((attempt w t).broker ≡ w.broker) × IsSpent (attempt w t)
  unfolding submit
  submit-IsSpent w t (tok, held, consumed) =
      elim (Result-cases (admit fl mac identity sink a w t.order t.reference_price t.now)) [
        | inr (x, refused) ↦ rw (attempt, refused) (refl, (tok, held, consumed))
        | inl (spent, admitted) ↦
            let (i, c, v, p, sp) =
              authorised fl mac identity sink a w t.order t.reference_price t.now spent admitted in
            absurd (ground (arith, held, sp.2, consumed, sp.4))
      ]

  run-IsSpent :
      (ts : List (Attempt fl)) (w : SubmitWorld fl B S) → IsSpent w → (run ts w).broker ≡ w.broker
  unfolding run
  run-IsSpent [] w h = refl
  run-IsSpent (t ∷ ts) w h =
      let (same, again) = submit-IsSpent w t h in run-IsSpent ts (attempt w t) again ∙ same

  -- Whatever orders, prices and moments are tried with one approval token, and whatever is caught in
  -- between, the broker is called at most once: its state is as before, or is what one call made of it
  -- for one of the orders that were tried.
  pub run-Once :
      (ts : List (Attempt fl)) (w : SubmitWorld fl B S)
      → ((run ts w).broker ≡ w.broker)
        ⊎ (t : Attempt fl) × Member t ts × ((run ts w).broker ≡ (submit_impl w.broker t.order).0)
  unfolding run
  run-Once [] w = inl refl
  run-Once (t ∷ ts) w =
      elim (submit-cases fl mac identity sink submit_impl a w t.order t.reference_price t.now) [
        | inl (same, store, raising) ↦ elim (run-Once ts (attempt w t)) [
          | inl kept ↦ inl (kept ∙ same)
          | inr (u, tried, called) ↦
              inr (u, inr tried, called ∙ ap (λ b. (submit_impl b u.order).0) same)
        ]
        | inr (spent, (i, c, v, p, sp), after, recorded, called, r) ↦ inr (
          t,
          inl refl,
          (run-IsSpent ts (attempt w t)
                (spent, after, ap (λ (k : ApprovalToken fl). is_some k.consumed_at) sp.3)
              ∙ called),
        )
      ]
