-- ===== src/Approval/Token.antt =====
-- The token of agent/approval.py under `consume`, and the table under `sweep_expired`.
use investmentagent.Prelude.{
  ℕ, ◌≤◌, ◌<◌, String, ◌≡◌, refl, ◌↔◌, true, false, Option, none, some, [], ◌∷◌, arith, eq_iff,
  if◌then◌else◌, ok, ◌+◌, Result-cases, Option-cases, Bool-cases, inl, inr,
}
use investmentagent.Prelude.Dict.{Dict, get, put}
use investmentagent.Prelude.Floats.{Floats}
use investmentagent.Audit.{AuditLog, Payload}
use investmentagent.Approval.{
  ApprovalToken, ApprovalService, consume, sweep_one, sweep_tokens, sweep_expired, is_stale,
  Approval, choose_band, approve,
}

abbrev pub map_option {ℓ} : {A : Type ℓ} → (A → A) → Option A → Option A
map_option f none = none
map_option f (some a) = some (f a)

module _ (fl : Floats) where
  open fl use {Float, le}

  -- A token can be spent exactly if it was neither consumed nor swept, has not expired, is bound to
  -- the order's fingerprint, and its price band holds the price.
  pub consume_iff :
      (tok : ApprovalToken fl) (fingerprint : String) (price : Float) (now : ℕ)
      → (consume fl tok fingerprint price now ≡ ok (record tok { consumed_at = some now })) ↔ (
          (tok.consumed_at ≡ none)
          × (tok.swept_at ≡ none)
          × (now < tok.expires_at)
          × (fingerprint ≡ tok.order_fingerprint)
          × (le tok.price_band.0 price ≡ true)
          × (le price tok.price_band.1 ≡ true))
  unfolding consume
  consume_iff tok fingerprint price now = ground (arith, eq_iff fingerprint tok.order_fingerprint)

  -- Whatever the call, a token that comes back from `consume` was not consumed before and is now.
  pub consume-consumed_at :
      (tok tok' : ApprovalToken fl) (fingerprint : String) (price : Float) (now : ℕ)
      → consume fl tok fingerprint price now ≡ ok tok'
      → (tok.consumed_at ≡ none) × (tok'.consumed_at ≡ some now)
  unfolding consume
  consume-consumed_at tok tok' fingerprint price now h = ground arith

  pub get-sweep_tokens :
      (now : ℕ) (d : Dict (ApprovalToken fl)) (k : String)
      → get (sweep_tokens fl now d).0 k ≡ map_option (sweep_one fl now) (get d k)
  unfolding get sweep_tokens
  get-sweep_tokens now [] k = refl
  get-sweep_tokens now ((j, tok) ∷ d) k = ground (arith, get-sweep_tokens now d k)

  module _ (digest : Payload → String → String) where
    -- An approval that returns has found its token id unused and enters just the new token, neither
    -- consumed nor swept, bound to the fingerprint, expiring after the service's period; and the
    -- card had been shown for the minimum time.
    pub approve-token :
        (s s' : ApprovalService fl) (a : Approval fl) (log log' : Option AuditLog)
        (tok : ApprovalToken fl)
        → approve fl digest s a log ≡ ok (s', tok, log')
        → (get s.tokens a.token_id ≡ none)
          × (s'.tokens ≡ put s.tokens a.token_id tok)
          × (tok.consumed_at ≡ none)
          × (tok.swept_at ≡ none)
          × (tok.order_fingerprint ≡ a.fingerprint)
          × (tok.expires_at ≡ a.now + s.expiration)
          × (a.shown_at + s.min_display ≤ a.now)
    unfolding approve
    approve-token s s' a log log' tok h = elim (Result-cases (choose_band fl digest s a log)) [
      | inl (chosen, e) ↦ elim (Option-cases (get s.tokens a.token_id)) [
        | inl fresh ↦ ground arith
        | inr (old, issued) ↦ ground arith
      ]
      | inr (e, refused) ↦ elim (Option-cases (get s.tokens a.token_id)) [
        | inl fresh ↦ ground arith
        | inr (old, issued) ↦ ground arith
      ]
    ]

  sweep_one_not_stale :
      (now : ℕ) (tok : ApprovalToken fl) → is_stale fl now (sweep_one fl now tok) ≡ false
  sweep_one_not_stale now tok = elim (Bool-cases (is_stale fl now tok)) [
    | inl stale ↦ rw stale (ground arith)
    | inr fresh ↦ rw (fresh, fresh)
  ]

  sweep_one_fresh :
      (now : ℕ) (tok : ApprovalToken fl) → is_stale fl now tok ≡ false → sweep_one fl now tok ≡ tok
  sweep_one_fresh now tok h = rw h

  sweep_tokens_again :
      (now : ℕ) (d : Dict (ApprovalToken fl))
      → sweep_tokens fl now (sweep_tokens fl now d).0 ≡ ((sweep_tokens fl now d).0, [])
  unfolding sweep_tokens
  sweep_tokens_again now [] = refl
  sweep_tokens_again now ((k, tok) ∷ d) =
      let fresh = sweep_one_not_stale now tok in rw (sweep_tokens_again now d, fresh) refl

  -- A sweep retires exactly the tokens that are neither consumed nor swept and have expired: it
  -- marks those, leaves the others, and a second sweep at the same instant finds none.
  pub sweep_expired_lem :
      (s : ApprovalService fl) (now : ℕ) (k : String)
      → (get (sweep_expired fl s now).0.tokens k
          ≡ map_option
              (λ tok. if is_stale fl now tok then record tok { swept_at = some now } else tok)
              (get s.tokens k))
        × (sweep_expired fl (sweep_expired fl s now).0 now ≡ ((sweep_expired fl s now).0, []))
  unfolding sweep_expired
  sweep_expired_lem s now k =
      (get-sweep_tokens now s.tokens k, rw (sweep_tokens_again now s.tokens) refl)
