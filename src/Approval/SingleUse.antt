-- ===== src/Approval/SingleUse.antt =====
-- Sequences of calls on one `ApprovalService` of agent/approval.py: a token is spent at most once.
use investmentagent.Prelude.{
  ℕ, ◌≤◌, String, ◌≡◌, refl, Bool, true, false, Option, none, some, List, [], ◌∷◌, arith, eq_iff,
  is_some, Result, ok, err, Option-cases, inl, inr, Result-cases, ◌⊎◌, ◌++◌, count, count-append,
}
use investmentagent.Prelude.Dict.{get, put, get-put}
use investmentagent.Prelude.Floats.{Floats}
use investmentagent.Audit.{AuditLog, Payload}
use investmentagent.Approval.{
  ApprovalToken, ApprovalService, ApprovalError, Approval, consume, approve, sweep_expired,
}
use investmentagent.Approval.Token.{get-sweep_tokens, consume-consumed_at, approve-token}

module _ (fl : Floats) (digest : Payload → String → String) where
  open fl use {Float}

  -- a call: an approval, a token that its holder spends, the sweep at startup
  pub data Call : Type 0 where
    approving : Approval fl → Call
    spending : String → String → Float → ℕ → Call
    sweeping : ℕ → Call

  pub record State : Type 0 where
    pub service : ApprovalService fl
    pub log : Option AuditLog

  abbrev approved :
      State → Result ApprovalError (ApprovalService fl × ApprovalToken fl × Option AuditLog) → State
  approved s (ok (service, tok, log)) = record { service = service; log = log }
  approved s (err e) = s

  abbrev spent : State → String → Result ApprovalError (ApprovalToken fl) → State × List String
  spent s id (ok tok) =
      (record s { service = record (s.service) { tokens = put s.service.tokens id tok } }, id ∷ [])
  spent s id (err e) = (s, [])

  abbrev spend :
      State → String → String → Float → ℕ → Option (ApprovalToken fl) → State × List String
  spend s id fingerprint price now none = (s, [])
  spend s id fingerprint price now (some tok) = spent s id (consume fl tok fingerprint price now)

  -- The state after the call, an exception leaving it alone, and the ids of the tokens it spent. A
  -- holder of a token object holds the one in the table.
  unfoldable pub step : Call → State → State × List String
  step (approving a) s = (approved s (approve fl digest s.service a s.log), [])
  step (spending id fingerprint price now) s =
      spend s id fingerprint price now (get s.service.tokens id)
  step (sweeping now) s = (record s { service = (sweep_expired fl s.service now).0 }, [])

  -- the ids that are spent by the calls, in order
  unfoldable pub run : List Call → State → List String
  run [] s = []
  run (c ∷ cs) s = let (s', ids) = step c s in ids ++ run cs s'

  abbrev consumed? : Option (ApprovalToken fl) → Bool
  consumed? none = false
  consumed? (some tok) = is_some tok.consumed_at

  -- the service knows the token as consumed
  abbrev pub IsSpent : String → State → Type 0
  IsSpent id s = consumed? (get s.service.tokens id) ≡ true

  step-IsSpent :
      (id : String) (c : Call) (s : State)
      → IsSpent id s
      → IsSpent id (step c s).0 × (count id (step c s).1 ≡ 0)
  unfolding step sweep_expired
  step-IsSpent id (approving a) s h = elim (Result-cases (approve fl digest s.service a s.log)) [
    | inl ((service, tok, log), e) ↦
        let minted = approve-token fl digest s.service service a s.log log tok e in
        ground (
          arith,
          minted.0,
          minted.1,
          get-put s.service.tokens a.token_id id tok,
          eq_iff a.token_id id,
        )
    | inr (e, refused) ↦ rw refused (h, refl)
  ]
  step-IsSpent id (spending j fingerprint price now) s h =
      elim (Option-cases (get s.service.tokens j)) [
        | inl unknown ↦ rw unknown (h, refl)
        | inr (tok, known) ↦ elim (Result-cases (consume fl tok fingerprint price now)) [
          | inl (tok', e) ↦
              let (fresh, marked) = consume-consumed_at fl tok tok' fingerprint price now e in
              ground (arith, get-put s.service.tokens j id tok', eq_iff j id, eq_iff id j)
          | inr (e, refused) ↦ rw (known, spend, refused) (h, refl)
        ]
      ]
  step-IsSpent id (sweeping now) s h =
      (ground (arith, get-sweep_tokens fl now s.service.tokens id), refl)

  run-IsSpent : (id : String) (cs : List Call) (s : State) → IsSpent id s → count id (run cs s) ≡ 0
  unfolding run
  run-IsSpent id [] s h = refl
  run-IsSpent id (c ∷ cs) s h =
      let (still, none_now) = step-IsSpent id c s h in
      omega (
        arith,
        count-append id (step c s).1 (run cs (step c s).0),
        run-IsSpent id cs (step c s).0 still,
      )

  -- one call spends a token at most once, and then the service knows it as spent
  step-count :
      (id : String) (c : Call) (s : State)
      → (count id (step c s).1 ≡ 0) ⊎ ((count id (step c s).1 ≡ 1) × IsSpent id (step c s).0)
  unfolding step
  step-count id (approving a) s = inl refl
  step-count id (spending j fingerprint price now) s =
      elim (Option-cases (get s.service.tokens j)) [
        | inl unknown ↦ rw unknown (inl refl)
        | inr (tok, known) ↦ elim (Result-cases (consume fl tok fingerprint price now)) [
          | inl (tok', e) ↦
              let (fresh, marked) = consume-consumed_at fl tok tok' fingerprint price now e in
              ground (arith, get-put s.service.tokens j id tok', eq_iff j id, eq_iff id j)
          | inr (e, refused) ↦ rw (known, spend, refused) (inl refl)
        ]
      ]
  step-count id (sweeping now) s = inl refl

  -- Whatever the calls and whatever the service knew before, no token is spent twice.
  pub single_use : (id : String) (cs : List Call) (s : State) → count id (run cs s) ≤ 1
  unfolding run
  single_use id [] s = omega arith
  single_use id (c ∷ cs) s = elim (step-count id c s) [
    | inl not_now ↦
        omega
          (arith, count-append id (step c s).1 (run cs (step c s).0), single_use id cs (step c s).0)
    | inr (once, spent_now) ↦ omega (
      arith,
      count-append id (step c s).1 (run cs (step c s).0),
      run-IsSpent id cs (step c s).0 spent_now,
    )
  ]
