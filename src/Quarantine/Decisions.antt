-- ===== src/Quarantine/Decisions.antt =====
-- Sequences of calls on the store of agent/execution_quarantine.py: what is quarantined and what is
-- decided about it stays.
use investmentagent.Prelude.{
  ℕ, String, ◌≡◌, refl, true, Option, none, some, List, [], ◌∷◌, ◌++◌, arith, str_eq, Result, ok,
  err, inl, inr, ◌⊎◌, Option-cases,
}
use investmentagent.Prelude.Dict.{Dict, get, put, Each, Each-put, Each-map, get-put_other}
use investmentagent.Quarantine.{
  Execution, QuarantinedExecution, ExecutionResolution, QuarantineError, QuarantineStore, Decision,
  resolution, quarantine, admit, reject, record_of, resolution_of, fits, hold, decide_once,
}

pub data Call : Type 0 where
  quarantining : Execution → String → ℕ → Call
  admitting : String → Decision → Option String → Option String → Call
  rejecting : String → Decision → Call

unfoldable pub step : Call → QuarantineStore → Result QuarantineError QuarantineStore
step (quarantining e reason at) s = quarantine s e reason at
step (admitting id d lot_id version) s = admit s id d lot_id version
step (rejecting id d) s = reject s id d

abbrev after : QuarantineStore → Result QuarantineError QuarantineStore → QuarantineStore
after s (ok s') = s'
after s (err e) = s

-- the store after the calls; one that raises changes nothing
unfoldable pub run : List Call → QuarantineStore → QuarantineStore
run [] s = s
run (c ∷ cs) s = run cs (after s (step c s))

abbrev pub resolved : QuarantineStore → ExecutionResolution → QuarantineStore
resolved s r = record s {
  resolutions = put s.resolutions r.execution_id r;
  rows = s.rows ++ resolution r ∷ [];
}

-- a decision about a quarantined execution: rejected, or admitted with the one field that its side
-- wants
abbrev pub Decided : Dict QuarantinedExecution → String → ExecutionResolution → Type 0
Decided held id r =
    (r.execution_id ≡ id)
    × ((q : QuarantinedExecution) × (get held id ≡ some q)
        × ((r.decision ≡ "REJECTED")
            ⊎ ((r.decision ≡ "ADMITTED") × (fits q.side r.lot_id r.holding_policy_version ≡ true))))

-- What a call that returns does.
pub data Effect (s : QuarantineStore) : QuarantineStore → Type 0 where
  kept : Effect s s
  holds :
      (q : QuarantinedExecution)
      → str_eq q.account_id s.account_id ≡ true
      → get s.held q.execution_id ≡ none
      → Effect s (hold s q)
  resolves :
      (r : ExecutionResolution)
      → get s.resolutions r.execution_id ≡ none
      → Decided s.held r.execution_id r
      → Effect s (resolved s r)

quarantine-Effect :
    (s s' : QuarantineStore) (e : Execution) (reason : String) (at : ℕ)
    → quarantine s e reason at ≡ ok s'
    → Effect s s'
unfolding quarantine
quarantine-Effect s s' e reason at h = elim (Option-cases (get s.held e.execution_id)) [
  | inl new ↦
      let q = record_of e reason at in
      let done : hold s q ≡ s' = ground (arith, new, h) in
      rw (← done) (holds q (ground (arith, h)) new)
  | inr (q, old) ↦ let done : s ≡ s' = ground (arith, old, h) in rw (← done) kept
]

decide-Effect :
    (s s' : QuarantineStore) (r : ExecutionResolution)
    → Decided s.held r.execution_id r
    → decide_once s r (get s.resolutions r.execution_id) ≡ ok s'
    → Effect s s'
decide-Effect s s' r d h = elim (Option-cases (get s.resolutions r.execution_id)) [
  | inl new ↦
      let done : resolved s r ≡ s' = ground (arith, new, h) in rw (← done) (resolves r new d)
  | inr (old, known) ↦ let done : s ≡ s' = ground (arith, known, h) in rw (← done) kept
]

admit-Effect :
    (s s' : QuarantineStore) (id : String) (d : Decision) (lot_id version : Option String)
    → admit s id d lot_id version ≡ ok s'
    → Effect s s'
unfolding admit
admit-Effect s s' id d lot_id version h = elim (Option-cases (get s.held id)) [
  | inl unknown ↦ absurd (ground (arith, unknown, h))
  | inr (q, held) ↦
      decide-Effect s s' (resolution_of id q "ADMITTED" d lot_id version)
        (refl, (q, held, inr (refl, ground (arith, held, h)))) (ground (arith, held, h))
]

reject-Effect :
    (s s' : QuarantineStore) (id : String) (d : Decision) → reject s id d ≡ ok s' → Effect s s'
unfolding reject
reject-Effect s s' id d h = elim (Option-cases (get s.held id)) [
  | inl unknown ↦ absurd (ground (arith, unknown, h))
  | inr (q, held) ↦
      decide-Effect s s' (resolution_of id q "REJECTED" d none none) (refl, (q, held, inl refl))
        (ground (arith, held, h))
]

pub step-Effect : (c : Call) (s s' : QuarantineStore) → step c s ≡ ok s' → Effect s s'
unfolding step
step-Effect (quarantining e reason at) s s' h = quarantine-Effect s s' e reason at h
step-Effect (admitting id d lot_id version) s s' h = admit-Effect s s' id d lot_id version h
step-Effect (rejecting id d) s s' h = reject-Effect s s' id d h

-- each held execution is of the account and stands under its id; each decision is about one of them
abbrev pub IsSound : QuarantineStore → Type 0
IsSound s =
    Each (λ id q. (q.execution_id ≡ id) × (str_eq q.account_id s.account_id ≡ true)) s.held
    × Each (Decided s.held) s.resolutions

Decided-grows :
    (d : Dict QuarantinedExecution) (q : QuarantinedExecution) (id : String)
    (r : ExecutionResolution)
    → get d q.execution_id ≡ none
    → Decided d id r
    → Decided (put d q.execution_id q) id r
Decided-grows d q id r new (own, (p, there, fit)) =
    (own, (p, get-put_other d q.execution_id id q new there, fit))

pub Effect-IsSound : {s s' : QuarantineStore} → Effect s s' → IsSound s → IsSound s'
Effect-IsSound kept h = h
Effect-IsSound {s} (holds q own new) (held, decided) = (
  Each-put (λ id p. (p.execution_id ≡ id) × (str_eq p.account_id s.account_id ≡ true)) s.held
      q.execution_id q held (refl, own),
  Each-map {P = Decided s.held} {Q = Decided (put s.held q.execution_id q)} s.resolutions
      (λ id r d. Decided-grows s.held q id r new d) decided,
)
Effect-IsSound {s} (resolves r new d) (held, decided) =
    (held, Each-put (Decided s.held) s.resolutions r.execution_id r decided d)
