-- ===== src/Audit/Chain.antt =====
-- The chain of agent/audit.py: appending keeps it verifiable, and its last hash fixes every row.
use investmentagent.Prelude.{
  ℕ, suc, ◌+◌, String, ◌≡◌, refl, ap, true, Option, none, some, [], ◌∷◌, ◌++◌, eq_iff, arith,
  length, last_or, Member, inl, inr, ok, ok-injective, >>-eq-ok,
}
use investmentagent.Audit.{
  Payload, AuditEvent, AuditLog, Entry, genesis, hash_of, append, verify, verify_from,
  assert_json_native,
}

-- the hash that the next row is chained to
abbrev pub end_hash : String → AuditLog → String
end_hash prev [] = prev
end_hash prev (ev ∷ log) = end_hash ev.hash log

end_hash-last_or :
    (o : Option AuditEvent) (log : AuditLog)
    → hash_of (last_or (λ _. true) o log) ≡ end_hash (hash_of o) log
end_hash-last_or o [] = refl
end_hash-last_or o (ev ∷ log) = end_hash-last_or (some ev) log

module _ (digest : Payload → String → String) where
  verify_from-append :
      (i : ℕ) (prev : String) (log : AuditLog) (ev : AuditEvent)
      → verify_from digest i prev log ≡ true
      → ev.seq ≡ i + length log
      → ev.prev_hash ≡ end_hash prev log
      → ev.hash ≡ digest ev.payload (end_hash prev log)
      → verify_from digest i prev (log ++ ev ∷ []) ≡ true
  unfolding verify_from
  verify_from-append i prev [] ev h s p q =
      ground (arith, eq_iff ev.prev_hash prev, eq_iff (digest ev.payload prev) ev.hash)
  verify_from-append i prev (x ∷ log) ev h s p q =
      ground (arith, verify_from-append (suc i) x.hash log ev)

  -- A row appended to a log that verifies leaves a log that verifies.
  pub verify-append :
      (log log' : AuditLog) (e : Entry)
      → verify digest log ≡ true
      → append digest log e ≡ ok log'
      → verify digest log' ≡ true
  unfolding verify append
  verify-append log log' e h r =
      let same =
        ok-injective
          (>>-eq-ok (assert_json_native e.after) _ (>>-eq-ok (assert_json_native e.before) _ r)) in
      rw (← same) (
        verify_from-append 1 genesis log _ h (omega arith) (end_hash-last_or none log)
          (ap (digest _) (end_hash-last_or none log)))

  -- no two rows of the logs that differ in what is hashed have one digest
  abbrev pub CollisionFree : AuditLog → AuditLog → Type 0
  CollisionFree log log' =
      (x y : AuditEvent)
      → Member x log
      → Member y log'
      → digest x.payload x.prev_hash ≡ digest y.payload y.prev_hash
      → (x.payload ≡ y.payload) × (x.prev_hash ≡ y.prev_hash)

  verify_from-injective :
      (i : ℕ) (prev prev' : String) (log log' : AuditLog)
      → CollisionFree log log'
      → verify_from digest i prev log ≡ true
      → verify_from digest i prev' log' ≡ true
      → length log ≡ length log'
      → end_hash prev log ≡ end_hash prev' log'
      → (log ≡ log') × (prev ≡ prev')
  unfolding verify_from
  verify_from-injective i prev prev' [] [] c h h' n e = (refl, e)
  verify_from-injective i prev prev' [] (y ∷ log') c h h' n e = absurd (omega arith)
  verify_from-injective i prev prev' (x ∷ log) [] c h h' n e = absurd (omega arith)
  verify_from-injective i prev prev' (x ∷ log) (y ∷ log') c h h' n e = ground (
    arith,
    eq_iff x.prev_hash prev,
    eq_iff y.prev_hash prev',
    eq_iff (digest x.payload prev) x.hash,
    eq_iff (digest y.payload prev') y.hash,
    verify_from-injective (suc i) x.hash y.hash log log' (λ u v m m'. c u v (inr m) (inr m')),
    c x y (inl refl) (inl refl),
  )

  -- Two logs that verify, are equally long and end in the same hash are the same log, row by row,
  -- unless two of their rows that differ have one digest.
  pub verify-injective :
      (log log' : AuditLog)
      → CollisionFree log log'
      → verify digest log ≡ true
      → verify digest log' ≡ true
      → length log ≡ length log'
      → end_hash genesis log ≡ end_hash genesis log'
      → log ≡ log'
  unfolding verify
  verify-injective log log' c h h' n e =
      (verify_from-injective 1 genesis genesis log log' c h h' n e).0
