-- ===== src/Audit/Tests.antt =====
-- Logs of two rows for agent/audit.py, under a digest that keeps the actor and the previous hash.
use Prim.Native.String.{String}
use investmentagent.Prelude.{ℕ, ◌≡◌, refl, true, none, [], ◌∷◌, ok, err, inl, inr, ap, sym, ◌∙◌}
use investmentagent.Audit.{
  Payload, AuditEvent, AuditLog, Entry, genesis, append, verify, verify_from, null, text, object,
  field, end, other, assert_json_native, not_json_native,
}
use investmentagent.Audit.Chain.{CollisionFree, verify-append, verify-injective}

abbrev join : String → String → String
join String.[] t = t
join (String.◌∷◌ c s) t = String.◌∷◌ c (join s t)

abbrev digest : Payload → String → String
digest p prev = join p.actor prev

abbrev entry : String → Entry
entry actor = record {
  actor = actor;
  action = "mode_transition";
  object_type = "mode";
  object_id = "system";
  before = null;
  after = object (field "mode" (text "PAPER") end);
  correlation_id = none;
  timestamp = 7;
}

abbrev payload : ℕ → String → Payload
payload seq actor = record {
  seq = seq;
  actor = actor;
  action = "mode_transition";
  object_type = "mode";
  object_id = "system";
  before = null;
  after = object (field "mode" (text "PAPER") end);
  correlation_id = none;
  timestamp = 7;
}

abbrev one_row : AuditLog
one_row =
    record { payload = payload 1 "op"; prev_hash = genesis; hash = digest (payload 1 "op") genesis }
    ∷ []

abbrev two_rows : AuditLog
two_rows =
    record { payload = payload 1 "op"; prev_hash = genesis; hash = digest (payload 1 "op") genesis }
    ∷ record {
      payload = payload 2 "sys";
      prev_hash = digest (payload 1 "op") genesis;
      hash = digest (payload 2 "sys") (digest (payload 1 "op") genesis);
    }
    ∷ []

appended : append digest one_row (entry "sys") ≡ ok two_rows
unfolding append assert_json_native
appended = refl

one_row_verifies : verify digest one_row ≡ true
unfolding verify verify_from
one_row_verifies = refl

set_refused :
    append digest one_row (record (entry "sys") { after = object (field "x" other end) })
    ≡ err not_json_native
unfolding append assert_json_native
set_refused = refl

verify-append_example : verify digest two_rows ≡ true
verify-append_example =
    verify-append digest one_row two_rows (entry "sys") one_row_verifies appended

one_row_only : CollisionFree digest one_row one_row
one_row_only x y (inl e) (inl f) same = (
  ap (λ (v : AuditEvent). v.payload) e ∙ sym (ap (λ (v : AuditEvent). v.payload) f),
  ap (λ (v : AuditEvent). v.prev_hash) e ∙ sym (ap (λ (v : AuditEvent). v.prev_hash) f),
)
one_row_only x y (inr m) n same = absurd m
one_row_only x y (inl e) (inr n) same = absurd n

verify-injective_example : one_row ≡ one_row
verify-injective_example =
    verify-injective digest one_row one_row one_row_only one_row_verifies one_row_verifies refl refl
