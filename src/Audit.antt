-- ===== src/Audit.antt =====
-- agent/audit.py: the hash-chained, append-only audit log. `digest` stands for `_digest`, the
-- SHA-256 of the previous hash and the row's JSON text.
pub mod Chain
mod Tests
use mathlib.Core.Bool.{◌&&◌}
use investmentagent.Prelude.{
  ℕ, suc, String, Bool, true, Option, none, some, List, [], ◌∷◌, ◌++◌, ◌==◌, str_eq, length, last?,
  if◌then◌else◌, Result, ok, err, ◌>>=◌, ◌>>◌,
}
use investmentagent.Journal.{JournalError, replay}

-- What may stand in `before` and `after`. `other` is any Python value that JSON has no form for; a
-- number stands by its JSON numeral; a dictionary has text keys and, as `bad_key`, others.
mutual
  pub data Value : Type 0 where
    null : Value
    boolean : Bool → Value
    number : String → Value
    text : String → Value
    array : Items → Value
    object : Fields → Value
    other : Value

  pub data Items : Type 0 where
    done : Items
    item : Value → Items → Items

  pub data Fields : Type 0 where
    end : Fields
    field : String → Value → Fields → Fields
    bad_key : Fields → Fields

pub data AuditError : Type 0 where
  not_json_native : AuditError
  append_only : AuditError
  tampered : AuditError

unfoldable mutual
  -- `_assert_json_native`
  pub assert_json_native : Value → Result AuditError Unit
  assert_json_native null = ok tt
  assert_json_native (boolean b) = ok tt
  assert_json_native (number n) = ok tt
  assert_json_native (text s) = ok tt
  assert_json_native (array xs) = assert_items xs
  assert_json_native (object fs) = assert_fields fs
  assert_json_native other = err not_json_native

  pub assert_items : Items → Result AuditError Unit
  assert_items done = ok tt
  assert_items (item v xs) = assert_json_native v >> assert_items xs

  pub assert_fields : Fields → Result AuditError Unit
  assert_fields end = ok tt
  assert_fields (field k v fs) = assert_json_native v >> assert_fields fs
  assert_fields (bad_key fs) = err not_json_native

-- the fields that are hashed, and those of a row of the log
pub record Payload : Type 0 where
  pub seq : ℕ
  pub actor : String
  pub action : String
  pub object_type : String
  pub object_id : String
  pub before : Value
  pub after : Value
  pub correlation_id : Option String
  pub timestamp : ℕ

pub record AuditEvent : Type 0 where
  pub payload : Payload
  pub open payload use *
  pub prev_hash : String
  pub hash : String

abbrev pub AuditLog : Type 0
AuditLog = List AuditEvent

-- `"0" * 64`
abbrev pub genesis : String
genesis = "0000000000000000000000000000000000000000000000000000000000000000"

abbrev pub hash_of : Option AuditEvent → String
hash_of none = genesis
hash_of (some ev) = ev.hash

-- what a caller of `append` gives
pub record Entry : Type 0 where
  pub actor : String
  pub action : String
  pub object_type : String
  pub object_id : String
  pub before : Value
  pub after : Value
  pub correlation_id : Option String
  pub timestamp : ℕ

abbrev payload_of : ℕ → Entry → Payload
payload_of seq e = record {
  seq = seq;
  actor = e.actor;
  action = e.action;
  object_type = e.object_type;
  object_id = e.object_id;
  before = e.before;
  after = e.after;
  correlation_id = e.correlation_id;
  timestamp = e.timestamp;
}

module _ (digest : Payload → String → String) where
  abbrev chained : Payload → String → AuditEvent
  chained p prev = record { payload = p; prev_hash = prev; hash = digest p prev }

  -- `AuditLog.append`
  unfoldable pub append : AuditLog → Entry → Result AuditError AuditLog
  append log e = do
    assert_json_native e.before
    assert_json_native e.after
    ok (log ++ chained (payload_of (suc (length log)) e) (hash_of (last? log)) ∷ [])

  -- the loop of `verify` from row `i` on, after the hash `prev`
  unfoldable pub verify_from : ℕ → String → AuditLog → Bool
  verify_from i prev [] = true
  verify_from i prev (ev ∷ log) =
      ev.seq == i
      && str_eq ev.prev_hash prev
      && str_eq (digest ev.payload prev) ev.hash
      && verify_from (suc i) ev.hash log

  -- `AuditLog.verify`
  unfoldable pub verify : AuditLog → Bool
  unfolding verify_from
  verify log = verify_from 1 genesis log

-- `AuditLog._load`, on the lines of the file
unfoldable pub load :
    {J : Type 0}
    → (String → Option J)
    → (J → Option AuditEvent)
    → List String
    → Result JournalError (AuditLog × Option String)
unfolding replay
load parse decode lines = replay parse decode lines
