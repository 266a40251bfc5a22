-- ===== src/Mode/Store.antt =====
-- agent/mode_store.py: the append-only history of modes, and the two values that a caller computes
-- from it on the way into and out of PAUSED.
use investmentagent.Prelude.{
  ℕ, suc, String, Bool, Option, none, some, List, [], ◌∷◌, ◌++◌, str_eq, length, last?,
  if◌then◌else◌,
}
use investmentagent.Prelude.Text.{same_text?}
use investmentagent.Mode.{normalize_persisted}

-- a row of the history; an instant is a count of microseconds
pub record ModeChange : Type 0 where
  pub seq : ℕ
  pub mode : String
  pub changed_at : ℕ
  pub reason : Option String
  pub paused_from : Option String

abbrev pub ModeStore : Type 0
ModeStore = List ModeChange

-- `ModeStore.write`; every instant of the model has its time zone
unfoldable pub write : ModeStore → String → ℕ → Option String → Option String → ModeStore
write history mode changed_at reason paused_from =
    history
    ++ record {
      seq = suc (length history);
      mode = mode;
      changed_at = changed_at;
      reason = reason;
      paused_from = paused_from;
    }
      ∷ []

abbrev pub mode_of : Option ModeChange → Option String
mode_of none = none
mode_of (some c) = some c.mode

abbrev pub paused_from_of : Option ModeChange → Option String
paused_from_of none = none
paused_from_of (some c) = c.paused_from

-- `ModeStore.current` and `ModeStore.paused_from`
unfoldable pub current : ModeStore → Option String
current history = mode_of (last? history)

unfoldable pub paused_from : ModeStore → Option String
paused_from history = paused_from_of (last? history)

abbrev pub is_paused : Option String → Bool
is_paused m = same_text? m (some "PAUSED")

-- `normalize_persisted(persisted) if target == "PAUSED" else None`
abbrev pub recorded_from : Option String → String → Option String
recorded_from persisted target =
    if str_eq target "PAUSED" then some (normalize_persisted persisted) else none

-- `mode_store.paused_from() if persisted_mode == "PAUSED" else None`
abbrev pub resumable : ModeStore → Option String → Option String
resumable history persisted = if is_paused persisted then paused_from history else none
