-- ===== src/Mode.antt =====
-- agent/mode.py: the operating modes and the legality of a step between two of them, and (in the
-- child Store) agent/mode_store.py with the two callers that write a mode.
pub mod Store
mod Legal
pub mod Escalation
mod Tests
use investmentagent.Prelude.{
  ℕ, suc, ◌+◌, String, Bool, true, false, ◌&&◌, not, Option, none, some, List, [], ◌∷◌, ◌==◌,
  str_eq, any, if◌then◌else◌, Result, ok, err, ◌>>=◌, ◌>>◌, raise_if,
}

-- The four modes of the escalation ladder, in order; PAUSED is none of them.
abbrev pub chain : List String
chain = "DISABLED" ∷ "RESEARCH" ∷ "PAPER" ∷ "PRODUCTION_ACTIVE" ∷ []

abbrev pub modes : List String
modes = "DISABLED" ∷ "RESEARCH" ∷ "PAPER" ∷ "PRODUCTION_ACTIVE" ∷ "PAUSED" ∷ []

abbrev pub immediate_target : String → Bool
immediate_target = λ m. any (λ t. str_eq t m) ("DISABLED" ∷ "PAUSED" ∷ [])

-- `(persisted, target) in CONFIRMATION_REQUIRED`
abbrev pub confirmation_required : String → String → Bool
confirmation_required persisted target =
    str_eq target "PRODUCTION_ACTIVE" && any (λ t. str_eq t persisted) ("PAPER" ∷ "PAUSED" ∷ [])

pub data ModeError : Type 0 where
  mode_transition : ModeError
  illegal_mode_transition : ModeError
  confirmation_missing : ModeError
  -- `_POSITION[…]` on a mode that is not in the chain
  key_error : ModeError

abbrev index_from : ℕ → List String → String → Option ℕ
index_from i [] m = none
index_from i (c ∷ cs) m = if str_eq c m then some i else index_from (suc i) cs m

-- `_POSITION`
abbrev pub position : String → Option ℕ
position m = index_from 0 chain m

unfoldable pub check_known : String → Result ModeError Unit
check_known m = raise_if (not (any (λ t. str_eq t m) modes)) mode_transition

abbrev pub check_known? : Option String → Result ModeError Unit
check_known? none = ok tt
check_known? (some m) = check_known m

abbrev pub normalize_persisted : Option String → String
normalize_persisted none = "DISABLED"
normalize_persisted (some m) = m

-- `abs(i - j) == 1`
abbrev adjacent : Option ℕ → Option ℕ → Result ModeError Bool
adjacent (some i) (some j) = ok (if i == j + 1 then true else j == i + 1)
adjacent _ _ = err key_error

abbrev is_mode : Option String → String → Bool
is_mode none target = false
is_mode (some m) target = str_eq target m

step_allowed : String → String → Option String → Result ModeError Bool
step_allowed persisted target paused_from =
    if str_eq target persisted
    then ok true
    else if immediate_target target
    then ok true
    else if str_eq persisted "PAUSED"
    then ok (is_mode paused_from target)
    else adjacent (position persisted) (position target)

unfoldable pub is_legal_step : String → String → Option String → Result ModeError Bool
unfolding check_known step_allowed
is_legal_step persisted target paused_from = do
  check_known persisted
  check_known target
  check_known? paused_from
  step_allowed persisted target paused_from

unfoldable pub assert_legal_startup :
    Option String → String → Bool → Option String → Result ModeError Unit
unfolding check_known is_legal_step
assert_legal_startup persisted_mode target_mode confirmed paused_from = do
  let persisted = normalize_persisted persisted_mode
  check_known persisted
  check_known target_mode
  legal ← is_legal_step persisted target_mode paused_from
  raise_if (not legal) illegal_mode_transition
  raise_if (confirmation_required persisted target_mode && not confirmed) confirmation_missing
