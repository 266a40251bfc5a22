-- ===== src/Startup/Advance.antt =====
-- What `_run_advance_mode` of scripts/run_agent.py leaves in the history of modes.
use investmentagent.Prelude.{
  ℕ, String, ◌≡◌, refl, sym, ap, ◌∙◌, inl, inr, Bool, true, false, Option, none, some, arith,
  eq_iff, str_eq, Result, ok, err, Result-cases, Bool-cases, raise_if,
}
use investmentagent.Prelude.Floats.{Floats}
use investmentagent.Prelude.Text.{same_text?}
use investmentagent.Audit.{Payload}
use investmentagent.Mode.{assert_legal_startup}
use investmentagent.Mode.Store.{ModeStore, current, resumable}
use investmentagent.Mode.Escalation.{ModeStep, stay}
use investmentagent.MarketCalendar.{Zone}
use investmentagent.Startup.Steps.{lift, bind, ◌>>=◌}
use investmentagent.Startup.Reconcile.{Texts, World, StartupError, no_adapter}
use investmentagent.Startup.{run_advance_mode, check_transition, unrunnable, advance}
use investmentagent.Startup.Changes.{is_audit, Tame, audit_row-Tame, Leads}
use investmentagent.Startup.Stages.{
  moved, moved-step, check_transition-Tame, check_transition-legal, after_recovery,
}

-- one step of the ladder, and to a mode other than live trading if the command succeeds
abbrev pub Advanced : String → ModeStore → ModeStore → Result StartupError Unit → Type 0
Advanced target h h' (ok _) =
    ModeStep h h' × (current h' ≡ some target) × (str_eq target "PRODUCTION_ACTIVE" ≡ false)
Advanced target h h' (err e) = ModeStep h h'

runs-not-live :
    (target : String) → unrunnable target ≡ false → str_eq target "PRODUCTION_ACTIVE" ≡ false
runs-not-live target runs = elim (Bool-cases (str_eq target "PRODUCTION_ACTIVE")) [
  | inr other ↦ other
  | inl live ↦
      absurd
        (ground (arith, sym (ap unrunnable ((eq_iff target "PRODUCTION_ACTIVE").0 live)) ∙ runs))
]

module _ (fl : Floats) (digest : Payload → String → String) (zone : Zone) (texts : Texts) where
  advance-moved :
      (h : ModeStore) (target : String) (now : ℕ) (w : World fl)
      → w.mode_store ≡ h
      → ((advance fl digest zone texts target (current h) now w).0.mode_store
          ≡ moved fl digest zone texts h target now (some "--advance-mode-to operator command"))
        × ((e : StartupError)
            → (advance fl digest zone texts target (current h) now w).1 ≡ err e
            → is_audit e ≡ true)
  unfolding advance Tame bind
  advance-moved h target now w e = elim (Bool-cases (same_text? (some target) (current h))) [
    | inl same ↦ rw same (e, λ x raised. absurd (ground (arith, raised)))
    | inr other ↦ rw (other, ← e) (audit_row-Tame fl digest zone texts _ _)
  ]

  advance-ends :
      (h : ModeStore) (target : String) (confirmed : Bool) (now : ℕ)
      → assert_legal_startup (current h) target confirmed (resumable h (current h)) ≡ ok tt
      → str_eq target "PRODUCTION_ACTIVE" ≡ false
      → Leads fl digest zone texts h
          (advance fl digest zone texts target (current h) now)
          (λ h' r. Advanced target h h' r)
  unfolding Leads
  advance-ends h target confirmed now legal other w e =
      elim (Result-cases (advance fl digest zone texts target (current h) now w).1) [
        | inl (u, done) ↦
            rw (done, (advance-moved h target now w e).0)
              (
                (moved-step fl digest zone texts h target confirmed now reason legal).0,
                (moved-step fl digest zone texts h target confirmed now reason legal).1,
                other,
              )
        | inr (x, raised) ↦
            rw (raised, (advance-moved h target now w e).0)
              (moved-step fl digest zone texts h target confirmed now reason legal).0
      ]
    where
      reason : Option String
      reason = some "--advance-mode-to operator command"

  checked_transition :
      (h : ModeStore) (target : String) (confirmed : Bool) (now : ℕ)
      → assert_legal_startup (current h) target confirmed (resumable h (current h)) ≡ ok tt
      → Leads fl digest zone texts h
          (lift (raise_if (unrunnable target) no_adapter) >>= λ _.
            advance fl digest zone texts target (current h) now)
          (λ h' r. Advanced target h h' r)
  unfolding Leads bind
  checked_transition h target confirmed now legal w e = elim (Bool-cases (unrunnable target)) [
    | inl refused ↦ rw (refused, e) (stay h)
    | inr runs ↦ rw runs (advance-ends h target confirmed now legal (runs-not-live target runs) w e)
  ]

  transition_stage :
      (h : ModeStore) (target : String) (confirmed : Bool) (now : ℕ)
      → Leads fl digest zone texts h
          (check_transition fl digest zone texts (current h) target confirmed >>= λ _.
            lift (raise_if (unrunnable target) no_adapter) >>= λ _.
            advance fl digest zone texts target (current h) now)
          (λ h' r. Advanced target h h' r)
  unfolding Leads bind Tame
  transition_stage h target confirmed now w e =
      elim (Result-cases (check_transition fl digest zone texts (current h) target confirmed w).1) [
        | inl (u, passed) ↦ rw passed (
            checked_transition h target confirmed now
              (check_transition-legal fl digest zone texts h target confirmed u w e passed)
              (check_transition fl digest zone texts (current h) target confirmed w).0
              ((check_transition-Tame fl digest zone texts (current h) target confirmed w).0 ∙ e))
        | inr (x, raised) ↦
            rw
              (
                raised,
                (check_transition-Tame fl digest zone texts (current h) target confirmed w).0 ∙ e,
              )
              (stay h)
      ]

  -- The operator's command takes the history by at most one step of the ladder; when it succeeds the
  -- history ends in the mode that was asked for, and that mode is not live trading.
  pub run_advance_mode-Advanced :
      (target : String) (confirmed : Bool) (now : ℕ) (w : World fl)
      → Advanced target w.mode_store
          (run_advance_mode fl digest zone texts target confirmed now w).0.mode_store
          (run_advance_mode fl digest zone texts target confirmed now w).1
  unfolding run_advance_mode Leads
  run_advance_mode-Advanced target confirmed now w =
      after_recovery fl digest zone texts w.mode_store (λ h' r. Advanced target w.mode_store h' r) _
        now none (λ e a. stay w.mode_store) (transition_stage w.mode_store target confirmed now) w
        refl
