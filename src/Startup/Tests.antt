-- ===== src/Startup/Tests.antt =====
-- Runs of agent/startup.py and of the operator's command on fresh stores.
use investmentagent.Prelude.{
  ℕ, ◌*◌, ◌+◌, ◌/◌, String, ◌≡◌, refl, true, false, none, some, List, [], ◌∷◌, err, Result, length,
}
use investmentagent.Prelude.Floats.{fixed_point, unit}
use investmentagent.Audit.{Payload, append, assert_json_native}
use investmentagent.Mode.{assert_legal_startup, is_legal_step, check_known, illegal_mode_transition}
use investmentagent.Mode.Store.{write, current}
use investmentagent.Mode.Escalation.{Climbed}
use investmentagent.MarketCalendar.{Zone, date}
use investmentagent.Startup.Steps.{bind, on_error}
use investmentagent.Startup.Reconcile.{Texts, World, StartupError, audit_row, wrong_mode}
use investmentagent.Startup.{
  StartupResult, catch_up, last_claimed_mode, reconcile_mode_persistence, enter_paused, pause_once,
  halt, check_transition, run_startup, run_advance_mode,
}
use investmentagent.Startup.Outcome.{Outcome, run_startup-Outcome}
use investmentagent.Startup.Advance.{Advanced, run_advance_mode-Advanced}
use investmentagent.Startup.Histories.{Run, starting, advancing, run_all, run_all-Climbed}

abbrev digest : Payload → String → String
digest p prev = String.◌∷◌ "x" p.action

abbrev zone : Zone
zone = record { eastern_date = λ t. t / 1440; eastern_instant = λ d m. d * 1440 + m }

abbrev texts : Texts
texts = record {
  describe = λ _. "refused";
  describe_warning = λ _. "coverage";
  decimal = λ _. "0";
  numeral = λ _. "0";
  iso_date = λ _. "2026-11-27";
  iso_instant = λ _. "2026-11-27";
}

abbrev world : World fixed_point
world = record {
  mode_store = [];
  audit_log = [];
  approval_service = record {
    expiration = 1000;
    min_display = 30;
    max_per_day = 5;
    price_band_pct = 1 * unit;
    tokens = [];
  };
}

abbrev now : ℕ
now = date 2026 11 27 * 1440

-- the history and the error of the operator's command that jumps to paper trading, and of a start
leap_refused :
    (run_advance_mode fixed_point digest zone texts "PAPER" false now world).1
    ≡ err (wrong_mode illegal_mode_transition)
unfolding run_advance_mode bind reconcile_mode_persistence catch_up current last_claimed_mode
    check_transition assert_legal_startup is_legal_step check_known
leap_refused = refl

-- a refused start leaves the system paused, and a broken log row count shows what was written
abbrev started : World fixed_point × Result StartupError StartupResult
started = run_startup fixed_point digest zone texts "PAPER" false [] now none world

refused_start_pauses :
    ((started.0).mode_store ≡ write [] "PAUSED" now (some "refused") (some "DISABLED"))
    × (length (started.0).audit_log ≡ 2)
unfolding run_startup bind on_error reconcile_mode_persistence catch_up current last_claimed_mode
    check_transition assert_legal_startup is_legal_step check_known halt pause_once enter_paused
    write audit_row append assert_json_native
refused_start_pauses = (refl, refl)

run_startup-Outcome_example : Outcome "PAPER" [] (started.0).mode_store started.1
run_startup-Outcome_example =
    run_startup-Outcome fixed_point digest zone texts "PAPER" false [] now none world

run_advance_mode-Advanced_example :
    Advanced "RESEARCH" []
      (run_advance_mode fixed_point digest zone texts "RESEARCH" false now world).0.mode_store
      (run_advance_mode fixed_point digest zone texts "RESEARCH" false now world).1
run_advance_mode-Advanced_example =
    run_advance_mode-Advanced fixed_point digest zone texts "RESEARCH" false now world

abbrev runs : List Run
runs =
    advancing "RESEARCH" false now
    ∷ starting "PAPER" false [] now none
    ∷ advancing "PAUSED" true now
    ∷ []

run_all-Climbed_example : Climbed (run_all fixed_point digest zone texts runs world).mode_store
run_all-Climbed_example = run_all-Climbed fixed_point digest zone texts runs world refl
