-- ===== src/Startup/Histories.antt =====
-- Sequences of runs, the scheduled starts of agent/startup.py and the operator's commands of
-- scripts/run_agent.py, on one set of stores: what they can make of the history of modes.
use investmentagent.Prelude.{ℕ, String, ◌≡◌, Bool, Option, List, [], ◌∷◌, Result, ok, err}
use investmentagent.Prelude.Floats.{Floats}
use investmentagent.Audit.{Payload}
use investmentagent.Mode.Store.{ModeStore}
use investmentagent.Mode.Escalation.{ModeStep, Reachable, start, grow, Climbed, Reachable-Climbed}
use investmentagent.MarketCalendar.{Zone}
use investmentagent.Startup.Reconcile.{Texts, World, StartupError, AccountReconciliation}
use investmentagent.Startup.{run_startup, run_advance_mode}
use investmentagent.Startup.Outcome.{Outcome, run_startup-Outcome}
use investmentagent.Startup.Advance.{Advanced, run_advance_mode-Advanced}

pub data Run : Type 0 where
  starting : String → Bool → List AccountReconciliation → ℕ → Option String → Run
  advancing : String → Bool → ℕ → Run

Outcome-step :
    {A : Type 0} (target : String) (h h' : ModeStore) (r : Result StartupError A)
    → Outcome target h h' r
    → ModeStep h h'
Outcome-step target h h' (ok _) o = o.0
Outcome-step target h h' (err e) o = o.0

Advanced-step :
    (target : String) (h h' : ModeStore) (r : Result StartupError Unit)
    → Advanced target h h' r
    → ModeStep h h'
Advanced-step target h h' (ok _) o = o.0
Advanced-step target h h' (err e) o = o

module _ (fl : Floats) (digest : Payload → String → String) (zone : Zone) (texts : Texts) where
  -- a process runs to its end, in success or with an exception, and leaves the stores
  abbrev pub run_one : Run → World fl → World fl
  run_one (starting target confirmed accounts now correlation_id) w =
      (run_startup fl digest zone texts target confirmed accounts now correlation_id w).0
  run_one (advancing target confirmed now) w =
      (run_advance_mode fl digest zone texts target confirmed now w).0

  unfoldable pub run_all : List Run → World fl → World fl
  run_all [] w = w
  run_all (r ∷ rs) w = run_all rs (run_one r w)

  run_one-step : (r : Run) (w : World fl) → ModeStep w.mode_store (run_one r w).mode_store
  run_one-step (starting target confirmed accounts now correlation_id) w =
      Outcome-step target w.mode_store
        (run_startup fl digest zone texts target confirmed accounts now correlation_id
          w).0.mode_store
        (run_startup fl digest zone texts target confirmed accounts now correlation_id w).1
        (run_startup-Outcome fl digest zone texts target confirmed accounts now correlation_id w)
  run_one-step (advancing target confirmed now) w =
      Advanced-step target w.mode_store
        (run_advance_mode fl digest zone texts target confirmed now w).0.mode_store
        (run_advance_mode fl digest zone texts target confirmed now w).1
        (run_advance_mode-Advanced fl digest zone texts target confirmed now w)

  run_all-Reachable :
      (rs : List Run) (w : World fl) → Reachable w.mode_store → Reachable (run_all rs w).mode_store
  unfolding run_all
  run_all-Reachable [] w h = h
  run_all-Reachable (r ∷ rs) w h = run_all-Reachable rs (run_one r w) (grow h (run_one-step r w))

  -- Whatever starts and commands are run on a fresh store of modes, and however each of them ends,
  -- live trading, in effect or suspended by a pause, is only reached by way of paper trading and
  -- research, and paper trading by way of research.
  pub run_all-Climbed :
      (rs : List Run) (w : World fl) → w.mode_store ≡ [] → Climbed (run_all rs w).mode_store
  run_all-Climbed rs w fresh = Reachable-Climbed (run_all-Reachable rs w (rw fresh start))
