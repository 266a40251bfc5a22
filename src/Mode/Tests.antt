-- ===== src/Mode/Tests.antt =====
-- Runs of agent/mode.py, and a history of agent/mode_store.py that climbs and pauses.
use investmentagent.Prelude.{◌≡◌, refl, true, false, none, some, [], err}
use investmentagent.Mode.{
  assert_legal_startup, is_legal_step, check_known, step_allowed, illegal_mode_transition,
  confirmation_missing, mode_transition,
}
use investmentagent.Mode.Store.{ModeStore, write, current}
use investmentagent.Mode.Escalation.{
  enter, pause, Reachable, start, grow, Climbed, Reachable-Climbed,
}

no_leap : assert_legal_startup none "PRODUCTION_ACTIVE" true none ≡ err illegal_mode_transition
unfolding assert_legal_startup is_legal_step check_known step_allowed
no_leap = refl

unconfirmed :
    assert_legal_startup (some "PAPER") "PRODUCTION_ACTIVE" false none ≡ err confirmation_missing
unfolding assert_legal_startup is_legal_step check_known step_allowed
unconfirmed = refl

unknown_mode : assert_legal_startup (some "LIVE") "PAPER" true none ≡ err mode_transition
unfolding assert_legal_startup is_legal_step check_known step_allowed
unknown_mode = refl

-- research, then paper trading, then a halt
abbrev researching : ModeStore
researching = write [] "RESEARCH" 1 none none

abbrev trading : ModeStore
trading = write researching "PAPER" 2 none none

abbrev halted : ModeStore
halted = write trading "PAUSED" 3 none (some "PAPER")

reached : Reachable halted
unfolding assert_legal_startup is_legal_step check_known step_allowed current write
reached =
    grow
      (grow (grow start (enter [] "RESEARCH" false 1 none refl refl))
        (enter researching "PAPER" false 2 none refl refl))
      (pause trading 3 none refl)

halted-Climbed : Climbed halted
halted-Climbed = Reachable-Climbed reached
