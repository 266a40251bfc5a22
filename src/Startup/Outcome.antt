-- ===== src/Startup/Outcome.antt =====
-- What a run of `run_startup` in agent/startup.py leaves in the history of modes.
use investmentagent.Prelude.{
  ℕ, String, ◌≡◌, refl, Bool, true, Option, none, some, List, arith, Result, ok, err,
}
use investmentagent.Prelude.Floats.{Floats}
use investmentagent.Audit.{Payload}
use investmentagent.Mode.{assert_legal_startup}
use investmentagent.Mode.Store.{ModeStore, current, is_paused, resumable}
use investmentagent.Mode.Escalation.{ModeStep, stay}
use investmentagent.Approval.{ApprovalToken}
use investmentagent.MarketCalendar.{Zone, CalendarWarning}
use investmentagent.Startup.Steps.{lift}
use investmentagent.Startup.Reconcile.{
  Texts, World, StartupError, calendar, AccountReconciliation, reconcile_accounts_or_raise,
}
use investmentagent.Startup.{
  StartupResult, mode_fault, expiry_fault, reconciliation_fault, run_startup, checked_part,
  last_part,
}
use investmentagent.Startup.Changes.{
  is_audit, is_account, refusal, Tame, audit_row-Tame, catch-Tame, reconcile_each-Tame, halted,
  Leads, after-Tame, after_halting,
}
use investmentagent.Startup.Stages.{
  is_mode, is_calendar, audit_no_refusal, account_no_refusal, mode_no_refusal, calendar_no_refusal,
  unrefused, halted-step, moved, moved-step, transition-moved, verify_chain-leads,
  audit_expired-Tame, audit_warning-Tame, sweep-Tame, log_length-Tame, after_moving, return-leads,
  check_transition-Tame, check_transition-legal, after_recovery,
}

-- the history after a start: by one step of the ladder, in the mode that was asked for, or paused
abbrev pub Outcome : {A : Type 0} → String → ModeStore → ModeStore → Result StartupError A → Type 0
Outcome target h h' (ok _) = ModeStep h h' × (current h' ≡ some target)
Outcome target h h' (err e) = ModeStep h h' × (refusal e ≡ true → is_paused (current h') ≡ true)

module _ (fl : Floats) (digest : Payload → String → String) (zone : Zone) (texts : Texts) where
  module _ (h : ModeStore) (target : String) (confirmed : Bool)
      (accounts : List AccountReconciliation) (now : ℕ) (correlation_id : Option String) where
    abbrev Q : ModeStore → Result StartupError StartupResult → Type 0
    Q h' r = Outcome target h h' r

    quietly : (e : StartupError) → is_audit e ≡ true → Q h (err e)
    quietly e a = unrefused h h e (stay h) (audit_no_refusal e a)

    stopping :
        (reason : String) (e : StartupError) → Q (halted fl digest zone texts h reason now) (err e)
    stopping reason e = (
      (halted-step fl digest zone texts h reason now).0,
      λ _. (halted-step fl digest zone texts h reason now).1,
    )

    module _
        (legal : assert_legal_startup (current h) target confirmed (resumable h (current h))
          ≡ ok tt) where
      finished :
          (warning : Option CalendarWarning) (reconciled : List String)
          (swept : List (ApprovalToken fl))
          → Leads fl digest zone texts h
              (last_part fl digest zone texts target
                (current h)
                now
                correlation_id
                warning
                reconciled
                swept)
              Q
      unfolding last_part
      finished warning reconciled swept =
          after_moving fl digest zone texts h (moved fl digest zone texts h target now none) Q _ _
            (transition-moved fl digest zone texts h target now correlation_id)
            (λ e a.
              unrefused h (moved fl digest zone texts h target now none) e step
                (audit_no_refusal e a))
            (after-Tame fl digest zone texts (moved fl digest zone texts h target now none) Q
              is_audit _ _ (audit_row-Tame fl digest zone texts _)
              (λ e a.
                unrefused h (moved fl digest zone texts h target now none) e step
                  (audit_no_refusal e a))
              (λ _.
                after-Tame fl digest zone texts (moved fl digest zone texts h target now none) Q
                  is_audit _ _ (log_length-Tame fl digest zone texts)
                  (λ e a.
                    unrefused h (moved fl digest zone texts h target now none) e step
                      (audit_no_refusal e a))
                  (λ n.
                    return-leads fl digest zone texts (moved fl digest zone texts h target now none)
                      h Q _ (moved-step fl digest zone texts h target confirmed now none legal))))
        where
          step : ModeStep h (moved fl digest zone texts h target now none)
          step = (moved-step fl digest zone texts h target confirmed now none legal).0

      any-Tame : {B : Type 0} (r : Result StartupError B) → Tame fl (λ _. true) (lift r)
      unfolding Tame
      any-Tame r w = (refl, λ e raised. refl)

      accounts-Tame :
          Tame fl is_account
            (reconcile_accounts_or_raise fl digest zone texts accounts now correlation_id)
      unfolding reconcile_accounts_or_raise
      accounts-Tame = reconcile_each-Tame fl digest zone texts accounts _ correlation_id now

      -- from the accounts check on
      checked :
          Leads fl digest zone texts h
            (checked_part fl digest zone texts target accounts (current h) now correlation_id)
            Q
      unfolding checked_part
      checked =
          after_halting fl digest zone texts h Q (λ _. true) (λ _. true) _ _ now correlation_id
            (any-Tame _) (λ e k missed. absurd (ground (arith, missed))) stopping
            (λ _ _ _ _.
              after_halting fl digest zone texts h Q is_calendar expiry_fault _ _ now correlation_id
                (catch-Tame fl digest zone texts is_calendar calendar _ (λ x. refl))
                (λ e k missed. unrefused h h e (stay h) (calendar_no_refusal e k missed)) stopping
                (λ warning _ _ _.
                  after_halting fl digest zone texts h Q is_account reconciliation_fault _ _ now
                    correlation_id accounts-Tame
                    (λ e k missed. unrefused h h e (stay h) (account_no_refusal e k missed))
                    stopping
                    (λ reconciled _ _ _.
                      verify_chain-leads fl digest zone texts h Q now _
                        (λ h' step paused. (step, λ _. paused))
                        (after-Tame fl digest zone texts h Q is_audit _ _
                          (sweep-Tame fl digest zone texts now) quietly
                          (λ swept.
                            after-Tame fl digest zone texts h Q is_audit _ _
                              (audit_expired-Tame fl digest zone texts correlation_id now swept)
                              quietly
                              (λ _.
                                after-Tame fl digest zone texts h Q is_audit _ _
                                  (audit_warning-Tame fl digest zone texts warning now
                                    correlation_id)
                                  quietly (λ _. finished warning reconciled swept)))))))

  -- A start that returns has taken the history by one step of the ladder to the mode that was asked
  -- for; one that is refused has left it, by at most one step, in PAUSED; one that fails otherwise
  -- has taken at most one step.
  pub run_startup-Outcome :
      (target : String) (confirmed : Bool) (accounts : List AccountReconciliation)
      → (now : ℕ) (correlation_id : Option String) (w : World fl)
      → Outcome target w.mode_store
          (run_startup fl digest zone texts target confirmed accounts now correlation_id
            w).0.mode_store
          (run_startup fl digest zone texts target confirmed accounts now correlation_id w).1
  unfolding run_startup Leads
  run_startup-Outcome target confirmed accounts now correlation_id w =
      after_recovery fl digest zone texts w.mode_store
        (Q w.mode_store target confirmed accounts now correlation_id) _ now correlation_id
        (quietly w.mode_store target confirmed accounts now correlation_id)
        (after_halting fl digest zone texts w.mode_store
          (Q w.mode_store target confirmed accounts now correlation_id) is_mode mode_fault _ _ now
          correlation_id (check_transition-Tame fl digest zone texts _ target confirmed)
          (λ e k missed.
            unrefused w.mode_store w.mode_store e (stay w.mode_store) (mode_no_refusal e k missed))
          (stopping w.mode_store target confirmed accounts now correlation_id)
          (λ u v same passed. checked w.mode_store target confirmed accounts now correlation_id (
            check_transition-legal fl digest zone texts w.mode_store target confirmed u v same
              passed)))
        w refl
