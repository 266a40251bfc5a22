-- ===== src/Startup/Stages.antt =====
-- The stages of `run_startup` in agent/startup.py: what each does to the history of modes, and which
-- errors it raises.
use mathlib.Core.Path.{subst}
use investmentagent.Prelude.{
  ℕ, String, ◌≡◌, refl, sym, ap, ◌∙◌, inl, inr, Bool, true, false, Option, none, some, List, [],
  ◌∷◌, arith, Result, ok, err, Result-cases, Bool-cases, if◌then◌else◌,
}
use investmentagent.Prelude.Floats.{Floats}
use investmentagent.Prelude.Text.{same_text?, same_text?_iff}
use investmentagent.Audit.{Payload, verify}
use investmentagent.Mode.{assert_legal_startup, normalize_persisted}
use investmentagent.Mode.Store.{ModeStore, write, current, is_paused, recorded_from, resumable}
use investmentagent.Mode.Escalation.{ModeStep, stay, enter, pause, current-write}
use investmentagent.Approval.{ApprovalToken}
use investmentagent.MarketCalendar.{Zone, CalendarWarning}
use investmentagent.Startup.Steps.{Step, return, bind, ◌>>=◌}
use investmentagent.Startup.Reconcile.{
  Texts, World, StartupError, wrong_mode, day_trade, reconciliation, calendar, audit,
  accounts_not_expected, audit_chain_broken, no_adapter,
}
use investmentagent.Startup.{
  mode_fault, expiry_fault, reconciliation_fault, reconcile_mode_persistence, check_transition,
  verify_chain, sweep, audit_expired, audit_warning, transition, log_length,
}
use investmentagent.Startup.Changes.{
  is_audit, is_account, refusal, Tame, bind-Tame, audit_row-Tame, catch-Tame, return-Tame,
  persisted-current, halted, Leads,
}

pub audit_no_refusal : (e : StartupError) → is_audit e ≡ true → refusal e ≡ false
audit_no_refusal (audit x) h = refl
audit_no_refusal (wrong_mode x) h = absurd (ground (arith, h))
audit_no_refusal accounts_not_expected h = absurd (ground (arith, h))
audit_no_refusal audit_chain_broken h = absurd (ground (arith, h))
audit_no_refusal no_adapter h = absurd (ground (arith, h))
audit_no_refusal (calendar x) h = absurd (ground (arith, h))
audit_no_refusal (day_trade x) h = absurd (ground (arith, h))
audit_no_refusal (reconciliation x) h = absurd (ground (arith, h))

pub account_no_refusal :
    (e : StartupError) → is_account e ≡ true → reconciliation_fault e ≡ false → refusal e ≡ false
account_no_refusal (audit x) h n = refl
account_no_refusal (wrong_mode x) h n = absurd (ground (arith, h))
account_no_refusal accounts_not_expected h n = absurd (ground (arith, h))
account_no_refusal audit_chain_broken h n = absurd (ground (arith, h))
account_no_refusal no_adapter h n = absurd (ground (arith, h))
account_no_refusal (calendar x) h n = absurd (ground (arith, h))
account_no_refusal (day_trade x) h n = n
account_no_refusal (reconciliation x) h n = absurd (ground (arith, n))

abbrev pub is_mode : StartupError → Bool
is_mode (wrong_mode _) = true
is_mode _ = false

abbrev pub is_calendar : StartupError → Bool
is_calendar (calendar _) = true
is_calendar _ = false

pub mode_no_refusal :
    (e : StartupError) → is_mode e ≡ true → mode_fault e ≡ false → refusal e ≡ false
mode_no_refusal (wrong_mode x) h n = ground (arith, n)
mode_no_refusal (audit x) h n = absurd (ground (arith, h))
mode_no_refusal accounts_not_expected h n = absurd (ground (arith, h))
mode_no_refusal audit_chain_broken h n = absurd (ground (arith, h))
mode_no_refusal no_adapter h n = absurd (ground (arith, h))
mode_no_refusal (calendar x) h n = absurd (ground (arith, h))
mode_no_refusal (day_trade x) h n = absurd (ground (arith, h))
mode_no_refusal (reconciliation x) h n = absurd (ground (arith, h))

pub calendar_no_refusal :
    (e : StartupError) → is_calendar e ≡ true → expiry_fault e ≡ false → refusal e ≡ false
calendar_no_refusal (calendar x) h n = ground (arith, n)
calendar_no_refusal (wrong_mode x) h n = absurd (ground (arith, h))
calendar_no_refusal (audit x) h n = absurd (ground (arith, h))
calendar_no_refusal accounts_not_expected h n = absurd (ground (arith, h))
calendar_no_refusal audit_chain_broken h n = absurd (ground (arith, h))
calendar_no_refusal no_adapter h n = absurd (ground (arith, h))
calendar_no_refusal (day_trade x) h n = absurd (ground (arith, h))
calendar_no_refusal (reconciliation x) h n = absurd (ground (arith, h))

pub unrefused :
    (h h' : ModeStore) (e : StartupError)
    → ModeStep h h'
    → refusal e ≡ false
    → ModeStep h h' × (refusal e ≡ true → is_paused (current h') ≡ true)
unrefused h h' e step n = (step, λ r. absurd (ground (arith, r, n)))

module _ (fl : Floats) (digest : Payload → String → String) (zone : Zone) (texts : Texts) where
  pub halted-step :
      (h : ModeStore) (reason : String) (now : ℕ)
      → ModeStep h (halted fl digest zone texts h reason now)
        × (is_paused (current (halted fl digest zone texts h reason now)) ≡ true)
  halted-step h reason now = elim (Bool-cases (is_paused (current h))) [
    | inl already ↦ rw already (stay h, already)
    | inr running ↦ rw running (
      pause h now (some reason) running,
      ap is_paused
          (current-write h "PAUSED" now (some reason) (some (normalize_persisted (current h)))),
    )
  ]

  -- the history after the transition of a start
  abbrev pub moved : ModeStore → String → ℕ → Option String → ModeStore
  moved h target now reason =
      if same_text? (some target) (current h)
      then h
      else write h target now reason (recorded_from (current h) target)

  module _ (h : ModeStore) (target : String) (confirmed : Bool) (now : ℕ) (reason : Option String)
      (legal : assert_legal_startup (current h) target confirmed (resumable h (current h))
        ≡ ok tt) where
    pub moved-step :
        ModeStep h (moved h target now reason) × (current (moved h target now reason) ≡ some target)
    moved-step = elim (Bool-cases (same_text? (some target) (current h))) [
      | inl same ↦ rw same (stay h, sym ((same_text?_iff (some target) (current h)).0 same))
      | inr other ↦ rw other (
        enter h target confirmed now reason legal other,
        current-write h target now reason (recorded_from (current h) target),
      )
    ]

  pub transition-moved :
      (h : ModeStore) (target : String) (now : ℕ) (correlation_id : Option String) (w : World fl)
      → w.mode_store ≡ h
      → ((transition fl digest zone texts target (current h) now correlation_id w).0.mode_store
          ≡ moved h target now none)
        × ((e : StartupError)
            → (transition fl digest zone texts target (current h) now correlation_id w).1 ≡ err e
            → is_audit e ≡ true)
  unfolding transition Tame bind
  transition-moved h target now correlation_id w e =
      elim (Bool-cases (same_text? (some target) (current h))) [
        | inl same ↦ rw same (e, λ x raised. absurd (ground (arith, raised)))
        | inr other ↦ rw (other, ← e) (audit_row-Tame fl digest zone texts _ _)
      ]

  module _ (h : ModeStore) {A : Type 0} (Q : ModeStore → Result StartupError A → Type 0) where
    pub verify_chain-leads :
        (now : ℕ) (f : Unit → Step (World fl) StartupError A)
        → ((h' : ModeStore)
            → ModeStep h h'
            → is_paused (current h') ≡ true
            → Q h' (err audit_chain_broken))
        → Leads fl digest zone texts h (f tt) Q
        → Leads fl digest zone texts h (verify_chain fl digest zone texts (current h) now >>= f) Q
    unfolding Leads verify_chain bind
    verify_chain-leads now f broken goes_on w e = elim (Bool-cases (verify digest w.audit_log)) [
      | inl intact ↦ rw intact (goes_on w e)
      | inr cut ↦ elim (Bool-cases (is_paused (current h))) [
        | inl already ↦ rw (cut, already, e) (broken h (stay h) already)
        | inr running ↦
            rw (cut, running, e)
              (broken
                (write h "PAUSED" now
                  (some "audit hash chain failed verification at startup (§8.1)")
                  (some (normalize_persisted (current h))))
                (pause h now (some "audit hash chain failed verification at startup (§8.1)")
                  running)
                (ap is_paused (
                  current-write h "PAUSED" now
                    (some "audit hash chain failed verification at startup (§8.1)")
                    (some (normalize_persisted (current h))))))
      ]
    ]

  pub audit_expired-Tame :
      (correlation_id : Option String) (now : ℕ) (swept : List (ApprovalToken fl))
      → Tame fl is_audit (audit_expired fl digest zone texts correlation_id now swept)
  unfolding audit_expired
  audit_expired-Tame correlation_id now [] = return-Tame fl digest zone texts is_audit tt
  audit_expired-Tame correlation_id now (tok ∷ swept) =
      bind-Tame fl is_audit _ _ (audit_row-Tame fl digest zone texts _)
        (λ _. audit_expired-Tame correlation_id now swept)

  pub audit_warning-Tame :
      (warning : Option CalendarWarning) (now : ℕ) (correlation_id : Option String)
      → Tame fl is_audit (audit_warning fl digest zone texts warning now correlation_id)
  unfolding audit_warning
  audit_warning-Tame none now correlation_id = return-Tame fl digest zone texts is_audit tt
  audit_warning-Tame (some warning) now correlation_id = audit_row-Tame fl digest zone texts _

  pub sweep-Tame : (now : ℕ) → Tame fl is_audit (sweep fl digest zone texts now)
  unfolding Tame sweep
  sweep-Tame now w = (refl, λ e h. absurd (ground (arith, h)))

  pub log_length-Tame : Tame fl is_audit (log_length fl digest zone texts)
  unfolding Tame log_length
  log_length-Tame w = (refl, λ e h. absurd (ground (arith, h)))

  module _ {A : Type 0} (h h' : ModeStore) (Q : ModeStore → Result StartupError A → Type 0) where
    pub after_moving :
        (m : Step (World fl) StartupError Unit) (f : Unit → Step (World fl) StartupError A)
        → ((w : World fl)
            → w.mode_store ≡ h
            → ((m w).0.mode_store ≡ h')
              × ((e : StartupError) → (m w).1 ≡ err e → is_audit e ≡ true))
        → ((e : StartupError) → is_audit e ≡ true → Q h' (err e))
        → Leads fl digest zone texts h' (f tt) Q
        → Leads fl digest zone texts h (m >>= f) Q
    unfolding Leads bind
    after_moving m f moves failed goes_on w e = elim (Result-cases (m w).1) [
      | inl (u, done) ↦ rw done (goes_on (m w).0 (moves w e).0)
      | inr (x, raised) ↦ rw (raised, (moves w e).0) (failed x ((moves w e).1 x raised))
    ]

    pub return-leads : (a : A) → Q h (ok a) → Leads fl digest zone texts h (return a) Q
    unfolding Leads
    return-leads a q w e = rw e q

  pub check_transition-Tame :
      (persisted : Option String) (target : String) (confirmed : Bool)
      → Tame fl is_mode (check_transition fl digest zone texts persisted target confirmed)
  unfolding Tame check_transition
  check_transition-Tame persisted target confirmed w =
      catch-Tame fl digest zone texts is_mode wrong_mode
        (assert_legal_startup persisted target confirmed (resumable w.mode_store persisted))
        (λ x. refl) w

  pub check_transition-legal :
      (h : ModeStore) (target : String) (confirmed : Bool) (u : Unit) (v : World fl)
      → v.mode_store ≡ h
      → (check_transition fl digest zone texts (current h) target confirmed v).1 ≡ ok u
      → assert_legal_startup (current h) target confirmed (resumable h (current h)) ≡ ok tt
  unfolding check_transition
  check_transition-legal h target confirmed u v e passed =
      elim (Result-cases
        (assert_legal_startup (current h) target confirmed (resumable v.mode_store (current h)))) [
          | inl (u', legal) ↦
              subst
                (λ g.
                  assert_legal_startup (current h) target confirmed (resumable g (current h))
                  ≡ ok tt)
                e legal
          | inr (x, illegal) ↦ absurd (ground (arith, illegal, passed))
        ]

  pub after_recovery :
      {A : Type 0} (h : ModeStore) (Q : ModeStore → Result StartupError A → Type 0)
      → (f : Option String → Step (World fl) StartupError A)
      → (now : ℕ) (correlation_id : Option String)
      → ((e : StartupError) → is_audit e ≡ true → Q h (err e))
      → Leads fl digest zone texts h (f (current h)) Q
      → Leads fl digest zone texts h
          (reconcile_mode_persistence fl digest zone texts now correlation_id >>= f)
          Q
  unfolding Leads bind
  after_recovery h Q f now correlation_id failed goes_on w e =
      elim ((persisted-current fl digest zone texts now correlation_id w).1) [
        | inl resolved ↦ rw (resolved ∙ ap (λ (g : ModeStore). ok (current g)) e) (
            goes_on (reconcile_mode_persistence fl digest zone texts now correlation_id w).0
              ((persisted-current fl digest zone texts now correlation_id w).0 ∙ e))
        | inr (x, raised, kind) ↦
            rw (raised, (persisted-current fl digest zone texts now correlation_id w).0 ∙ e)
              (failed x kind)
      ]
