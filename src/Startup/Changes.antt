-- ===== src/Startup/Changes.antt =====
-- What agent/startup.py and `_run_advance_mode` of scripts/run_agent.py do to the history of modes.
use investmentagent.Prelude.{
  ℕ, String, ◌≡◌, refl, ap, ◌∙◌, ◌⊎◌, inl, inr, Bool, true, false, Option, some, List, [], ◌∷◌,
  arith, Result, ok, err, Result-cases, Bool-cases, ◌||◌, if◌then◌else◌, catch,
}
use mathlib.Core.Path.{subst}
use investmentagent.Prelude.Floats.{Floats}
use investmentagent.Audit.{Payload, Entry, append}
use investmentagent.Mode.{normalize_persisted}
use investmentagent.Mode.Store.{ModeStore, write, current, is_paused}
use investmentagent.MarketCalendar.{Zone}
use investmentagent.Startup.Steps.{Step, return, lift, on_error, bind, ◌>>=◌}
use investmentagent.Startup.Reconcile.{
  Texts, World, StartupError, day_trade, reconciliation, audit, accounts_not_expected,
  audit_chain_broken, AccountReconciliation, audit_row, reconcile_account, reconcile_each,
  account_row,
}
use investmentagent.DayTrade.{reconcile}
use investmentagent.Reconciliation.{
  reconcile_positions, reconcile_settled_cash, reconcile_open_orders,
}
use investmentagent.Startup.{
  halt_row, or_halt, catch_up, enter_paused, pause_once, is_claim, last_claimed_mode, mode_fault,
  expiry_fault, reconciliation_fault, reconcile_mode_persistence, halt,
}

-- the kinds of error of the pieces of a startup
abbrev pub is_audit : StartupError → Bool
is_audit (audit _) = true
is_audit _ = false

abbrev pub is_account : StartupError → Bool
is_account (day_trade _) = true
is_account (reconciliation _) = true
is_account e = is_audit e

-- the refusals of a startup; what else can be raised is an error of the audit log and a `KeyError`,
-- `ValueError` or blocked day trade, which no check of a startup raises
abbrev pub refusal : StartupError → Bool
refusal accounts_not_expected = true
refusal audit_chain_broken = true
refusal e = mode_fault e || expiry_fault e || reconciliation_fault e

err_injective : {E A : Type 0} {e e' : E} → ◌≡◌ {A = Result E A} (err e) (err e') → e ≡ e'
err_injective h = cc

module _ (fl : Floats) where
  -- a call that leaves the history of modes as it is and raises errors of one kind only
  unfoldable pub Tame :
      {A : Type 0} → (StartupError → Bool) → Step (World fl) StartupError A → Type 0
  Tame kind m =
      (w : World fl)
      → ((m w).0.mode_store ≡ w.mode_store) × ((e : StartupError) → (m w).1 ≡ err e → kind e ≡ true)

  module _ {A B : Type 0} (kind : StartupError → Bool) where
    pub bind-Tame :
        (m : Step (World fl) StartupError A) (f : A → Step (World fl) StartupError B)
        → Tame kind m
        → ((a : A) → Tame kind (f a))
        → Tame kind (m >>= f)
    unfolding Tame bind
    bind-Tame m f tame goes_on w = elim (Result-cases (m w).1) [
      | inl (a, returned) ↦ rw returned ((goes_on a (m w).0).0 ∙ (tame w).0, (goes_on a (m w).0).1)
      | inr (e, raised) ↦
          rw raised ((tame w).0, λ e' same. (tame w).1 e' (raised ∙ ap err (err_injective same)))
    ]

  bind-keeps :
      {A B : Type 0} (kind : StartupError → Bool)
      → (m : Step (World fl) StartupError A) (f : A → Step (World fl) StartupError B) (w : World fl)
      → ((a : A) → Tame kind (f a))
      → (bind m f w).0.mode_store ≡ (m w).0.mode_store
  unfolding Tame bind
  bind-keeps kind m f w quiet = elim (Result-cases (m w).1) [
    | inl (a, returned) ↦ rw returned (quiet a (m w).0).0
    | inr (e, raised) ↦ rw raised refl
  ]

  module _ (digest : Payload → String → String) (zone : Zone) (texts : Texts) where
    pub audit_row-Tame : (e : Entry) → Tame is_audit (audit_row fl digest zone texts e)
    unfolding audit_row Tame
    audit_row-Tame e w = elim (Result-cases (append digest w.audit_log e)) [
      | inl (log, appended) ↦ rw appended (refl, λ e' h. ground (arith, h))
      | inr (x, refused) ↦ rw refused (refl, λ e' h. ground (arith, h))
    ]

    account_audit : (e : Entry) → Tame is_account (audit_row fl digest zone texts e)
    unfolding Tame
    account_audit e w =
        ((audit_row-Tame e w).0, λ e' h. ground (arith, (audit_row-Tame e w).1 e' h))

    pub catch-Tame :
        {X A : Type 0} (kind : StartupError → Bool) (f : X → StartupError) (r : Result X A)
        → ((x : X) → kind (f x) ≡ true)
        → Tame kind (lift (catch f r))
    unfolding Tame
    catch-Tame kind f (ok a) h w = (refl, λ e e'. absurd (ground (arith, e')))
    catch-Tame kind f (err x) h w = (refl, λ e same. rw (← err_injective same) (h x))

    reconcile_account-Tame :
        (acct : AccountReconciliation) (today : ℕ) (correlation_id : Option String) (now : ℕ)
        → Tame is_account (reconcile_account fl digest zone texts acct today correlation_id now)
    unfolding reconcile_account
    reconcile_account-Tame acct today correlation_id now =
        bind-Tame is_account _ _
          (catch-Tame is_account day_trade
            (reconcile acct.day_trade_guard acct.account_id acct.broker_reported_day_trades today)
            (λ x. refl))
          (λ _.
            bind-Tame is_account _ _
              (catch-Tame is_account reconciliation
                (reconcile_positions acct.account_id acct.local_positions acct.broker_positions)
                (λ x. refl))
              (λ _.
                bind-Tame is_account _ _
                  (catch-Tame is_account reconciliation
                    (reconcile_settled_cash acct.account_id acct.local_settled_cash
                      acct.broker_account)
                    (λ x. refl))
                  (λ _.
                    bind-Tame is_account _ _
                      (catch-Tame is_account reconciliation
                        (reconcile_open_orders acct.account_id acct.local_open_order_ids
                          acct.broker_open_orders)
                        (λ x. refl))
                      (λ _.
                        account_audit
                          (account_row fl digest zone texts acct today correlation_id now)))))

    pub return-Tame : {A : Type 0} (kind : StartupError → Bool) (a : A) → Tame kind (return a)
    unfolding Tame
    return-Tame kind a w = (refl, λ e h. absurd (ground (arith, h)))

    pub reconcile_each-Tame :
        (accounts : List AccountReconciliation) (today : ℕ) (correlation_id : Option String)
        (now : ℕ)
        → Tame is_account (reconcile_each fl digest zone texts accounts today correlation_id now)
    unfolding reconcile_each
    reconcile_each-Tame [] today correlation_id now = return-Tame is_account []
    reconcile_each-Tame (acct ∷ accounts) today correlation_id now =
        bind-Tame is_account _ _ (reconcile_account-Tame acct today correlation_id now) (λ _.
          bind-Tame is_account _ _ (reconcile_each-Tame accounts today correlation_id now)
            (λ names. return-Tame is_account (acct.account_id ∷ names)))

    catch_up-Tame :
        (stored : Option String) (now : ℕ) (correlation_id : Option String)
        → Tame is_audit (catch_up fl digest zone texts stored now correlation_id)
    unfolding Tame catch_up
    catch_up-Tame stored now correlation_id w =
        elim (Bool-cases (is_claim stored (last_claimed_mode w.audit_log))) [
          | inl agrees ↦ rw agrees (refl, λ e h. absurd (ground (arith, h)))
          | inr differs ↦ rw differs (audit_row-Tame _ w)
        ]

    -- the recovery at the beginning returns the persisted mode and changes no mode
    pub persisted-current :
        (now : ℕ) (correlation_id : Option String) (w : World fl)
        → ((reconcile_mode_persistence fl digest zone texts now correlation_id w).0.mode_store
            ≡ w.mode_store)
          × (((reconcile_mode_persistence fl digest zone texts now correlation_id w).1
                ≡ ok (current w.mode_store))
              ⊎ (e : StartupError) × ((reconcile_mode_persistence fl digest zone texts now
                    correlation_id w).1
                  ≡ err e)
                × (is_audit e ≡ true))
    unfolding reconcile_mode_persistence Tame bind
    persisted-current now correlation_id w =
        elim (Result-cases
          (catch_up fl digest zone texts (current w.mode_store) now correlation_id w).1) [
            | inl (u, closed) ↦
                rw closed ((catch_up-Tame (current w.mode_store) now correlation_id w).0, inl refl)
            | inr (e, failed) ↦ rw failed (
              (catch_up-Tame (current w.mode_store) now correlation_id w).0,
              inr (e, refl, (catch_up-Tame (current w.mode_store) now correlation_id w).1 e failed),
            )
          ]

    -- the history after `halt`
    abbrev pub halted : ModeStore → String → ℕ → ModeStore
    halted h reason now =
        if is_paused (current h)
        then h
        else write h "PAUSED" now (some reason) (some (normalize_persisted (current h)))

    enter_paused-write :
        (persisted reason : Option String) (now : ℕ) (correlation_id : Option String) (w : World fl)
        → (enter_paused fl digest zone texts persisted reason now correlation_id w).0.mode_store
          ≡ write w.mode_store "PAUSED" now reason (some (normalize_persisted persisted))
    unfolding enter_paused Tame bind
    enter_paused-write persisted reason now correlation_id w = (audit_row-Tame _ _).0

    pause_once-halted :
        (reason : String) (now : ℕ) (correlation_id : Option String) (w : World fl)
        → (pause_once fl digest zone texts
            (current w.mode_store)
            reason
            now
            correlation_id
            w).0.mode_store
          ≡ halted w.mode_store reason now
    unfolding pause_once
    pause_once-halted reason now correlation_id w =
        elim (Bool-cases (is_paused (current w.mode_store))) [
          | inl already ↦ rw already refl
          | inr running ↦
              rw running
                (enter_paused-write (current w.mode_store) (some reason) now correlation_id w)
        ]

    pub halt-halted :
        (reason : String) (now : ℕ) (correlation_id : Option String) (w : World fl)
        → (halt fl digest zone texts
            (current w.mode_store)
            reason
            now
            correlation_id
            w).0.mode_store
          ≡ halted w.mode_store reason now
    unfolding halt
    halt-halted reason now correlation_id w =
        bind-keeps {A = Unit} {B = Unit} is_audit
          (pause_once fl digest zone texts (current w.mode_store) reason now correlation_id)
          (λ _.
            audit_row fl digest zone texts
              (halt_row (current w.mode_store) reason now correlation_id))
          w (λ _. audit_row-Tame (halt_row (current w.mode_store) reason now correlation_id))
        ∙ pause_once-halted reason now correlation_id w

    pub halt_from :
        (h : ModeStore) (reason : String) (now : ℕ) (correlation_id : Option String) (w : World fl)
        → w.mode_store ≡ h
        → (halt fl digest zone texts (current h) reason now correlation_id w).0.mode_store
          ≡ halted h reason now
    halt_from h reason now correlation_id w e =
        subst
          (λ g.
            (halt fl digest zone texts (current g) reason now correlation_id w).0.mode_store
            ≡ halted g reason now)
          e (halt-halted reason now correlation_id w)

    -- where a call that begins with a history leads: its history and result satisfy `Q`
    unfoldable pub Leads :
        {A : Type 0}
        → ModeStore
        → Step (World fl) StartupError A
        → (ModeStore → Result StartupError A → Type 0)
        → Type 0
    Leads h m Q = (w : World fl) → w.mode_store ≡ h → Q (m w).0.mode_store (m w).1

    module _ {A B : Type 0} (h : ModeStore) (Q : ModeStore → Result StartupError B → Type 0) where
      pub after-Tame :
          (kind : StartupError → Bool) (m : Step (World fl) StartupError A)
          → (f : A → Step (World fl) StartupError B) → Tame kind m
          → ((e : StartupError) → kind e ≡ true → Q h (err e))
          → ((a : A) → Leads h (f a) Q)
          → Leads h (m >>= f) Q
      unfolding Leads Tame bind on_error
      after-Tame kind m f tame failed goes_on w e = elim (Result-cases (m w).1) [
        | inl (a, returned) ↦ rw returned (goes_on a (m w).0 ((tame w).0 ∙ e))
        | inr (x, raised) ↦ rw (raised, (tame w).0, e) (failed x ((tame w).1 x raised))
      ]

      pub after_halting :
          (kind caught : StartupError → Bool) (m : Step (World fl) StartupError A)
          → (f : A → Step (World fl) StartupError B) → (now : ℕ) (correlation_id : Option String)
          → Tame kind m
          → ((e : StartupError) → kind e ≡ true → caught e ≡ false → Q h (err e))
          → ((reason : String) (e : StartupError) → Q (halted h reason now) (err e))
          → ((a : A) (v : World fl) → v.mode_store ≡ h → (m v).1 ≡ ok a → Leads h (f a) Q)
          → Leads h (or_halt fl digest zone texts caught (current h) now correlation_id m >>= f) Q
      unfolding Leads Tame bind on_error
      after_halting kind caught m f now correlation_id tame failed halting goes_on w e =
          elim (Result-cases (m w).1) [
            | inl (a, returned) ↦ rw returned (goes_on a w e returned (m w).0 ((tame w).0 ∙ e))
            | inr (x, raised) ↦ elim (Bool-cases (caught x)) [
              | inr missed ↦
                  rw (raised, missed, (tame w).0, e) (failed x ((tame w).1 x raised) missed)
              | inl hit ↦
                  rw (raised, hit)
                    (elim (Result-cases
                      (halt fl digest zone texts (current h) (texts.describe x) now correlation_id
                        (m w).0).1) [
                          | inl (u, done) ↦ rw (done, stopped x w e) (halting (texts.describe x) x)
                          | inr (y, broken) ↦
                              rw (broken, stopped x w e) (halting (texts.describe x) y)
                        ])
            ]
          ]
        where
          stopped :
              (x : StartupError) (v : World fl)
              → v.mode_store ≡ h
              → (halt fl digest zone texts
                  (current h)
                  (texts.describe x)
                  now
                  correlation_id
                  (m v).0).0.mode_store
                ≡ halted h (texts.describe x) now
          stopped x v e = halt_from h (texts.describe x) now correlation_id (m v).0 ((tame v).0 ∙ e)
