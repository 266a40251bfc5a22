-- ===== src/Mode/Escalation.antt =====
-- The ladder of agent/mode.py over a history of agent/mode_store.py: how the history may grow, and
-- that live trading is only reached by way of research and paper trading.
use investmentagent.Prelude.{
  ℕ, String, ◌≡◌, refl, sym, ap, ◌∙◌, ◌⊎◌, inl, inr, Bool, true, false, Option, none, some, [], ◌∷◌,
  ◌++◌, any, last_or, arith, eq_iff, str_eq, if◌then◌else◌, ◌||◌, ok, Bool-cases,
}
use investmentagent.Prelude.Text.{same_text?}
use investmentagent.Mode.{is_legal_step, assert_legal_startup, normalize_persisted}
use investmentagent.Mode.Store.{
  ModeChange, ModeStore, write, current, paused_from, mode_of, paused_from_of, is_paused,
  recorded_from, resumable,
}
use investmentagent.Mode.Legal.{into_paper, into_live, startup-legal}

-- how one run may change the history
pub data ModeStep : ModeStore → ModeStore → Type 0 where
  stay : (h : ModeStore) → ModeStep h h
  enter :
      (h : ModeStore) (target : String) (confirmed : Bool) (now : ℕ) (reason : Option String)
      → assert_legal_startup (current h) target confirmed (resumable h (current h)) ≡ ok tt
      → same_text? (some target) (current h) ≡ false
      → ModeStep h (write h target now reason (recorded_from (current h) target))
  pause :
      (h : ModeStore) (now : ℕ) (reason : Option String)
      → is_paused (current h) ≡ false
      → ModeStep h (write h "PAUSED" now reason (some (normalize_persisted (current h))))

pub data Reachable : ModeStore → Type 0 where
  start : Reachable []
  grow : {h h' : ModeStore} → Reachable h → ModeStep h h' → Reachable h'

-- the mode that a pause, if there is one, is resumed in
abbrev pub effective : ModeStore → Option String
effective h = if is_paused (current h) then paused_from h else current h

abbrev pub was : String → ModeStore → Bool
was m h = any (λ (c : ModeChange). str_eq c.mode m) h

last_or-append :
    (o : Option ModeChange) (h : ModeStore) (c : ModeChange)
    → last_or (λ _. true) o (h ++ c ∷ []) ≡ some c
last_or-append o [] c = refl
last_or-append o (x ∷ h) c = last_or-append (some x) h c

any-append :
    (m : String) (h : ModeStore) (c : ModeChange)
    → was m (h ++ c ∷ []) ≡ (was m h || str_eq c.mode m)
any-append m [] c = ground arith
any-append m (x ∷ h) c = ground (arith, any-append m h c)

-- the last row is a row
last_or-was :
    (o : Option ModeChange) (h : ModeStore) (m : String)
    → mode_of (last_or (λ _. true) o h) ≡ some m
    → (mode_of o ≡ some m) ⊎ (was m h ≡ true)
last_or-was o [] m e = inl e
last_or-was o (x ∷ h) m e = elim (last_or-was (some x) h m e) [
  | inl here ↦ inr (ground (arith, here, eq_iff x.mode m))
  | inr later ↦ inr (ground (arith, later))
]

current-was : (h : ModeStore) (m : String) → current h ≡ some m → was m h ≡ true
unfolding current
current-was h m e = elim (last_or-was none h m e) [
  | inl never ↦ absurd (ground (arith, never))
  | inr found ↦ found
]

module _ (h : ModeStore) (m : String) (now : ℕ) (reason from : Option String) where
  pub current-write : current (write h m now reason from) ≡ some m
  unfolding current write
  current-write = ap mode_of (last_or-append none h _)

  paused_from-write : paused_from (write h m now reason from) ≡ from
  unfolding paused_from write
  paused_from-write = ap paused_from_of (last_or-append none h _)

  was-write : (x : String) → was x (write h m now reason from) ≡ (was x h || str_eq m x)
  unfolding write
  was-write x = any-append x h _

-- paper trading, active or suspended by a pause, was preceded by research, and live trading by both
abbrev pub Climbed : ModeStore → Type 0
Climbed h =
    (effective h ≡ some "PAPER" → was "RESEARCH" h ≡ true)
    × (effective h ≡ some "PRODUCTION_ACTIVE" → (was "PAPER" h ≡ true) × (was "RESEARCH" h ≡ true))

normalized :
    (o : Option String) (m : String)
    → normalize_persisted o ≡ m
    → str_eq m "DISABLED" ≡ false
    → o ≡ some m
normalized none m e n = absurd (ground (arith, e, n, eq_iff m "DISABLED"))
normalized (some p) m e n = ap some e

some_injective : {a b : String} → ◌≡◌ {A = Option String} (some a) (some b) → a ≡ b
some_injective h = cc

running :
    (h : ModeStore) (m : String)
    → current h ≡ some m
    → str_eq m "PAUSED" ≡ false
    → effective h ≡ some m
running h m e n = ground (arith, e, n)

paused_effective : (h : ModeStore) → current h ≡ some "PAUSED" → effective h ≡ paused_from h
paused_effective h e = ground (arith, e)

paused_resumable :
    (h : ModeStore) → current h ≡ some "PAUSED" → resumable h (current h) ≡ paused_from h
paused_resumable h e = ground (arith, e)

module _ (h : ModeStore) (climbed : Climbed h) where
  module _ (target : String)
      (legal : is_legal_step (normalize_persisted (current h)) target (resumable h (current h))
        ≡ ok true) where
    enter_paper : target ≡ "PAPER" → was "RESEARCH" h ≡ true
    enter_paper e =
        elim (into_paper (normalize_persisted (current h)) (resumable h (current h))
          (rw (sym e) legal)) [
            | inl paper ↦
                climbed.0 (running h "PAPER" (normalized (current h) "PAPER" paper refl) refl)
            | inr (inl (paused, from)) ↦
                (let now_paused = normalized (current h) "PAUSED" paused refl in
                  climbed.0
                    (paused_effective h now_paused ∙ sym (paused_resumable h now_paused) ∙ from))
            | inr (inr (inl research)) ↦
                current-was h "RESEARCH" (normalized (current h) "RESEARCH" research refl)
            | inr (inr (inr live)) ↦
                (climbed.1 (
                  running h "PRODUCTION_ACTIVE"
                    (normalized (current h) "PRODUCTION_ACTIVE" live refl) refl)).1
          ]

    enter_live : target ≡ "PRODUCTION_ACTIVE" → (was "PAPER" h ≡ true) × (was "RESEARCH" h ≡ true)
    enter_live e =
        elim (into_live (normalize_persisted (current h)) (resumable h (current h))
          (rw (sym e) legal)) [
            | inl live ↦ climbed.1 (
                running h "PRODUCTION_ACTIVE" (normalized (current h) "PRODUCTION_ACTIVE" live refl)
                  refl)
            | inr (inl (paused, from)) ↦
                (let now_paused = normalized (current h) "PAUSED" paused refl in
                  climbed.1
                    (paused_effective h now_paused ∙ sym (paused_resumable h now_paused) ∙ from))
            | inr (inr paper) ↦
                (let trading = normalized (current h) "PAPER" paper refl in
                  (current-was h "PAPER" trading, climbed.0 (running h "PAPER" trading refl)))
          ]

  -- a pause keeps the mode that is in effect
  pause-Climbed :
      (now : ℕ) (reason : Option String)
      → is_paused (current h) ≡ false
      → Climbed (write h "PAUSED" now reason (some (normalize_persisted (current h))))
  pause-Climbed now reason unpaused = (
    λ e.
        ground
          (arith, was-write h "PAUSED" now reason from "RESEARCH", climbed.0 (suspended e refl)),
    λ e. (
      ground
          (arith, was-write h "PAUSED" now reason from "PAPER", (climbed.1 (suspended e refl)).0),
      ground (
        arith,
        was-write h "PAUSED" now reason from "RESEARCH",
        (climbed.1 (suspended e refl)).1,
      ),
    ),
  )
    where
      from : Option String
      from = some (normalize_persisted (current h))

      suspended :
          {m : String}
          → effective (write h "PAUSED" now reason from) ≡ some m
          → str_eq m "DISABLED" ≡ false
          → effective h ≡ some m
      suspended {m = m} e n = ground (
        arith,
        unpaused,
        normalized (current h) m
            (some_injective (
              sym (paused_from-write h "PAUSED" now reason from)
              ∙ sym (
                  paused_effective (write h "PAUSED" now reason from)
                    (current-write h "PAUSED" now reason from))
              ∙ e))
            n,
      )

  run-Climbed :
      (target : String) (now : ℕ) (reason from : Option String)
      → is_legal_step (normalize_persisted (current h)) target (resumable h (current h)) ≡ ok true
      → str_eq target "PAUSED" ≡ false
      → Climbed (write h target now reason from)
  run-Climbed target now reason from legal other = (
    λ e. ground (
      arith,
      was-write h target now reason from "RESEARCH",
      enter_paper target legal (entered e),
    ),
    λ e. (
      ground (
        arith,
        was-write h target now reason from "PAPER",
        (enter_live target legal (entered e)).0,
      ),
      ground (
        arith,
        was-write h target now reason from "RESEARCH",
        (enter_live target legal (entered e)).1,
      ),
    ),
  )
    where
      entered : {m : String} → effective (write h target now reason from) ≡ some m → target ≡ m
      entered e = ground (
        arith,
        e,
        running (write h target now reason from) target (current-write h target now reason from)
            other,
      )

not_yet_paused :
    (target : String) (o : Option String)
    → str_eq target "PAUSED" ≡ true
    → same_text? (some target) o ≡ false
    → is_paused o ≡ false
not_yet_paused target none p h = refl
not_yet_paused target (some m) p h =
    ground (arith, p, h, eq_iff target "PAUSED", eq_iff target m, eq_iff m "PAUSED")

step-Climbed : {h h' : ModeStore} → ModeStep h h' → Climbed h → Climbed h'
step-Climbed (stay h) climbed = climbed
step-Climbed (pause h now reason unpaused) climbed = pause-Climbed h climbed now reason unpaused
step-Climbed (enter h target confirmed now reason legal other) climbed =
    elim (Bool-cases (str_eq target "PAUSED")) [
      | inr running_mode ↦
          run-Climbed h climbed target now reason (recorded_from (current h) target)
            (startup-legal (current h) (resumable h (current h)) target confirmed legal)
            running_mode
      | inl pausing ↦
          rw ((eq_iff target "PAUSED").0 pausing)
            (pause-Climbed h climbed now reason (not_yet_paused target (current h) pausing other))
    ]

empty-Climbed : Climbed []
unfolding current
empty-Climbed = (λ e. ground (arith, e), λ e. ground (arith, e))

-- In every history that starts and pauses can build, a mode in effect (the mode itself, or the one
-- a pause will resume) that is paper trading was preceded by research, and one that is live trading
-- by paper trading and research.
pub Reachable-Climbed : {h : ModeStore} → Reachable h → Climbed h
Reachable-Climbed start = empty-Climbed
Reachable-Climbed (grow r step) = step-Climbed step (Reachable-Climbed r)
