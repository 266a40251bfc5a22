-- ===== src/Holding/Exit.antt =====
-- Normal exits, early exits and the cooldown of agent/holding.py.
use investmentagent.Prelude.{
  ℕ, ◌+◌, ◌≤◌, ◌<◌, String, ◌≡◌, refl, ◌↔◌, Bool, true, false, Option, some, List, [], ◌∷◌, arith,
  Member, ◌⊎◌, inl, inr, ok, >>=-eq-ok, ok-injective, Option-cases, if◌then◌else◌, is_ok,
  Result-cases, not,
}
use investmentagent.Holding.{
  Lot, Registry, HoldingPolicy, HoldingError, get_policy, is_open, is_settled, check_normal_exit,
  request_early_exit, ExitCategory, evidence_exempt, no_evidence, symbols_in_cooldown,
  in_cooldown_since,
}

-- A normal exit is permitted exactly for a lot that is open, settled and past its minimum hold.
pub check_normal_exit_iff :
    (lot : Lot) (now : ℕ)
    → (check_normal_exit lot now ≡ ok tt) ↔ (
        (is_open lot ≡ true)
        × (is_settled lot now ≡ true)
        × (lot.opened_at + lot.minimum_hold ≤ now))
unfolding check_normal_exit
check_normal_exit_iff lot now = ground arith

-- For an open lot and a request whose category is exempt from evidence or has some, exactly one of
-- the two ways out is there: the early exit is granted when the normal exit is refused.
pub normal_or_early :
    (lot : Lot) (request_id : String) (category : ExitCategory) (evidence : Option String) (now : ℕ)
    → is_open lot ≡ true
    → (evidence_exempt category ≡ true) ⊎ (no_evidence evidence ≡ false)
    → is_ok (request_early_exit lot request_id category evidence now)
      ≡ not (is_ok (check_normal_exit lot now))
unfolding request_early_exit check_normal_exit
normal_or_early lot request_id category evidence now h k = ground arith

-- the lot is closed, and its own policy's cooldown has not run out
abbrev pub Cooling : Registry → ℕ → String → Lot → Type 0
Cooling r now symbol lot =
    (closed_at : ℕ) × (policy : HoldingPolicy) × (lot.closed_at ≡ some closed_at)
    × (get_policy r lot.holding_policy_version ≡ ok policy)
    × (now < closed_at + policy.cooldown_period)
    × (symbol ≡ lot.symbol)

abbrev pub Some : (Lot → Type 0) → List Lot → Type 0
Some P [] = ⊥
Some P (l ∷ ls) = P l ⊎ Some P ls

in_cooldown_since_iff :
    (r : Registry) (now : ℕ) (lot : Lot)
    → in_cooldown_since r now lot lot.closed_at ≡ ok true ↔ Cooling r now lot.symbol lot
in_cooldown_since_iff r now lot = (sound, complete)
  where
    sound : in_cooldown_since r now lot lot.closed_at ≡ ok true → Cooling r now lot.symbol lot
    sound h = elim (Option-cases lot.closed_at) [
      | inl still_open ↦ absurd (ground arith)
      | inr (c, closed) ↦ elim (Result-cases (get_policy r lot.holding_policy_version)) [
        | inl (p, known) ↦ (c, p, closed, known, ground arith, refl)
        | inr (e, unknown) ↦ absurd (ground arith)
      ]
    ]

    complete : Cooling r now lot.symbol lot → in_cooldown_since r now lot lot.closed_at ≡ ok true
    complete (c, p, closed, known, short, _) = ground arith

-- If no closed lot has an unknown policy version, a symbol is in cooldown exactly when one of its
-- closed lots closed less than that lot's own cooldown period ago.
pub symbols_in_cooldown_iff :
    (lots : List Lot) (r : Registry) (now : ℕ) {symbols : List String} (symbol : String)
    → symbols_in_cooldown lots r now ≡ ok symbols
    → Member symbol symbols ↔ Some (Cooling r now symbol) lots
unfolding symbols_in_cooldown
symbols_in_cooldown_iff [] r now {symbols} symbol h =
    let e = ok-injective {E = HoldingError} h in rw (← e) (λ m. m, λ m. m)
symbols_in_cooldown_iff (lot ∷ lots) r now {symbols} symbol h =
    let (cooling, first, later) = >>=-eq-ok (in_cooldown_since r now lot lot.closed_at) _ h in
    let (rest, others, same) = >>=-eq-ok (symbols_in_cooldown lots r now) _ later in
    split cooling first rest (symbols_in_cooldown_iff lots r now symbol others)
      (ok-injective {E = HoldingError} same)
  where
    split :
        (cooling : Bool)
        → in_cooldown_since r now lot lot.closed_at ≡ ok cooling
        → (rest : List String) → Member symbol rest ↔ Some (Cooling r now symbol) lots
        → (if cooling then lot.symbol ∷ rest else rest) ≡ symbols
        → Member symbol symbols ↔ Some (Cooling r now symbol) (lot ∷ lots)
    split true first rest ih same =
        let (c, p, closed, known, short, _) = (in_cooldown_since_iff r now lot).0 first in
        rw (← same) (
          elim [ inl e ↦ inl (c, p, closed, known, short, e) | inr m ↦ inr (ih.0 m) ],
          elim [ inl k ↦ inl k.5 | inr m ↦ inr (ih.1 m) ],
        )
    split false first rest ih same = rw (← same) (
      (λ m. inr (ih.0 m)),
      elim [
        | inl k ↦
            absurd
              (ground (arith, (in_cooldown_since_iff r now lot).1 (k.0, k.1, k.2, k.3, k.4, refl)))
        | inr m ↦ ih.1 m
      ],
    )
