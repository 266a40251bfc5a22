-- ===== src/Policy/Gates.antt =====
-- What the check of agent/policy.py lets through.
use mathlib.Core.Path.{subst}
use investmentagent.Prelude.{
  ◌≤◌, ◌<◌, String, str_eq, ◌≡◌, refl, sym, ◌∙◌, Bool, true, false, Option, none, some, List, [],
  ◌∷◌, arith, All, All-map, Member, any, ok, err, >>=-eq-ok, ◌↔◌, ◌⊎◌, inl, inr, eq_iff, Bool-cases,
  Result-cases, Option-cases,
}
use investmentagent.Prelude.Text.{upper}
use investmentagent.Prelude.Dict.{Dict, get}
use investmentagent.Policy.{
  CapabilityStatus, disabled, research_only, paper_only, approval_required, production_allowed,
  level, Gate, PolicyError, violation, key_error, TradeCapabilityPolicy, status, required, blocked,
  check_dimension, check_dimensions, check, allows, table,
}

-- what the mode asks of a value: approval for live trading, paper otherwise
abbrev pub Suffices : Bool → CapabilityStatus → Type 0
Suffices live disabled = ⊥
Suffices live research_only = ⊥
Suffices live paper_only = live ≡ false
Suffices live approval_required = Unit
Suffices live production_allowed = Unit

-- the six dimensions, each with the policy's table of its values
abbrev pub dimensions : TradeCapabilityPolicy → Dict (Dict CapabilityStatus)
dimensions p =
    ("asset_class", p.asset_class)
    ∷ ("side", p.side)
    ∷ ("funding", p.funding)
    ∷ ("order_type", p.order_type)
    ∷ ("session", p.session)
    ∷ ("time_in_force", p.time_in_force)
    ∷ []

-- the dimension is one of the six, and its table lists the value in capitals with a status that
-- suffices
abbrev pub Permits : TradeCapabilityPolicy → Bool → String × String → Type 0
Permits p live (dimension, value) =
    (t : Dict CapabilityStatus) × (st : CapabilityStatus) × (get (dimensions p) dimension ≡ some t)
    × (get t (upper value) ≡ some st)
    × Suffices live st

-- no symbol is given, or one whose capitals are not on the block list
abbrev pub IsFree : TradeCapabilityPolicy → Option String → Type 0
IsFree p none = Unit
IsFree p (some s) = (s ≡ "") ⊎ ¬ Member (upper s) p.symbol_blocklist

any-Member : (x : String) (xs : List String) → (any (λ b. str_eq b x) xs ≡ true) ↔ Member x xs
any-Member x [] = (λ h. ground (arith, h), λ h. absurd h)
any-Member x (b ∷ xs) = ground (arith, eq_iff b x, any-Member x xs)

blocked-IsFree :
    (p : TradeCapabilityPolicy) (o : Option String) → (blocked p o ≡ false) ↔ IsFree p o
blocked-IsFree p none = (λ _. tt, λ _. refl)
blocked-IsFree p (some s) = elim (Bool-cases (str_eq s "")) [
  | inl empty ↦ (λ h. inl ((eq_iff s "").0 empty), λ h. rw empty refl)
  | inr given ↦ elim (Bool-cases (any (λ b. str_eq b (upper s)) p.symbol_blocklist)) [
    | inl there ↦ (
      λ h. absurd (ground (arith, given, there, h)),
      λ h. elim h [
        | inl e ↦ absurd (ground (arith, given, (eq_iff s "").1 e))
        | inr off ↦ absurd (off ((any-Member (upper s) p.symbol_blocklist).0 there))
      ],
    )
    | inr off ↦ (
      λ h. inr (λ m. ground (arith, off, (any-Member (upper s) p.symbol_blocklist).1 m)),
      λ h. rw given (rw off refl),
    )
  ]
]

table-dimensions : (p : TradeCapabilityPolicy) (d : String) → table p d ≡ get (dimensions p) d
unfolding get
table-dimensions p d = ground (
  arith,
  eq_iff d "asset_class",
  eq_iff "asset_class" d,
  eq_iff d "side",
  eq_iff "side" d,
  eq_iff d "funding",
  eq_iff "funding" d,
  eq_iff d "order_type",
  eq_iff "order_type" d,
  eq_iff d "session",
  eq_iff "session" d,
  eq_iff d "time_in_force",
  eq_iff "time_in_force" d,
)

level-Suffices :
    (live : Bool) (st : CapabilityStatus) → (level (required live) ≤ level st) ↔ Suffices live st
level-Suffices true disabled = (λ h. ground (arith, h), λ h. absurd h)
level-Suffices false disabled = (λ h. ground (arith, h), λ h. absurd h)
level-Suffices true research_only = (λ h. ground (arith, h), λ h. absurd h)
level-Suffices false research_only = (λ h. ground (arith, h), λ h. absurd h)
level-Suffices true paper_only = ground arith
level-Suffices false paper_only = ground arith
level-Suffices true approval_required = (λ h. tt, λ h. omega arith)
level-Suffices false approval_required = (λ h. tt, λ h. omega arith)
level-Suffices true production_allowed = (λ h. tt, λ h. omega arith)
level-Suffices false production_allowed = (λ h. tt, λ h. omega arith)

-- the status that is looked up reaches what is required
abbrev Reaches : TradeCapabilityPolicy → Bool → String × String → Type 0
Reaches p live (dimension, value) =
    (st : CapabilityStatus) × (status p dimension value ≡ ok st)
    × (level (required live) ≤ level st)

Reaches→Permits :
    (p : TradeCapabilityPolicy) (live : Bool) (x : String × String)
    → Reaches p live x
    → Permits p live x
unfolding status
Reaches→Permits p live (d, v) (st, e, le) = elim (Option-cases (table p d)) [
  | inl unknown ↦ absurd (ground (arith, unknown, e))
  | inr (t, known) ↦ elim (Option-cases (get t (upper v))) [
    | inl unlisted ↦ absurd (
        (level-Suffices live disabled).0 (
          subst (λ s. level (required live) ≤ level s) {y = disabled}
            (ground (arith, known, unlisted, e)) le))
    | inr (s, listed) ↦ (
      t,
      s,
      sym (table-dimensions p d) ∙ known,
      listed,
      (level-Suffices live s).0 (
          subst (λ x. level (required live) ≤ level x) {y = s} (ground (arith, known, listed, e))
            le),
    )
  ]
]

Permits→Reaches :
    (p : TradeCapabilityPolicy) (live : Bool) (x : String × String)
    → Permits p live x
    → Reaches p live x
unfolding status
Permits→Reaches p live (d, v) (t, st, known, listed, enough) =
    (st, ground (arith, table-dimensions p d, known, listed), (level-Suffices live st).1 enough)

module _ (p : TradeCapabilityPolicy) (gate : Gate) (live : Bool) where
  check_dimension→Reaches :
      (d v : String) → check_dimension p gate live d v ≡ ok tt → Reaches p live (d, v)
  unfolding check_dimension
  check_dimension→Reaches d v h =
      let (st, known, passed) = >>=-eq-ok (status p d v) _ h in (st, known, ground arith)

  Reaches→check_dimension :
      (d v : String) → Reaches p live (d, v) → check_dimension p gate live d v ≡ ok tt
  unfolding check_dimension
  Reaches→check_dimension d v (st, e, le) = rw e (ground arith)

  check_dimensions→All :
      (dims : List (String × String))
      → check_dimensions p gate live dims ≡ ok tt
      → All (Reaches p live) dims
  unfolding check_dimensions
  check_dimensions→All [] h = tt
  check_dimensions→All ((d, v) ∷ dims) h =
      let (first, passed, later) = >>=-eq-ok (check_dimension p gate live d v) _ h in
      (check_dimension→Reaches d v passed, check_dimensions→All dims later)

  All→check_dimensions :
      (dims : List (String × String))
      → All (Reaches p live) dims
      → check_dimensions p gate live dims ≡ ok tt
  unfolding check_dimensions
  All→check_dimensions [] h = refl
  All→check_dimensions ((d, v) ∷ dims) h =
      rw (Reaches→check_dimension d v h.0) (All→check_dimensions dims h.1)

  passes_iff :
      (symbol : Option String) (dims : List (String × String))
      → (check p gate live symbol dims ≡ ok tt)
        ↔ ((blocked p symbol ≡ false) × All (Reaches p live) dims)
  unfolding check
  passes_iff symbol dims = ground (arith, check_dimensions→All dims, All→check_dimensions dims)

  -- The check passes exactly when no symbol is given, or an empty one, or one whose capitals are not on
  -- the block list, and every dimension given is one of the six and its table lists the value, in
  -- capitals, with a status that suffices: approval required or production allowed, or paper only where
  -- trading is not live. A value that is not listed is refused.
  pub check_iff :
      (symbol : Option String) (dims : List (String × String))
      → (check p gate live symbol dims ≡ ok tt) ↔ (IsFree p symbol × All (Permits p live) dims)
  check_iff symbol dims = (
    λ passed.
        let (free, reach) = (passes_iff symbol dims).0 passed in
        (
          (blocked-IsFree p symbol).0 free,
          All-map (Reaches p live) (Permits p live) (Reaches→Permits p live) dims reach,
        ),
    λ (free, permitted). (passes_iff symbol dims).1 (
      (blocked-IsFree p symbol).1 free,
      All-map (Permits p live) (Reaches p live) (Permits→Reaches p live) dims permitted,
    ),
  )

  status-error : (d v : String) {e : PolicyError} → status p d v ≡ err e → e ≡ key_error
  unfolding status
  status-error d v h = elim (Option-cases (table p d)) [
    | inl unknown ↦ ground arith
    | inr (t, known) ↦ ground arith
  ]

  check_dimensions-gate :
      (dims : List (String × String)) {g : Gate} {d v : String} {st : CapabilityStatus}
      → check_dimensions p gate live dims ≡ err (violation g d v st)
      → (g ≡ gate) × (level st < level (required live))
  unfolding check_dimensions check_dimension
  check_dimensions-gate [] h = cc
  check_dimensions-gate ((d', v') ∷ dims) {g} {d} {v} {st} h =
      elim (Result-cases (status p d' v')) [
        | inl (st', known) ↦
            ground (arith, check_dimensions-gate dims {g = g} {d = d} {v = v} {st = st})
        | inr (e, unknown) ↦ ground (arith, status-error d' v' {e = e})
      ]

  -- A violation names the gate at which the check was made, and a status below what the mode
  -- requires.
  pub check-gate :
      (symbol : Option String) (dims : List (String × String)) {g : Gate} {d v : String}
      {st : CapabilityStatus}
      → check p gate live symbol dims ≡ err (violation g d v st)
      → (g ≡ gate) × (level st < level (required live))
  unfolding check
  check-gate symbol dims {g} {d} {v} {st} h =
      ground (arith, check_dimensions-gate dims {g = g} {d = d} {v = v} {st = st})

  -- `allows` answers yes exactly when the check passes.
  allows_iff :
      (symbol : Option String) (dims : List (String × String))
      → (allows p gate live symbol dims ≡ ok true) ↔ (check p gate live symbol dims ≡ ok tt)
  unfolding allows
  allows_iff symbol dims = elim (Result-cases (check p gate live symbol dims)) [
    | inl (_, passed) ↦ ground arith
    | inr (e, refused) ↦ ground arith
  ]

relaxed : (st : CapabilityStatus) → Suffices true st → Suffices false st
relaxed disabled h = h
relaxed research_only h = h
relaxed paper_only h = refl
relaxed approval_required h = tt
relaxed production_allowed h = tt

Permits-relax :
    (p : TradeCapabilityPolicy) (dims : List (String × String))
    → All (Permits p true) dims
    → All (Permits p false) dims
Permits-relax p [] h = tt
Permits-relax p ((d, v) ∷ dims) ((t, st, known, listed, high), rest) =
    ((t, st, known, listed, relaxed st high), Permits-relax p dims rest)

-- What is allowed in live trading is allowed in paper trading, at any gate.
live-paper :
    (p : TradeCapabilityPolicy) (gate gate' : Gate) (symbol : Option String)
    (dims : List (String × String))
    → check p gate true symbol dims ≡ ok tt
    → check p gate' false symbol dims ≡ ok tt
live-paper p gate gate' symbol dims h =
    let (free, permitted) = (check_iff p gate true symbol dims).0 h in
    (check_iff p gate' false symbol dims).1 (free, Permits-relax p dims permitted)
