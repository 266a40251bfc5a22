-- ===== src/CashEvents/Plan.antt =====
-- When one turn of the loop of agent/cash_events.py decides to apply a cash movement.
use investmentagent.Prelude.{
  ℕ, ◌<◌, ◌≤◌, String, ◌≡◌, ◌≢◌, refl, sym, ap, ◌∙◌, true, false, any, str_eq, Option, none, some,
  List, arith, is_some, eq_iff, ok, Bool-cases, Option-cases, inl, inr, ◌⊎◌,
}
use investmentagent.Prelude.Text.{same_text?_iff}
use investmentagent.Prelude.Int.{ℤ, pos, neg_part, ltb_ℤ, ◌-ℤ◌, ◌≤ℤ◌}
use investmentagent.Prelude.Dict.{get}
use investmentagent.CashQuarantine.{
  AccountActivity, CashEventResolution, CashQuarantineStore, refuse_admission_reason, quarantine,
  resolution_for, status,
}
use investmentagent.CashEvents.{
  Action, admit, auto_admit, exceeds, is_auto_admittable_cat_fee, first_action, plan,
}

-- after the instant at which the opening balance was established
abbrev pub After : Option ℕ → ℕ → Type 0
After none created_at = Unit
After (some established_at) created_at = established_at < created_at

-- an operator had admitted the activity
abbrev pub Admitted : CashQuarantineStore → AccountActivity → Type 0
Admitted q act =
    (r : CashEventResolution) × (resolution_for q act.activity_id ≡ some r)
    × (r.decision ≡ "ADMITTED")

-- the one pattern that is admitted without an operator: a CAT fee, a debit of no more than the ceiling
abbrev pub AutoAdmittable : Option ℕ → ℤ → AccountActivity → Type 0
AutoAdmittable established_at ceiling act =
    (created_at : ℕ) × (act.activity_type ≡ "FEE")
    × (act.activity_sub_type ≡ some "CAT")
    × (1 ≤ neg_part act.net_amount)
    × ((pos 0 -ℤ act.net_amount) ≤ℤ ceiling)
    × (act.created_at ≡ some created_at)
    × After established_at created_at

abbrev pub MayApply : CashQuarantineStore → Option ℕ → ℤ → AccountActivity → Type 0
MayApply q established_at ceiling act = Admitted q act ⊎ AutoAdmittable established_at ceiling act

unrefused :
    (created established : Option ℕ)
    → refuse_admission_reason created established ≡ none
    → (t : ℕ) × (created ≡ some t) × After established t
unfolding refuse_admission_reason
unrefused none established h = absurd (ground (arith, h))
unrefused (some t) none h = (t, refl, tt)
unrefused (some t) (some e) h = (t, refl, ground (arith, h))

debit_within :
    (amount ceiling : ℤ)
    → ltb_ℤ amount (pos 0) ≡ true
    → exceeds amount ceiling ≡ false
    → (1 ≤ neg_part amount) × ((pos 0 -ℤ amount) ≤ℤ ceiling)
debit_within amount ceiling debit low = (ground (arith, debit), ground (arith, debit, low))

first-auto :
    (established_at : Option ℕ) (act : AccountActivity) (ceiling : ℤ)
    → first_action established_at act ceiling ≡ auto_admit
    → AutoAdmittable established_at ceiling act
unfolding first_action is_auto_admittable_cat_fee
first-auto established_at act ceiling h =
    elim (Option-cases (refuse_admission_reason act.created_at established_at)) [
      | inr (r, refused) ↦ absurd (ground (arith, refused, h))
      | inl free ↦
          let (t, created, after) = unrefused act.created_at established_at free in
          elim (Bool-cases (is_auto_admittable_cat_fee act ceiling)) [
            | inr other ↦ absurd (ground (arith, other, h))
            | inl fits ↦ (
              t,
              ground (arith, fits, eq_iff act.activity_type "FEE"),
              ground (arith, fits, same_text?_iff act.activity_sub_type (some "CAT")),
              (debit_within act.net_amount ceiling (ground (arith, fits)) (ground (arith, fits))).0,
              (debit_within act.net_amount ceiling (ground (arith, fits)) (ground (arith, fits))).1,
              created,
              after,
            )
          ]
    ]

first-admit :
    (established_at : Option ℕ) (act : AccountActivity) (ceiling : ℤ)
    → first_action established_at act ceiling ≢ admit
unfolding first_action
first-admit established_at act ceiling h =
    elim (Option-cases (refuse_admission_reason act.created_at established_at)) [
      | inr (r, refused) ↦ ground (arith, refused, h)
      | inl free ↦ ground (arith, free, h)
    ]

pub plan-MayApply :
    (a : String) (established_at : Option ℕ) (q : CashQuarantineStore) (ids : List String)
    (ceiling : ℤ) (act : AccountActivity) (todo : Action)
    → plan a established_at q ids ceiling act ≡ ok todo
    → (todo ≡ admit) ⊎ (todo ≡ auto_admit)
    → MayApply q established_at ceiling act
unfolding plan
plan-MayApply a established_at q ids ceiling act todo p which =
    elim (Option-cases (resolution_for q act.activity_id)) [
      | inr (r, decided) ↦ elim which [
        | inl is_admit ↦
            inl (r, decided, ground (arith, p, decided, is_admit, eq_iff r.decision "ADMITTED"))
        | inr is_auto ↦ absurd (ground (arith, p, decided, is_auto))
      ]
      | inl undecided ↦ elim (Bool-cases (is_some (status q act.activity_id))) [
        | inl waiting ↦ absurd (ground (arith, p, undecided, waiting, which))
        | inr new ↦ elim which [
          | inl is_admit ↦
              absurd (
                first-admit established_at act ceiling
                  (ground (arith, p, undecided, new, is_admit)))
          | inr is_auto ↦
              inr
                (first-auto established_at act ceiling (ground (arith, p, undecided, new, is_auto)))
        ]
      ]
    ]

-- an adjustment is made of an activity that is not known yet, of the ledger's own account
pub plan-fresh :
    (a : String) (established_at : Option ℕ) (q : CashQuarantineStore) (ids : List String)
    (ceiling : ℤ) (act : AccountActivity) (todo : Action)
    → plan a established_at q ids ceiling act ≡ ok todo
    → (todo ≡ admit) ⊎ (todo ≡ auto_admit)
    → (any (λ i. str_eq i act.activity_id) ids ≡ false) × (act.account_id ≡ a)
unfolding plan
plan-fresh a established_at q ids ceiling act todo p which =
    elim (Bool-cases (any (λ i. str_eq i act.activity_id) ids)) [
      | inl known ↦ absurd (ground (arith, p, known, which))
      | inr new ↦ (new, ground (arith, p, new, eq_iff act.account_id a))
    ]

pub MayApply-resolutions :
    (q q' : CashQuarantineStore) (established_at : Option ℕ) (ceiling : ℤ) (act : AccountActivity)
    → q'.resolutions ≡ q.resolutions
    → MayApply q' established_at ceiling act
    → MayApply q established_at ceiling act
unfolding resolution_for
MayApply-resolutions q q' established_at ceiling act same (inl (r, found, admitted)) =
    inl (r, ap (λ d. get d act.activity_id) (sym same) ∙ found, admitted)
MayApply-resolutions q q' established_at ceiling act same (inr fits) = inr fits

pub quarantine-resolutions :
    (q q' : CashQuarantineStore) (act : AccountActivity) (reason : String) (at : ℕ)
    → quarantine q act reason at ≡ ok q'
    → q'.resolutions ≡ q.resolutions
unfolding quarantine
quarantine-resolutions q q' act reason at h = ground (arith, h)
