-- ===== src/Mode/Legal.antt =====
-- What the legal steps of agent/mode.py into paper trading and into live trading start from.
use investmentagent.Prelude.{
  String, ◌≡◌, ◌≢◌, sym, ap, ◌∙◌, ◌⊎◌, inl, inr, Bool, true, false, Option, none, some, arith,
  eq_iff, str_eq, ok, Result-cases, Bool-cases,
}
use investmentagent.Mode.{
  check_known, is_legal_step, assert_legal_startup, normalize_persisted, step_allowed,
}

known-cases :
    (m : String)
    → check_known m ≡ ok tt
    → (m ≡ "DISABLED")
      ⊎ (m ≡ "RESEARCH")
      ⊎ (m ≡ "PAPER")
      ⊎ (m ≡ "PRODUCTION_ACTIVE")
      ⊎ (m ≡ "PAUSED")
unfolding check_known
known-cases m h = elim (Bool-cases (str_eq "DISABLED" m)) [
  | inl is ↦ inl (sym ((eq_iff "DISABLED" m).0 is))
  | inr n0 ↦ elim (Bool-cases (str_eq "RESEARCH" m)) [
    | inl is ↦ inr (inl (sym ((eq_iff "RESEARCH" m).0 is)))
    | inr n1 ↦ elim (Bool-cases (str_eq "PAPER" m)) [
      | inl is ↦ inr (inr (inl (sym ((eq_iff "PAPER" m).0 is))))
      | inr n2 ↦ elim (Bool-cases (str_eq "PRODUCTION_ACTIVE" m)) [
        | inl is ↦ inr (inr (inr (inl (sym ((eq_iff "PRODUCTION_ACTIVE" m).0 is)))))
        | inr n3 ↦ elim (Bool-cases (str_eq "PAUSED" m)) [
          | inl is ↦ inr (inr (inr (inr (sym ((eq_iff "PAUSED" m).0 is)))))
          | inr n4 ↦ absurd (ground (arith, h, n0, n1, n2, n3, n4))
        ]
      ]
    ]
  ]
]

known :
    (p target : String) (from : Option String)
    → is_legal_step p target from ≡ ok true
    → check_known p ≡ ok tt
unfolding is_legal_step
known p target from h = elim (Result-cases (check_known p)) [
  | inl (u, fine) ↦ fine
  | inr (e, failed) ↦ absurd (ground (arith, h, failed))
]

legal_at :
    (p q target : String) (from : Option String)
    → p ≡ q
    → is_legal_step p target from ≡ ok true
    → is_legal_step q target from ≡ ok true
legal_at p q target from same h = ap (λ r. is_legal_step r target from) (sym same) ∙ h

disabled_to_paper : (from : Option String) → is_legal_step "DISABLED" "PAPER" from ≢ ok true
unfolding is_legal_step check_known step_allowed
disabled_to_paper none h = cc
disabled_to_paper (some m) h = ground (arith, h)

disabled_to_live :
    (from : Option String) → is_legal_step "DISABLED" "PRODUCTION_ACTIVE" from ≢ ok true
unfolding is_legal_step check_known step_allowed
disabled_to_live none h = cc
disabled_to_live (some m) h = ground (arith, h)

research_to_live :
    (from : Option String) → is_legal_step "RESEARCH" "PRODUCTION_ACTIVE" from ≢ ok true
unfolding is_legal_step check_known step_allowed
research_to_live none h = cc
research_to_live (some m) h = ground (arith, h)

resumed_paper :
    (from : Option String) → is_legal_step "PAUSED" "PAPER" from ≡ ok true → from ≡ some "PAPER"
unfolding is_legal_step check_known step_allowed
resumed_paper none h = absurd (ground (arith, h))
resumed_paper (some m) h = ground (arith, h, eq_iff "PAPER" m)

resumed_live :
    (from : Option String)
    → is_legal_step "PAUSED" "PRODUCTION_ACTIVE" from ≡ ok true
    → from ≡ some "PRODUCTION_ACTIVE"
unfolding is_legal_step check_known step_allowed
resumed_live none h = absurd (ground (arith, h))
resumed_live (some m) h = ground (arith, h, eq_iff "PRODUCTION_ACTIVE" m)

-- what a legal start in a mode starts from
pub into_paper :
    (p : String) (from : Option String)
    → is_legal_step p "PAPER" from ≡ ok true
    → (p ≡ "PAPER")
      ⊎ (p ≡ "PAUSED") × (from ≡ some "PAPER")
      ⊎ (p ≡ "RESEARCH")
      ⊎ (p ≡ "PRODUCTION_ACTIVE")
into_paper p from h = elim (known-cases p (known p "PAPER" from h)) [
  | inl disabled ↦ absurd (disabled_to_paper from (legal_at p "DISABLED" "PAPER" from disabled h))
  | inr (inl research) ↦ inr (inr (inl research))
  | inr (inr (inl paper)) ↦ inl paper
  | inr (inr (inr (inl live))) ↦ inr (inr (inr live))
  | inr (inr (inr (inr paused))) ↦
      inr (inl (paused, resumed_paper from (legal_at p "PAUSED" "PAPER" from paused h)))
]

pub into_live :
    (p : String) (from : Option String)
    → is_legal_step p "PRODUCTION_ACTIVE" from ≡ ok true
    → (p ≡ "PRODUCTION_ACTIVE") ⊎ (p ≡ "PAUSED") × (from ≡ some "PRODUCTION_ACTIVE") ⊎ (p ≡ "PAPER")
into_live p from h = elim (known-cases p (known p "PRODUCTION_ACTIVE" from h)) [
  | inl disabled ↦
      absurd (disabled_to_live from (legal_at p "DISABLED" "PRODUCTION_ACTIVE" from disabled h))
  | inr (inl research) ↦
      absurd (research_to_live from (legal_at p "RESEARCH" "PRODUCTION_ACTIVE" from research h))
  | inr (inr (inl paper)) ↦ inr (inr paper)
  | inr (inr (inr (inl live))) ↦ inl live
  | inr (inr (inr (inr paused))) ↦
      inr (inl (paused, resumed_live from (legal_at p "PAUSED" "PRODUCTION_ACTIVE" from paused h)))
]

-- a start that passes takes a legal step, and a confirmed one where that is asked for
pub startup-legal :
    (persisted from : Option String) (target : String) (confirmed : Bool)
    → assert_legal_startup persisted target confirmed from ≡ ok tt
    → is_legal_step (normalize_persisted persisted) target from ≡ ok true
unfolding assert_legal_startup check_known
startup-legal persisted from target confirmed h =
    elim (Result-cases (is_legal_step (normalize_persisted persisted) target from)) [
      | inl (true, legal) ↦ legal
      | inl (false, illegal) ↦ absurd (ground (arith, h, illegal))
      | inr (e, failed) ↦ absurd (ground (arith, h, failed))
    ]
