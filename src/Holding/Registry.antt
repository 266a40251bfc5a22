-- ===== src/Holding/Registry.antt =====
-- The policy registry of agent/holding.py: a version keeps its meaning for ever.
use investmentagent.Prelude.{String, ◌≡◌, true, arith, ok, eq_iff, Option-cases, inl, inr}
use investmentagent.Prelude.Dict.{get, get-put}
use investmentagent.Holding.{HoldingPolicy, Registry, same_policy, register, get_policy}

same_policy→≡ : (p q : HoldingPolicy) → same_policy p q ≡ true → p ≡ q
same_policy→≡ p q h = ground (arith, eq_iff p.version q.version)

-- Whatever is registered later, a version that is known keeps its policy.
pub register-get_policy :
    (r r' : Registry) (p q : HoldingPolicy) (version : String)
    → register r p ≡ ok r'
    → get_policy r version ≡ ok q
    → get_policy r' version ≡ ok q
unfolding register get_policy
register-get_policy r r' p q version h k = elim (Option-cases (get r p.version)) [
  | inl new ↦ ground (arith, get-put r p.version version p, eq_iff p.version version)
  | inr (existing, old) ↦
      ground
        (arith, get-put r p.version version p, eq_iff p.version version, same_policy→≡ existing p)
]

-- A policy that was registered is found under its version.
pub register-get_policy_self :
    (r r' : Registry) (p : HoldingPolicy) → register r p ≡ ok r' → get_policy r' p.version ≡ ok p
unfolding register get_policy
register-get_policy_self r r' p h = elim (Option-cases (get r p.version)) [
  | inl new ↦ ground (arith, get-put r p.version p.version p, eq_iff p.version p.version)
  | inr (existing, old) ↦
      ground (arith, get-put r p.version p.version p, eq_iff p.version p.version)
]
