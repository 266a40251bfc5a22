-- ===== src/DayTrade/Window.antt =====
-- The guard of agent/daytrade.py: what it lets through, and how it agrees with the broker.
use mathlib.Core.Path.{sym, ap, subst, ◌∙◌}
use investmentagent.Prelude.{
  ℕ, suc, ◌+◌, ◌<◌, String, ◌≡◌, ◌≢◌, refl, ◌↔◌, ◌⊎◌, inl, inr, true, Option, none, some, List, [],
  ◌∷◌, Member, filter, length, arith, ok, eq_iff, Bool-cases, Result-cases,
}
use investmentagent.MarketCalendar.{trading, trailing_sessions}
use investmentagent.MarketCalendar.Walk.{interval}
use investmentagent.MarketCalendar.Sessions.{trailing_sessions-IsWindow}
use investmentagent.DayTrade.{DayTradeGuard, in_window, count, would_breach, check, reconcile}

-- how many round trips have their session in the window
abbrev pub Counted : List ℕ → List (ℕ × String) → ℕ → Type 0
Counted window [] n = n ≡ 0
Counted window ((session, symbol) ∷ trips) n =
    Member session window × ((m : ℕ) × (n ≡ suc m) × Counted window trips m)
    ⊎ (¬ Member session window) × Counted window trips n

-- five sessions, which are all the trading days of an interval that ends at `as_of`
abbrev pub IsTrailingFive : ℕ → List ℕ → Type 0
IsTrailingFive as_of window =
    (lo k : ℕ) × (lo + k ≡ suc as_of)
    × (window ≡ filter trading (interval lo k))
    × (length window ≡ 5)

in_window-Member :
    (window : List ℕ) (session : ℕ) (symbol : String)
    → (in_window window (session, symbol) ≡ true) ↔ Member session window
in_window-Member [] session symbol = (λ h. ground (arith, h), λ h. absurd h)
in_window-Member (s ∷ window) session symbol =
    ground (arith, in_window-Member window session symbol)

filter-Counted :
    (window : List ℕ) (trips : List (ℕ × String))
    → Counted window trips (length (filter (in_window window) trips))
filter-Counted window [] = refl
filter-Counted window ((session, symbol) ∷ trips) =
    let inside = in_window-Member window session symbol in
    elim (Bool-cases (in_window window (session, symbol))) [
      | inl here ↦ rw here (inl (inside.0 here, (_, refl, filter-Counted window trips)))
      | inr elsewhere ↦
          rw elsewhere
            (inr (λ m. ground (arith, inside.1 m, elsewhere), filter-Counted window trips))
    ]

Counted-unique :
    (window : List ℕ) (trips : List (ℕ × String)) (n m : ℕ)
    → Counted window trips n
    → Counted window trips m
    → n ≡ m
Counted-unique window [] n m h k = h ∙ sym k
Counted-unique window ((session, symbol) ∷ trips) n m (inl (i, (a, e, h))) (inl (j, (b, d, k))) =
    e ∙ ap suc (Counted-unique window trips a b h k) ∙ sym d
Counted-unique window ((session, symbol) ∷ trips) n m (inl (i, h)) (inr (j, k)) = absurd (j i)
Counted-unique window ((session, symbol) ∷ trips) n m (inr (i, h)) (inl (j, k)) = absurd (i j)
Counted-unique window ((session, symbol) ∷ trips) n m (inr (i, h)) (inr (j, k)) =
    Counted-unique window trips n m h k

count-Counted :
    (g : DayTradeGuard) (as_of n : ℕ)
    → (count g as_of ≡ ok n) ↔ (
        (window : List ℕ) × (trailing_sessions as_of 5 ≡ ok window)
        × Counted window g.round_trips n)
unfolding count
count-Counted g as_of n = elim (Result-cases (trailing_sessions as_of 5)) [
  | inl (window, walked) ↦ (
    λ counted. (
      window,
      walked,
      subst (Counted window g.round_trips) (ground (arith, walked, counted))
          (filter-Counted window g.round_trips),
    ),
    λ (other, again, many).
        let same : other ≡ window = ground (arith, walked, again) in
        let e =
          Counted-unique window g.round_trips (length (filter (in_window window) g.round_trips)) n
            (filter-Counted window g.round_trips)
            (subst (λ v. Counted v g.round_trips n) same many) in
        ground (arith, walked, e),
  )
  | inr (x, failed) ↦ (
    λ counted. ground (arith, failed, counted),
    λ (other, again, many). ground (arith, failed, again),
  )
]

-- Outside the large margin account a day trade is let through exactly when the calendar covers the
-- trailing five sessions up to the day, which are the last five trading days, and the round trips whose
-- session is one of them are fewer than the limit.
pub day_trade_check_iff :
    (g : DayTradeGuard) (as_of : ℕ) (posture : String)
    → posture ≢ "MARGIN_OVER_25K"
    → (check g as_of posture ≡ ok tt) ↔ (
        (window : List ℕ) × (n : ℕ) × (trailing_sessions as_of 5 ≡ ok window)
        × IsTrailingFive as_of window
        × Counted window g.round_trips n
        × (n < g.max_per_5_sessions))
unfolding check would_breach
day_trade_check_iff g as_of posture h = elim (Result-cases (count g as_of)) [
  | inl (n, counted) ↦ (
    λ passed.
        let (window, walked, many) = (count-Counted g as_of n).0 counted in
        (
          window,
          n,
          walked,
          trailing_sessions-IsWindow as_of 5 walked,
          many,
          ground (arith, counted, passed, eq_iff posture "MARGIN_OVER_25K"),
        ),
    λ (window, m, walked, five, many, few).
        let again = (count-Counted g as_of m).1 (window, walked, many) in
        ground (arith, counted, again, few, eq_iff posture "MARGIN_OVER_25K"),
  )
  | inr (e, failed) ↦ (
    λ passed. ground (arith, failed, passed, eq_iff posture "MARGIN_OVER_25K"),
    λ (window, m, walked, five, many, few).
        let again = (count-Counted g as_of m).1 (window, walked, many) in
        ground (arith, failed, again),
  )
]

abbrev pub Agrees : DayTradeGuard → Option ℕ → ℕ → Type 0
Agrees g reported as_of =
    (count g as_of ≡ ok 0) × (reported ≡ none)
    ⊎ (n : ℕ) × (count g as_of ≡ ok n) × (reported ≡ some n)

counted_case :
    (g : DayTradeGuard) (account_id : String) (reported : Option ℕ) (as_of n : ℕ)
    → count g as_of ≡ ok n
    → (reconcile g account_id reported as_of ≡ ok tt)
      ↔ ((account_id ≡ g.account_id) × Agrees g reported as_of)
unfolding reconcile
counted_case g account_id none as_of n counted = (
  λ passed. (
    ground (arith, counted, passed, eq_iff account_id g.account_id),
    inl (ground (arith, counted, passed, eq_iff account_id g.account_id)),
  ),
  λ (own, agreed). ground (arith, counted, own, agreed, eq_iff account_id g.account_id),
)
counted_case g account_id (some m) as_of n counted = (
  λ passed. (
    ground (arith, counted, passed, eq_iff account_id g.account_id),
    inr (m, ground (arith, counted, passed, eq_iff account_id g.account_id), refl),
  ),
  λ (own, agreed). ground (arith, counted, own, agreed, eq_iff account_id g.account_id),
)

-- Reconciliation passes exactly for the guard's own account when the broker reports the local
-- count, or reports nothing and the local count is zero.
pub reconcile_iff :
    (g : DayTradeGuard) (account_id : String) (reported : Option ℕ) (as_of : ℕ)
    → (reconcile g account_id reported as_of ≡ ok tt)
      ↔ ((account_id ≡ g.account_id) × Agrees g reported as_of)
unfolding reconcile
reconcile_iff g account_id reported as_of = elim (Result-cases (count g as_of)) [
  | inl (n, counted) ↦ counted_case g account_id reported as_of n counted
  | inr (e, failed) ↦
      (λ passed. ground (arith, failed, passed), λ (own, agreed). ground (arith, failed, agreed))
]
