-- ===== src/Holding/Sellable.antt =====
-- What `sellable_qty` of agent/holding.py lets a normal exit sell.
use investmentagent.Prelude.{
  ℕ, ◌+◌, ◌≤◌, String, ◌≡◌, refl, Bool, true, false, List, [], ◌∷◌, arith, Member, filter, sum_by,
  inl, inr, All-Member, some, ok, ap, sym, ◌∙◌, ◌-◌,
}
use investmentagent.Prelude.TextOrder.{text_le_refl}
use investmentagent.LotSelection.{key_le, sort, disposal_order, alpaca_default_policy}
use investmentagent.LotSelection.Order.{IsSorted, sort-IsSorted, Member-sort, sum-sort}
use investmentagent.Holding.{Lot, open_lots, leading_qty, eligible, sellable_qty, blocked_qty}

-- no later than `b` in the broker's order
abbrev pub up_to : Lot → Lot → Bool
up_to b l = key_le (λ (l : Lot). l.lot_id) (λ (l : Lot). l.opened_at) l b

abbrev pub qty_of : Lot → ℕ
qty_of l = l.qty

abbrev ordered : List Lot → List Lot
ordered lots = sort (λ (l : Lot). l.lot_id) (λ (l : Lot). l.opened_at) lots

sum-filter_le : (p : Lot → Bool) (ls : List Lot) → sum_by qty_of (filter p ls) ≤ sum_by qty_of ls
sum-filter_le p [] = omega arith
sum-filter_le p (l ∷ ls) = ground (arith, sum-filter_le p ls)

leading_qty-le : (now : ℕ) (ls : List Lot) → leading_qty now ls ≤ sum_by qty_of ls
unfolding leading_qty
leading_qty-le now [] = omega arith
leading_qty-le now (l ∷ ls) = ground (arith, leading_qty-le now ls)

leading_qty_mono :
    (now now' : ℕ) (ls : List Lot) → now ≤ now' → leading_qty now ls ≤ leading_qty now' ls
unfolding leading_qty
leading_qty_mono now now' [] h = omega arith
leading_qty_mono now now' (l ∷ ls) h = ground (arith, leading_qty_mono now now' ls)

up_to_self : (b : Lot) → up_to b b ≡ true
up_to_self b = ground (arith, text_le_refl b.lot_id)

Member-qty : (b : Lot) (ls : List Lot) → Member b ls → b.qty ≤ sum_by qty_of (filter (up_to b) ls)
Member-qty b [] m = absurd m
Member-qty b (l ∷ ls) (inl e) = rw (← e, up_to_self b) (omega arith)
Member-qty b (l ∷ ls) (inr m) = ground (arith, Member-qty b ls m)

leading_qty-blocked :
    (now : ℕ) (b : Lot) (ls : List Lot)
    → IsSorted (λ (l : Lot). l.lot_id) (λ (l : Lot). l.opened_at) ls
    → Member b ls
    → eligible now b ≡ false
    → leading_qty now ls + b.qty ≤ sum_by qty_of (filter (up_to b) ls)
unfolding leading_qty
leading_qty-blocked now b [] s m h = absurd m
leading_qty-blocked now b (l ∷ ls) s (inl e) h = rw (← e, h, up_to_self b) (omega arith)
leading_qty-blocked now b (l ∷ ls) s (inr m) h =
    let before = All-Member _ ls b s.0 m in
    ground (arith, leading_qty-blocked now b ls s.1 m h, Member-qty b ls m)

leading_qty-eligible :
    (now : ℕ) (ls : List Lot) → leading_qty now ls ≤ sum_by qty_of (filter (eligible now) ls)
unfolding leading_qty
leading_qty-eligible now [] = omega arith
leading_qty-eligible now (l ∷ ls) = ground (arith, leading_qty-eligible now ls)

filter_all : (ls : List Lot) → filter (λ _. true) ls ≡ ls
filter_all [] = refl
filter_all (l ∷ ls) = rw (filter_all ls)

sum-ordered : (lots : List Lot) → sum_by qty_of (ordered lots) ≡ sum_by qty_of lots
sum-ordered lots =
    ap (sum_by qty_of) (sym (filter_all (ordered lots)))
    ∙ sum-sort _ _ qty_of (λ _. true) lots
    ∙ ap (sum_by qty_of) (filter_all lots)

module _ (lots : List Lot) (account_id symbol : String) (now : ℕ) where
  abbrev opened : List Lot
  opened = open_lots lots account_id (some symbol)

  -- An open lot of the symbol that is unsettled or still held blocks everything behind it in the
  -- broker's order: what may be sold fits into the lots strictly before it, that is, together with
  -- its own quantity into the lots up to it.
  pub ineligible_blocks :
      (b : Lot)
      → Member b opened
      → eligible now b ≡ false
      → (s : ℕ) × (sellable_qty alpaca_default_policy lots account_id symbol now ≡ ok s)
        × (s + b.qty ≤ sum_by qty_of (filter (up_to b) opened))
  unfolding sellable_qty disposal_order
  ineligible_blocks b m h = (
    leading_qty now (ordered opened),
    refl,
    rw (← sum-sort (λ (l : Lot). l.lot_id) (λ (l : Lot). l.opened_at) qty_of (up_to b) opened) (
        leading_qty-blocked now b (ordered opened) (sort-IsSorted _ _ opened)
          (Member-sort _ _ b opened m) h),
  )

  -- Sellable and blocked quantity add up to everything open for the symbol, and only settled lots
  -- past their minimum hold are ever sellable.
  pub sellable-blocked :
      (s b : ℕ) × (sellable_qty alpaca_default_policy lots account_id symbol now ≡ ok s)
      × (blocked_qty alpaca_default_policy lots account_id symbol now ≡ ok b)
      × (s + b ≡ sum_by qty_of opened)
      × (s ≤ sum_by qty_of (filter (eligible now) opened))
  unfolding sellable_qty blocked_qty disposal_order
  sellable-blocked =
      let total_le = leading_qty-le now (ordered opened) in
      (
        leading_qty now (ordered opened),
        sum_by qty_of opened - leading_qty now (ordered opened),
        refl,
        refl,
        omega (arith, sum-ordered opened, total_le),
        rw
            (← sum-sort (λ (l : Lot). l.lot_id) (λ (l : Lot). l.opened_at) qty_of (eligible now)
              opened)
            (leading_qty-eligible now (ordered opened)),
      )

  -- Time only releases: what may be sold now may be sold later, if no lot changes.
  pub sellable_mono :
      (now' : ℕ)
      → now ≤ now'
      → (s s' : ℕ) × (sellable_qty alpaca_default_policy lots account_id symbol now ≡ ok s)
        × (sellable_qty alpaca_default_policy lots account_id symbol now' ≡ ok s')
        × (s ≤ s')
  unfolding sellable_qty disposal_order
  sellable_mono now' h = (
    leading_qty now (ordered opened),
    leading_qty now' (ordered opened),
    refl,
    refl,
    leading_qty_mono now now' (ordered opened) h,
  )
