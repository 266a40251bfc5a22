-- ===== src/Simulator/Settling.antt =====
-- What `advance` of agent/broker/simulator.py settles and what it leaves pending.
use investmentagent.Prelude.{
  ℕ, ◌+◌, ◌≡◌, refl, sym, ap, ◌∙◌, Bool, true, false, not, List, [], ◌∷◌, ◌++◌, arith, filter,
  Bool-cases, inl, inr,
}
use investmentagent.Prelude.Int.{ℤ, pos, ◌+ℤ◌, ◌-ℤ◌, eq_of_parts, +ℤ_parts, -ℤ_parts}
use investmentagent.Simulator.{Simulator, settle_each, advance, due_by, remove}

-- the amounts of settlements together
abbrev pub total : List (ℕ × ℤ) → ℤ
total [] = pos 0
total ((t, amount) ∷ rest) = amount +ℤ total rest

pub add_assoc : (a b c : ℤ) → (a +ℤ b) +ℤ c ≡ a +ℤ (b +ℤ c)
add_assoc a b c =
    eq_of_parts ((a +ℤ b) +ℤ c) (a +ℤ (b +ℤ c))
      (omega (arith, +ℤ_parts a b, +ℤ_parts b c, +ℤ_parts a (b +ℤ c), +ℤ_parts (a +ℤ b) c))

pub add_comm : (a b : ℤ) → a +ℤ b ≡ b +ℤ a
add_comm a b = eq_of_parts (a +ℤ b) (b +ℤ a) (omega (arith, +ℤ_parts a b, +ℤ_parts b a))

pub add_zero : (a : ℤ) → a +ℤ pos 0 ≡ a
add_zero a = eq_of_parts (a +ℤ pos 0) a (omega (arith, +ℤ_parts a (pos 0)))

sub_sub : (a b c : ℤ) → (a -ℤ b) -ℤ c ≡ a -ℤ (b +ℤ c)
sub_sub a b c =
    eq_of_parts ((a -ℤ b) -ℤ c) (a -ℤ (b +ℤ c))
      (omega (arith, -ℤ_parts a b, +ℤ_parts b c, -ℤ_parts a (b +ℤ c), -ℤ_parts (a -ℤ b) c))

sub_zero : (a : ℤ) → a -ℤ pos 0 ≡ a
sub_zero a = eq_of_parts (a -ℤ pos 0) a (omega (arith, -ℤ_parts a (pos 0)))

pub total-append : (xs ys : List (ℕ × ℤ)) → total (xs ++ ys) ≡ total xs +ℤ total ys
total-append [] ys = sym (add_comm (pos 0) (total ys) ∙ add_zero (total ys))
total-append ((t, a) ∷ xs) ys =
    ap (λ n. a +ℤ n) (total-append xs ys) ∙ sym (add_assoc a (total xs) (total ys))

abbrev remove_all : List (ℕ × ℤ) → List (ℕ × ℤ) → List (ℕ × ℤ)
remove_all [] pending = pending
remove_all (x ∷ xs) pending = remove_all xs (remove x pending)

-- the loop over what is due, at once
settle_each-all :
    (due : List (ℕ × ℤ)) (s : Simulator)
    → settle_each s due ≡ record s {
      settled = s.settled +ℤ total due;
      unsettled = s.unsettled -ℤ total due;
      settlements = remove_all due s.settlements;
    }
unfolding settle_each
settle_each-all [] s =
    ap (λ n. record s { settled = n }) (sym (add_zero s.settled))
    ∙ ap (λ n. record s { settled = s.settled +ℤ pos 0; unsettled = n })
        (sym (sub_zero s.unsettled))
settle_each-all ((t, a) ∷ due) s =
    settle_each-all due (record s {
      settled = s.settled +ℤ a;
      unsettled = s.unsettled -ℤ a;
      settlements = remove (t, a) s.settlements;
    })
    ∙ ap
        (λ n. record s {
          settled = n;
          unsettled = (s.unsettled -ℤ a) -ℤ total due;
          settlements = remove_all due (remove (t, a) s.settlements);
        })
        (add_assoc s.settled a (total due))
    ∙ ap
        (λ n. record s {
          settled = s.settled +ℤ (a +ℤ total due);
          unsettled = n;
          settlements = remove_all due (remove (t, a) s.settlements);
        })
        (sub_sub s.unsettled a (total due))

module _ (now : ℕ) where
  abbrev is_pending : ℕ × ℤ → Bool
  is_pending x = not (due_by now x)

  remove-pending :
      (x y : ℕ × ℤ) (ys : List (ℕ × ℤ))
      → due_by now x ≡ true
      → due_by now y ≡ false
      → remove x (y ∷ ys) ≡ y ∷ remove x ys
  unfolding remove
  remove-pending (t, a) (u, b) ys h k = ground (arith, h, k)

  remove_all-pending :
      (xs : List (ℕ × ℤ)) (y : ℕ × ℤ) (ys : List (ℕ × ℤ))
      → due_by now y ≡ false
      → remove_all (filter (due_by now) xs) (y ∷ ys) ≡ y ∷ remove_all (filter (due_by now) xs) ys
  remove_all-pending [] y ys k = refl
  remove_all-pending (x ∷ xs) y ys k = elim (Bool-cases (due_by now x)) [
    | inr later ↦ rw later (remove_all-pending xs y ys k)
    | inl due ↦ rw due (
        ap (λ l. remove_all (filter (due_by now) xs) l) (remove-pending x y ys due k)
        ∙ remove_all-pending xs y (remove x ys) k)
  ]

  remove-first : (x : ℕ × ℤ) (xs : List (ℕ × ℤ)) → remove x (x ∷ xs) ≡ xs
  unfolding remove
  remove-first (t, a) xs = ground arith

  remove_all-due :
      (xs : List (ℕ × ℤ)) → remove_all (filter (due_by now) xs) xs ≡ filter is_pending xs
  remove_all-due [] = refl
  remove_all-due (x ∷ xs) = elim (Bool-cases (due_by now x)) [
    | inr later ↦ rw later (remove_all-pending xs x xs later ∙ ap (λ l. x ∷ l) (remove_all-due xs))
    | inl due ↦
        rw due
          (ap (λ l. remove_all (filter (due_by now) xs) l) (remove-first x xs) ∙ remove_all-due xs)
  ]

  total-parts :
      (xs : List (ℕ × ℤ))
      → total xs ≡ total (filter is_pending xs) +ℤ total (filter (due_by now) xs)
  total-parts [] = sym (add_zero (pos 0))
  total-parts ((t, a) ∷ xs) =
      let kept = total (filter is_pending xs) in
      let due = total (filter (due_by now) xs) in
      elim (Bool-cases (due_by now (t, a))) [
        | inr later ↦ rw later (ap (λ n. a +ℤ n) (total-parts xs) ∙ sym (add_assoc a kept due))
        | inl is_due ↦ rw is_due (
            ap (λ n. a +ℤ n) (total-parts xs)
            ∙ sym (add_assoc a kept due)
            ∙ ap (λ n. n +ℤ due) (add_comm a kept)
            ∙ add_assoc kept a due)
      ]

less : (kept due : ℤ) → (kept +ℤ due) -ℤ due ≡ kept
less kept due =
    eq_of_parts ((kept +ℤ due) -ℤ due) kept
      (omega (arith, +ℤ_parts kept due, -ℤ_parts (kept +ℤ due) due))

-- where the unsettled cash is what is pending, time leaves it so
pub advance-unsettled :
    (s : Simulator) (delta : ℕ)
    → s.unsettled ≡ total s.settlements
    → (advance s delta).unsettled ≡ total (advance s delta).settlements
unfolding advance
advance-unsettled s delta h =
    let now = s.now + delta in
    let due = filter (due_by now) s.settlements in
    rw (settle_each-all due (record s { now = now })) (
      ap (λ n. n -ℤ total due) (h ∙ total-parts now s.settlements)
      ∙ less (total (filter (λ x. not (due_by now x)) s.settlements)) (total due)
      ∙ ap total (sym (remove_all-due now s.settlements)))

-- time changes neither the cash nor the orders
pub advance-kept :
    (s : Simulator) (delta : ℕ)
    → ((advance s delta).cash ≡ s.cash) × ((advance s delta).orders ≡ s.orders)
unfolding advance
advance-kept s delta =
    let e =
      settle_each-all (filter (due_by (s.now + delta)) s.settlements)
        (record s { now = s.now + delta }) in
    (ap (λ (x : Simulator). x.cash) e, ap (λ (x : Simulator). x.orders) e)
