-- ===== src/LotSelection/Order.antt =====
-- The disposal order of agent/lot_selection.py: a sorted rearrangement of the lots.
use investmentagent.Prelude.{
  ℕ, String, ◌≡◌, refl, Bool, true, false, List, [], ◌∷◌, arith, All, Member, filter, sum_by, ◌⊎◌,
  inl, inr, Bool-cases, Result, ok, err,
}
use investmentagent.Prelude.TextOrder.{text_le-total, text_le_trans}
use investmentagent.LotSelection.{
  key_le, insert, sort, LotSelectionMethod, broker_fifo, LotSelectionError,
  unsupported_lot_selection_policy,
}

module _ {A : Type 0} (lot_id : A → String) (opened_at : A → ℕ) where
  abbrev le : A → A → Bool
  le = key_le lot_id opened_at

  pub key_le-total : (a b : A) → le a b ≡ false → le b a ≡ true
  key_le-total a b h = ground (arith, text_le-total (lot_id a) (lot_id b))

  pub key_le_trans : (a b c : A) → le a b ≡ true → le b c ≡ true → le a c ≡ true
  key_le_trans a b c h k = ground (arith, text_le_trans (lot_id a) (lot_id b) (lot_id c))

  abbrev pub IsSorted : List A → Type 0
  IsSorted [] = Unit
  IsSorted (x ∷ xs) = All (λ y. le x y ≡ true) xs × IsSorted xs

  All-insert :
      (P : A → Type 0) (x : A) (xs : List A) → P x → All P xs → All P (insert lot_id opened_at x xs)
  unfolding insert
  All-insert P x [] h k = (h, tt)
  All-insert P x (y ∷ ys) h k = elim (Bool-cases (le x y)) [
    | inl before ↦ rw before (h, k)
    | inr after ↦ rw after (k.0, All-insert P x ys h k.1)
  ]

  All-le :
      (x y : A) (ys : List A)
      → le x y ≡ true
      → All (λ z. le y z ≡ true) ys
      → All (λ z. le x z ≡ true) ys
  All-le x y [] h k = tt
  All-le x y (z ∷ ys) h k = (key_le_trans x y z h k.0, All-le x y ys h k.1)

  insert-IsSorted : (x : A) (xs : List A) → IsSorted xs → IsSorted (insert lot_id opened_at x xs)
  unfolding insert
  insert-IsSorted x [] h = (tt, tt)
  insert-IsSorted x (y ∷ ys) h = elim (Bool-cases (le x y)) [
    | inl before ↦ rw before ((before, All-le x y ys before h.0), h)
    | inr after ↦ rw after (
      All-insert (λ z. le y z ≡ true) x ys (key_le-total x y after) h.0,
      insert-IsSorted x ys h.1,
    )
  ]

  pub sort-IsSorted : (xs : List A) → IsSorted (sort lot_id opened_at xs)
  unfolding sort
  sort-IsSorted [] = tt
  sort-IsSorted (x ∷ xs) = insert-IsSorted x (sort lot_id opened_at xs) (sort-IsSorted xs)

  Member-insert :
      (a x : A) (xs : List A) → (a ≡ x) ⊎ Member a xs → Member a (insert lot_id opened_at x xs)
  unfolding insert
  Member-insert a x [] h = h
  Member-insert a x (y ∷ ys) h = elim (Bool-cases (le x y)) [
    | inl before ↦ rw before h
    | inr after ↦ rw after (ground (arith, Member-insert a x ys))
  ]

  pub Member-sort : (a : A) (xs : List A) → Member a xs → Member a (sort lot_id opened_at xs)
  unfolding sort
  Member-sort a [] h = h
  Member-sort a (x ∷ xs) (inl e) = Member-insert a x (sort lot_id opened_at xs) (inl e)
  Member-sort a (x ∷ xs) (inr m) =
      Member-insert a x (sort lot_id opened_at xs) (inr (Member-sort a xs m))

  sum-insert :
      (f : A → ℕ) (p : A → Bool) (x : A) (xs : List A)
      → sum_by f (filter p (insert lot_id opened_at x xs)) ≡ sum_by f (filter p (x ∷ xs))
  unfolding insert
  sum-insert f p x [] = refl
  sum-insert f p x (y ∷ ys) = elim (Bool-cases (le x y)) [
    | inl before ↦ rw before
    | inr after ↦ rw after (ground (arith, sum-insert f p x ys))
  ]

  -- sorting changes no sum over the elements that pass a test
  pub sum-sort :
      (f : A → ℕ) (p : A → Bool) (xs : List A)
      → sum_by f (filter p (sort lot_id opened_at xs)) ≡ sum_by f (filter p xs)
  unfolding sort
  sum-sort f p [] = refl
  sum-sort f p (x ∷ xs) =
      ground (arith, sum-insert f p x (sort lot_id opened_at xs), sum-sort f p xs)

  -- every sum over the lots that pass a test is the same
  abbrev pub SameLots : List A → List A → Type 0
  SameLots xs ys = (f : A → ℕ) (p : A → Bool) → sum_by f (filter p xs) ≡ sum_by f (filter p ys)

  abbrev pub Disposes : LotSelectionMethod → List A → Result LotSelectionError (List A) → Type 0
  Disposes broker_fifo lots (ok ordered) = IsSorted ordered × SameLots ordered lots
  Disposes broker_fifo lots (err e) = ⊥
  Disposes other lots r = r ≡ err unsupported_lot_selection_policy
