-- ===== src/Reconciliation/Agreement.antt =====
-- What a reconciliation of agent/reconciliation.py that returns has established.
use investmentagent.Prelude.{
  String, ◌≡◌, refl, sym, ap, ◌∙◌, Option-cases, ◌↔◌, inl, inr, true, Option, none, some, List, [],
  ◌∷◌, map, arith, eq_iff, str_eq, all, Member, All, ok, Bool-cases,
}
use investmentagent.Prelude.Int.{ℤ, eq_of_parts}
use investmentagent.Prelude.Dict.{Dict, get}
use investmentagent.Reconciliation.{
  AccountSnapshot, Position, BrokerOrder, check_owners, by_symbol, covers, same_dict, is_in,
  same_qty, reconcile_settled_cash, reconcile_positions, reconcile_open_orders,
}

-- Settled cash reconciles exactly for a snapshot of the same account with the same amount.
pub reconcile_settled_cash_iff :
    (account_id : String) (cash : ℤ) (snapshot : AccountSnapshot)
    → (reconcile_settled_cash account_id cash snapshot ≡ ok tt)
      ↔ ((snapshot.account_id ≡ account_id) × (snapshot.settled_cash ≡ cash))
unfolding reconcile_settled_cash
reconcile_settled_cash_iff account_id cash snapshot = (
  λ passed. (
    ground (arith, passed, eq_iff snapshot.account_id account_id),
    eq_of_parts snapshot.settled_cash cash
        (ground (arith, passed, eq_iff snapshot.account_id account_id)),
  ),
  λ (own, equal). ground (arith, own, equal, eq_iff snapshot.account_id account_id),
)

module _ {A : Type 0} (owner : A → String) where
  check_owners_iff :
      (account_id : String) (xs : List A)
      → (check_owners owner account_id xs ≡ ok tt) ↔ All (λ x. owner x ≡ account_id) xs
  unfolding check_owners
  check_owners_iff account_id [] = (λ _. tt, λ _. refl)
  check_owners_iff account_id (x ∷ xs) = (
    λ passed. (
      ground (arith, passed, eq_iff (owner x) account_id),
      (check_owners_iff account_id xs).0 (ground (arith, passed, eq_iff (owner x) account_id)),
    ),
    λ (own, rest).
        ground (arith, own, (check_owners_iff account_id xs).1 rest, eq_iff (owner x) account_id),
  )

is_in_iff : (xs : List String) (x : String) → (is_in xs x ≡ true) ↔ Member x xs
is_in_iff [] x = (λ h. ground arith, λ h. absurd h)
is_in_iff (y ∷ xs) x = (
  λ h. elim (Bool-cases (str_eq x y)) [
    | inl same ↦ inl (ground (arith, same, eq_iff x y))
    | inr other ↦ inr ((is_in_iff xs x).0 (ground (arith, h, other)))
  ],
  λ h. elim h [
    | inl same ↦ ground (arith, same, eq_iff x y)
    | inr later ↦ ground (arith, (is_in_iff xs x).1 later)
  ],
)

abbrev pub SameSet : List String → List String → Type 0
SameSet xs ys = (x : String) → Member x xs ↔ Member x ys

all_in : (xs ys : List String) → all (is_in ys) xs ≡ true → (x : String) → Member x xs → Member x ys
all_in [] ys h x m = absurd m
all_in (z ∷ xs) ys h x (inl same) = (is_in_iff ys x).0 (ground (arith, h, same))
all_in (z ∷ xs) ys h x (inr later) = all_in xs ys (ground (arith, h)) x later

in_all :
    (xs ys : List String) → ((x : String) → Member x xs → Member x ys) → all (is_in ys) xs ≡ true
in_all [] ys h = refl
in_all (z ∷ xs) ys h =
    ground (arith, (is_in_iff ys z).1 (h z (inl refl)), in_all xs ys (λ x m. h x (inr m)))

abbrev order_owner : BrokerOrder → String
order_owner o = o.account_id

abbrev order_ids : List BrokerOrder → List String
order_ids orders = map (λ (o : BrokerOrder). o.client_order_id) orders

-- Open orders reconcile exactly when every broker order is of the account and the broker's ids and
-- the local ids are the same set.
pub reconcile_open_orders_iff :
    (account_id : String) (ids : List String) (orders : List BrokerOrder)
    → (reconcile_open_orders account_id ids orders ≡ ok tt) ↔ (
        All (λ (o : BrokerOrder). o.account_id ≡ account_id) orders
        × SameSet (map (λ (o : BrokerOrder). o.client_order_id) orders) ids)
unfolding reconcile_open_orders
reconcile_open_orders_iff account_id ids orders = (
  λ passed. (
    (check_owners_iff order_owner account_id orders).0 (owned passed),
    λ x. (
      all_in (order_ids orders) ids (first passed) x,
      all_in ids (order_ids orders) (second passed) x,
    ),
  ),
  λ (own, same). ground (
    arith,
    (check_owners_iff order_owner account_id orders).1 own,
    in_all (order_ids orders) ids (λ x. (same x).0),
    in_all ids (order_ids orders) (λ x. (same x).1),
  ),
)
  where
    owned :
        reconcile_open_orders account_id ids orders ≡ ok tt
        → check_owners order_owner account_id orders ≡ ok tt
    owned passed = ground (arith, passed)

    first :
        reconcile_open_orders account_id ids orders ≡ ok tt
        → all (is_in ids) (order_ids orders) ≡ true
    first passed = ground (arith, passed)

    second :
        reconcile_open_orders account_id ids orders ≡ ok tt
        → all (is_in (order_ids orders)) ids ≡ true
    second passed = ground (arith, passed)

same_qty_iff : (a b : Option ℤ) → (same_qty a b ≡ true) ↔ (a ≡ b)
same_qty_iff none none = (λ _. refl, λ _. refl)
same_qty_iff none (some b) = ground arith
same_qty_iff (some a) none = ground arith
same_qty_iff (some a) (some b) =
    (λ h. ap some (eq_of_parts a b (ground (arith, h))), λ h. ground (arith, h))

covers_at :
    (d e f : Dict ℤ) (k : String) (v : ℤ)
    → covers d e f ≡ true
    → get f k ≡ some v
    → get d k ≡ get e k
unfolding get
covers_at d e [] k v h g = absurd (ground arith)
covers_at d e ((j, w) ∷ f) k v h g = elim (Bool-cases (str_eq j k)) [
  | inl same ↦
      rw (sym ((eq_iff j k).0 same)) ((same_qty_iff (get d j) (get e j)).0 (ground (arith, h)))
  | inr other ↦ covers_at d e f k v (ground (arith, h)) (ground (arith, g, other))
]

covers_all : (d e f : Dict ℤ) → ((k : String) → get d k ≡ get e k) → covers d e f ≡ true
covers_all d e [] h = refl
covers_all d e ((j, w) ∷ f) h =
    ground (arith, (same_qty_iff (get d j) (get e j)).1 (h j), covers_all d e f h)

same_dict_iff : (d e : Dict ℤ) → (same_dict d e ≡ true) ↔ ((k : String) → get d k ≡ get e k)
same_dict_iff d e = (
  λ h k. elim (Option-cases (get d k)) [
    | inr (v, here) ↦ covers_at d e d k v (ground (arith, h)) here
    | inl missing ↦ elim (Option-cases (get e k)) [
      | inr (v, there) ↦ covers_at d e e k v (ground (arith, h)) there
      | inl absent ↦ missing ∙ sym absent
    ]
  ],
  λ h. ground (arith, covers_all d e d h, covers_all d e e h),
)

-- Positions reconcile exactly when every broker position is of the account and the two tables of
-- quantities have the same entry, or none, at every symbol.
pub reconcile_positions_iff :
    (account_id : String) (local : Dict ℤ) (positions : List Position)
    → (reconcile_positions account_id local positions ≡ ok tt) ↔ (
        All (λ (p : Position). p.account_id ≡ account_id) positions
        × ((symbol : String) → get (by_symbol [] positions) symbol ≡ get local symbol))
unfolding reconcile_positions
reconcile_positions_iff account_id local positions = (
  λ passed. (
    (check_owners_iff (λ (p : Position). p.account_id) account_id positions).0
        (ground (arith, passed)),
    (same_dict_iff (by_symbol [] positions) local).0 (ground (arith, passed)),
  ),
  λ (own, same). ground (
    arith,
    (check_owners_iff (λ (p : Position). p.account_id) account_id positions).1 own,
    (same_dict_iff (by_symbol [] positions) local).1 same,
  ),
)
