-- ===== src/Ledger/Soundness.antt =====
-- What the guards of `record_fill` in agent/ledger.py keep true of the fills: every fill is of the
-- account, BUY or SELL, and of a positive quantity; a lot is bought once and never sold beyond that.
use investmentagent.Prelude.{
  ℕ, suc, ◌≤◌, ◌<◌, String, ◌≡◌, refl, sym, ◌⊎◌, inl, inr, Bool, true, false, ◌||◌, some, List, [],
  ◌∷◌, ◌++◌, arith, eq_iff, str_eq, any, find, All, All-append, ok, Bool-cases, Option-cases,
  if◌then◌else◌,
}
use investmentagent.Prelude.Int.{pos, pos_part, neg_part, ◌+ℤ◌, ◌≤ℤ◌, +ℤ_parts, int_laws}
use investmentagent.Prelude.Text.{upper}
use investmentagent.Prelude.Dict.{get}
use investmentagent.Ledger.Records.{Fill}
use investmentagent.Ledger.{
  Ledger, is_buy, is_sell, buys_lot, sells_lot, sum_qty, record_fill, append_fill, check_buy,
  check_sell,
}

-- a fill that the account can have
abbrev pub Proper : String → Fill → Type 0
Proper account_id f =
    (f.account_id ≡ account_id) × (is_buy f || is_sell f ≡ true) × (neg_part f.qty < pos_part f.qty)

-- how often a lot was bought
unfoldable pub purchases : String → List Fill → ℕ
purchases lot_id [] = 0
purchases lot_id (f ∷ fs) =
    let rest = purchases lot_id fs in if buys_lot lot_id f then suc rest else rest

-- every lot is bought at most once, and not more of it is sold than was bought
abbrev pub Covered : List Fill → Type 0
Covered fs =
    (lot_id : String)
    → (purchases lot_id fs ≤ 1) × (sum_qty (sells_lot lot_id) fs ≤ℤ sum_qty (buys_lot lot_id) fs)

abbrev pub IsSound : Ledger → Type 0
IsSound l = All (Proper l.account_id) l.fills × Covered l.fills

sum_qty-append :
    (p : Fill → Bool) (fs : List Fill) (f : Fill)
    → sum_qty p (fs ++ f ∷ []) ≡ (if p f then sum_qty p fs +ℤ f.qty else sum_qty p fs)
unfolding sum_qty
sum_qty-append p [] f = grind int_laws
sum_qty-append p (g ∷ fs) f = grind (int_laws, sum_qty-append p fs f)

purchases-append :
    (lot_id : String) (fs : List Fill) (f : Fill)
    → purchases lot_id (fs ++ f ∷ [])
      ≡ (if buys_lot lot_id f then suc (purchases lot_id fs) else purchases lot_id fs)
unfolding purchases
purchases-append lot_id [] f = refl
purchases-append lot_id (g ∷ fs) f = ground (arith, purchases-append lot_id fs f)

purchases-any :
    (lot_id : String) (fs : List Fill) → any (buys_lot lot_id) fs ≡ false → purchases lot_id fs ≡ 0
unfolding purchases
purchases-any lot_id [] h = refl
purchases-any lot_id (f ∷ fs) h = ground (arith, h, purchases-any lot_id fs)

pub buy_not_sell : (f : Fill) → is_buy f ≡ true → is_sell f ≡ false
buy_not_sell f h = rw ((eq_iff (upper f.side) "BUY").0 h) refl

sum-positive :
    (account_id : String) (p : Fill → Bool) (fs : List Fill)
    → All (Proper account_id) fs
    → pos 0 ≤ℤ sum_qty p fs
unfolding sum_qty
sum-positive account_id p [] h = omega arith
sum-positive account_id p (f ∷ fs) h =
    ground (arith, h.0.2, sum-positive account_id p fs h.1, +ℤ_parts f.qty (sum_qty p fs))

first-sum :
    (account_id : String) (p : Fill → Bool) (fs : List Fill) (b : Fill)
    → All (Proper account_id) fs
    → find p fs ≡ some b
    → b.qty ≤ℤ sum_qty p fs
unfolding sum_qty
first-sum account_id p [] b h found = ground (arith, found)
first-sum account_id p (f ∷ fs) b h found = elim (Bool-cases (p f)) [
  | inl here ↦
      ground
        (arith, found, here, h.0.2, sum-positive account_id p fs h.1, +ℤ_parts f.qty (sum_qty p fs))
  | inr later ↦ ground (arith, later, found, first-sum account_id p fs b h.1)
]

-- what the checks of a call that appended the fill have found
abbrev pub Appended : Ledger → Fill → Type 0
Appended l f =
    Proper l.account_id f
    × ((is_buy f ≡ true) × (any (buys_lot f.lot_id) l.fills ≡ false)
        ⊎ (b : Fill) × (is_buy f ≡ false)
          × (find (buys_lot f.lot_id) l.fills ≡ some b)
          × (sum_qty (sells_lot f.lot_id) l.fills +ℤ f.qty ≤ℤ b.qty))

buy_checked :
    (l : Ledger) (f : Fill) → check_buy l f ≡ ok tt → any (buys_lot f.lot_id) l.fills ≡ false
buy_checked l f h = elim (Option-cases f.holding_policy_version) [
  | inl missing ↦ ground (arith, h, missing)
  | inr (v, named) ↦ ground (arith, h, named)
]

sell_checked :
    (l : Ledger) (f : Fill)
    → check_sell l f ≡ ok tt
    → (b : Fill) × (find (buys_lot f.lot_id) l.fills ≡ some b)
      × (sum_qty (sells_lot f.lot_id) l.fills +ℤ f.qty ≤ℤ b.qty)
sell_checked l f h = elim (Option-cases (find (buys_lot f.lot_id) l.fills)) [
  | inl missing ↦ absurd (ground (arith, h, missing))
  | inr (b, bought) ↦ (b, bought, ground (arith, h, bought))
]

pub record_fill-cases :
    (l l' : Ledger) (f : Fill)
    → record_fill l f ≡ ok l'
    → (l' ≡ l) ⊎ (l' ≡ append_fill l f) × Appended l f
unfolding record_fill
record_fill-cases l l' f h = elim (Option-cases (get l.fill_ids f.fill_id)) [
  | inr (existing, known) ↦ inl (ground (arith, h, known))
  | inl fresh ↦ elim (Bool-cases (is_buy f)) [
    | inl buying ↦ inr (
      ground (arith, h, fresh, buying),
      (proper, inl (buying, buy_checked l f (ground (arith, h, fresh, buying)))),
    )
    | inr selling ↦
        (let (b, found, room) = sell_checked l f (ground (arith, h, fresh, selling)) in
          inr (ground (arith, h, fresh, selling), (proper, inr (b, selling, found, room))))
  ]
]
  where
    proper : Proper l.account_id f
    proper = (
      ground (arith, h, eq_iff f.account_id l.account_id),
      ground (arith, h, eq_iff f.account_id l.account_id),
      ground (arith, h, eq_iff f.account_id l.account_id),
    )

module _ (l : Ledger) (f : Fill) (lot_id : String) where
  abbrev Fits : Type 0
  Fits =
      (purchases lot_id (l.fills ++ f ∷ []) ≤ 1)
      × (sum_qty (sells_lot lot_id) (l.fills ++ f ∷ [])
          ≤ℤ sum_qty (buys_lot lot_id) (l.fills ++ f ∷ []))

  -- the sums after the fill, for a fill of another lot, a BUY and a SELL
  other_fits : Covered l.fills → str_eq f.lot_id lot_id ≡ false → Fits
  other_fits covered other = ground (
    arith,
    other,
    covered lot_id,
    purchases-append lot_id l.fills f,
    sum_qty-append (sells_lot lot_id) l.fills f,
    sum_qty-append (buys_lot lot_id) l.fills f,
  )

  buy_fits :
      Covered l.fills
      → Proper l.account_id f
      → str_eq f.lot_id lot_id ≡ true
      → is_buy f ≡ true
      → any (buys_lot lot_id) l.fills ≡ false
      → Fits
  buy_fits covered proper same buying none_yet = ground (
    arith,
    same,
    buying,
    buy_not_sell f buying,
    proper.2,
    covered lot_id,
    purchases-any lot_id l.fills none_yet,
    purchases-append lot_id l.fills f,
    sum_qty-append (sells_lot lot_id) l.fills f,
    sum_qty-append (buys_lot lot_id) l.fills f,
    +ℤ_parts (sum_qty (buys_lot lot_id) l.fills) f.qty,
  )

  sell_fits :
      (b : Fill)
      → All (Proper l.account_id) l.fills
      → Covered l.fills
      → is_buy f ≡ false
      → find (buys_lot lot_id) l.fills ≡ some b
      → sum_qty (sells_lot lot_id) l.fills +ℤ f.qty ≤ℤ b.qty
      → Fits
  sell_fits b proper covered selling found room = ground (
    arith,
    selling,
    room,
    covered lot_id,
    first-sum l.account_id (buys_lot lot_id) l.fills b proper found,
    purchases-append lot_id l.fills f,
    sum_qty-append (sells_lot lot_id) l.fills f,
    sum_qty-append (buys_lot lot_id) l.fills f,
  )

  fits : IsSound l → Appended l f → Fits
  fits (proper, covered) (new, checked) = elim (Bool-cases (str_eq f.lot_id lot_id)) [
    | inr other ↦ other_fits covered other
    | inl same ↦ elim checked [
      | inl (buying, none_yet) ↦
          buy_fits covered new same buying (rw (sym ((eq_iff f.lot_id lot_id).0 same)) none_yet)
      | inr (b, selling, found, room) ↦
          (let lots_equal = (eq_iff f.lot_id lot_id).0 same in
            sell_fits b proper covered selling (rw (sym lots_equal) found)
              (rw (sym lots_equal) room))
    ]
  ]

append-IsSound : (l : Ledger) (f : Fill) → IsSound l → Appended l f → IsSound (append_fill l f)
append-IsSound l f sound appended = (
  All-append (Proper l.account_id) l.fills (f ∷ []) sound.0 (appended.0, tt),
  λ lot_id. fits l f lot_id sound appended,
)

-- Recording a fill keeps a sound record sound: a fill that is let through is of the account, of a
-- known side and of a positive quantity, buys a lot not bought before, or sells what is left of one.
pub record_fill-IsSound :
    (l l' : Ledger) (f : Fill) → IsSound l → record_fill l f ≡ ok l' → IsSound l'
record_fill-IsSound l l' f sound h = elim (record_fill-cases l l' f h) [
  | inl same ↦ rw same sound
  | inr (grown, checked) ↦ rw grown (append-IsSound l f sound checked)
]
