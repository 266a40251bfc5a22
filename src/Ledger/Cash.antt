-- ===== src/Ledger/Cash.antt =====
-- The cash derived in agent/ledger.py: no cash is lost between settled and unsettled.
use investmentagent.Prelude.{
  ℕ, String, ◌≡◌, refl, sym, ap, ◌∙◌, inl, inr, List, [], ◌∷◌, arith, All, ok, Result-cases,
  Bool-cases, if◌then◌else◌, ok-injective, >>=-eq-ok,
}
use investmentagent.Prelude.Int.{ℤ, pos, ◌+ℤ◌, ◌-ℤ◌, +ℤ_parts, -ℤ_parts, eq_of_parts}
use investmentagent.MarketCalendar.{Zone}
use investmentagent.Ledger.Records.{Fill, CashAdjustment, OpeningBalanceCorrection}
use investmentagent.Ledger.{
  Ledger, is_buy, cash_notional, settle, settle_one, await, await_one, settles_by, settled_cash,
  unsettled_cash, adjusted, corrected,
}
use investmentagent.Ledger.Soundness.{IsSound, Proper, buy_not_sell}

-- a starting amount less every purchase and plus every sale
unfoldable pub traded : ℤ → List Fill → ℤ
traded total [] = total
traded total (f ∷ fs) =
    traded
      (if is_buy f
        then total -ℤ cash_notional f.qty f.price
        else total +ℤ cash_notional f.qty f.price)
      fs

abbrev pub all_cash : Ledger → ℤ
all_cash l =
    corrected (adjusted (traded l.opening_settled_cash l.fills) l.cash_adjustments)
      l.opening_balance_corrections

pub minus_first : (a n u : ℤ) → (a -ℤ n) +ℤ u ≡ (a +ℤ u) -ℤ n
minus_first a n u =
    eq_of_parts ((a -ℤ n) +ℤ u) ((a +ℤ u) -ℤ n)
      (omega (arith, +ℤ_parts a u, +ℤ_parts (a -ℤ n) u, -ℤ_parts a n, -ℤ_parts (a +ℤ u) n))

pub plus_first : (a n u : ℤ) → (a +ℤ n) +ℤ u ≡ (a +ℤ u) +ℤ n
plus_first a n u =
    eq_of_parts ((a +ℤ n) +ℤ u) ((a +ℤ u) +ℤ n)
      (omega (arith, +ℤ_parts a u, +ℤ_parts (a +ℤ n) u, +ℤ_parts a n, +ℤ_parts (a +ℤ u) n))

plus_second : (a n u : ℤ) → a +ℤ (u +ℤ n) ≡ (a +ℤ u) +ℤ n
plus_second a n u =
    eq_of_parts (a +ℤ (u +ℤ n)) ((a +ℤ u) +ℤ n)
      (omega (arith, +ℤ_parts a u, +ℤ_parts u n, +ℤ_parts a (u +ℤ n), +ℤ_parts (a +ℤ u) n))

pub adjusted-plus : (a u : ℤ) (xs : List CashAdjustment) → adjusted a xs +ℤ u ≡ adjusted (a +ℤ u) xs
unfolding adjusted
adjusted-plus a u [] = refl
adjusted-plus a u (x ∷ xs) =
    adjusted-plus (a +ℤ x.amount) u xs ∙ ap (λ b. adjusted b xs) (plus_first a x.amount u)

pub corrected-plus :
    (a u : ℤ) (xs : List OpeningBalanceCorrection) → corrected a xs +ℤ u ≡ corrected (a +ℤ u) xs
unfolding corrected
corrected-plus a u [] = refl
corrected-plus a u (x ∷ xs) =
    corrected-plus (a +ℤ x.amount) u xs ∙ ap (λ b. corrected b xs) (plus_first a x.amount u)

module _ (zone : Zone) (t_plus now : ℕ) where
  abbrev after : ℤ → Fill → ℤ
  after total f =
      if is_buy f
      then total -ℤ cash_notional f.qty f.price
      else total +ℤ cash_notional f.qty f.price

  one_conserves :
      (account_id : String) (f : Fill) (a b a' b' : ℤ)
      → Proper account_id f
      → settle_one zone t_plus now a f ≡ ok a'
      → await_one zone t_plus now b f ≡ ok b'
      → a' +ℤ b' ≡ after (a +ℤ b) f
  one_conserves account_id f a b a' b' proper hs hu = elim (Bool-cases (is_buy f)) [
    | inl buying ↦ ground (
      arith,
      buying,
      buy_not_sell f buying,
      hs,
      hu,
      minus_first a (cash_notional f.qty f.price) b,
    )
    | inr selling ↦ elim (Result-cases (settles_by zone t_plus now f)) [
      | inr (e, failed) ↦ absurd (ground (arith, hs, selling, failed))
      | inl (settled, known) ↦ elim (Bool-cases settled) [
        | inl paid ↦ ground (
          arith,
          hs,
          hu,
          proper.1,
          selling,
          known,
          paid,
          plus_first a (cash_notional f.qty f.price) b,
        )
        | inr waiting ↦ ground (
          arith,
          hs,
          hu,
          proper.1,
          selling,
          known,
          waiting,
          plus_second a (cash_notional f.qty f.price) b,
        )
      ]
    ]
  ]

  settle-await :
      (account_id : String) (fs : List Fill) (a b s u : ℤ)
      → All (Proper account_id) fs
      → settle zone t_plus now a fs ≡ ok s
      → await zone t_plus now b fs ≡ ok u
      → s +ℤ u ≡ traded (a +ℤ b) fs
  unfolding settle await traded
  settle-await account_id [] a b s u proper hs hu = rw (ok-injective hs) (rw (ok-injective hu) refl)
  settle-await account_id (f ∷ fs) a b s u proper hs hu =
      (let (a', one, rest) =
          >>=-eq-ok (settle_one zone t_plus now a f) (λ m. settle zone t_plus now m fs) hs in
        let (b', one', rest') =
          >>=-eq-ok (await_one zone t_plus now b f) (λ m. await zone t_plus now m fs) hu in
        settle-await account_id fs a' b' s u proper.1 rest rest'
        ∙ ap (λ m. traded m fs) (one_conserves account_id f a b a' b' proper.0 one one'))

plus_zero : (a : ℤ) → a +ℤ pos 0 ≡ a
plus_zero a = eq_of_parts (a +ℤ pos 0) a (omega (arith, +ℤ_parts a (pos 0)))

-- In a sound ledger settled and unsettled cash add up, at any instant at which both are computed, to
-- the opening cash less every purchase, plus every sale, adjustment and correction.
pub settled-unsettled :
    (zone : Zone) (l : Ledger) (now : ℕ) (s u : ℤ)
    → IsSound l
    → settled_cash zone l now ≡ ok s
    → unsettled_cash zone l now ≡ ok u
    → s +ℤ u ≡ all_cash l
unfolding settled_cash unsettled_cash
settled-unsettled zone l now s u sound hs hu =
    (let (paid, settled, last) =
        >>=-eq-ok (settle zone l.t_plus now l.opening_settled_cash l.fills)
          (λ total.
            ok (corrected (adjusted total l.cash_adjustments) l.opening_balance_corrections))
          hs in
      ap (λ m. m +ℤ u) (sym (ok-injective last))
      ∙ corrected-plus (adjusted paid l.cash_adjustments) u l.opening_balance_corrections
      ∙ ap (λ m. corrected m l.opening_balance_corrections)
          (adjusted-plus paid u l.cash_adjustments
            ∙ ap (λ m. adjusted m l.cash_adjustments)
                (settle-await zone l.t_plus now l.account_id l.fills l.opening_settled_cash (pos 0)
                    paid u sound.0 settled hu
                  ∙ ap (λ m. traded m l.fills) (plus_zero l.opening_settled_cash))))
