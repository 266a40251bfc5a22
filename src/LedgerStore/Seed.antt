-- ===== src/LedgerStore/Seed.antt =====
-- The seeding of agent/ledger_store.py from a broker that has traded before: the ledger's equation
-- for settled cash, solved for the opening balance.
use investmentagent.Prelude.{
  ℕ, ◌≡◌, refl, sym, ap, ◌∙◌, false, none, List, [], ◌∷◌, arith, Result, ok, err, Result-cases,
  ◌>>=◌, inl, inr, Bool-cases,
}
use investmentagent.Prelude.Int.{ℤ, pos, ltb_ℤ, ◌+ℤ◌, ◌-ℤ◌, +ℤ_parts, -ℤ_parts, eq_of_parts}
use investmentagent.Prelude.Dict.{Dict}
use investmentagent.MarketCalendar.{Zone}
use investmentagent.Ledger.Records.{Fill}
use investmentagent.Ledger.{
  Ledger, LedgerError, is_buy, cash_notional, settle, settle_one, settles_by, settled_cash,
  adjusted, corrected,
}
use investmentagent.Ledger.Cash.{minus_first, plus_first, adjusted-plus, corrected-plus}
use investmentagent.LedgerStore.Commute.{map_ok}
use investmentagent.LedgerStore.Built.{Built}
use investmentagent.LedgerStore.Restart.{reopened, to_ledger-Built}
use investmentagent.LedgerStore.{
  LedgerStore, to_ledger, seed_opening_balance_from_broker, set_opening,
}

module _ (zone : Zone) (t_plus now : ℕ) where
  settle_one-plus :
      (a u : ℤ) (f : Fill)
      → settle_one zone t_plus now (a +ℤ u) f
        ≡ map_ok (λ t. t +ℤ u) (settle_one zone t_plus now a f)
  settle_one-plus a u f = elim (Bool-cases (is_buy f)) [
    | inl buying ↦ rw buying (ap ok (sym (minus_first a (cash_notional f.qty f.price) u)))
    | inr selling ↦ elim (Result-cases (settles_by zone t_plus now f)) [
      | inl (settled, e) ↦
          rw (selling, e) (ground (arith, plus_first a (cash_notional f.qty f.price) u))
      | inr (x, e) ↦ rw (selling, e) refl
    ]
  ]

  settle-plus :
      (a u : ℤ) (fs : List Fill)
      → settle zone t_plus now (a +ℤ u) fs ≡ map_ok (λ t. t +ℤ u) (settle zone t_plus now a fs)
  unfolding settle
  settle-plus a u [] = refl
  settle-plus a u (f ∷ fs) = elim (Result-cases (settle_one zone t_plus now a f)) [
    | inl (a', e) ↦ rw (settle_one-plus a u f, e) (settle-plus a' u fs)
    | inr (x, e) ↦ rw (settle_one-plus a u f, e) refl
  ]

zero_plus : (o : ℤ) → pos 0 +ℤ o ≡ o
zero_plus o = eq_of_parts (pos 0 +ℤ o) o (omega (arith, +ℤ_parts (pos 0) o))

plus_minus : (e b : ℤ) → e +ℤ (b -ℤ e) ≡ b
plus_minus e b = eq_of_parts (e +ℤ (b -ℤ e)) b (omega (arith, +ℤ_parts e (b -ℤ e), -ℤ_parts b e))

finish-plus :
    (l : Ledger) (o : ℤ) (r : Result LedgerError ℤ)
    → (map_ok (λ t. t +ℤ o) r >>= λ total.
        ok (corrected (adjusted total l.cash_adjustments) l.opening_balance_corrections))
      ≡ map_ok
          (λ t. t +ℤ o)
          (r >>= λ total.
            ok (corrected (adjusted total l.cash_adjustments) l.opening_balance_corrections))
finish-plus l o (err e) = refl
finish-plus l o (ok t) = ap ok (
    sym (
      corrected-plus (adjusted t l.cash_adjustments) o l.opening_balance_corrections
      ∙ ap (λ b. corrected b l.opening_balance_corrections) (adjusted-plus t o l.cash_adjustments)))

module _ (zone : Zone) (now : ℕ) where
  -- the opening balance is added to what the records bring
  settled_cash-reopened :
      (l : Ledger) (o : ℤ) (ps : Dict ℤ)
      → l.opening_settled_cash ≡ pos 0
      → settled_cash zone (reopened l o ps) now ≡ map_ok (λ t. t +ℤ o) (settled_cash zone l now)
  unfolding settled_cash
  settled_cash-reopened l o ps zeroed =
      ap
        (λ start. settle zone l.t_plus now start l.fills >>= λ total.
          ok (corrected (adjusted total l.cash_adjustments) l.opening_balance_corrections))
        (sym (zero_plus o) ∙ ap (λ z. z +ℤ o) (sym zeroed))
      ∙ ap
          (λ r. r >>= λ total.
            ok (corrected (adjusted total l.cash_adjustments) l.opening_balance_corrections))
          (settle-plus zone l.t_plus now l.opening_settled_cash o l.fills)
      ∙ finish-plus l o (settle zone l.t_plus now l.opening_settled_cash l.fills)

  seed-opening :
      (s s' : LedgerStore) (broker effect : ℤ)
      → s.opening ≡ none
      → settled_cash zone s.internal now ≡ ok effect
      → seed_opening_balance_from_broker zone s broker now ≡ ok s'
      → s' ≡ set_opening s (broker -ℤ effect) now
  unfolding seed_opening_balance_from_broker
  seed-opening s s' broker effect unseeded e h = ground (arith, e, unseeded, h)

  -- A store that was never seeded, whatever fills it holds, is seeded so that a restart agrees with the broker, as long as the opening balance does not come out negative: the ledger that comes back has every record of the store, and its settled cash at that instant is exactly what the broker reported.
  pub seed-to_ledger :
      (s s' : LedgerStore) (broker effect : ℤ)
      → Built s.internal
      → s.internal.opening_settled_cash ≡ pos 0
      → s.opening ≡ none
      → settled_cash zone s.internal now ≡ ok effect
      → ltb_ℤ (broker -ℤ effect) (pos 0) ≡ false
      → seed_opening_balance_from_broker zone s broker now ≡ ok s'
      → (to_ledger s' ≡ ok (reopened s.internal (broker -ℤ effect) s.opening_positions))
        × (settled_cash zone (reopened s.internal (broker -ℤ effect) s.opening_positions) now
            ≡ ok broker)
  seed-to_ledger s s' broker effect built zeroed unseeded e funded h =
      let done = seed-opening s s' broker effect unseeded e h in
      (
        ap to_ledger done
            ∙ to_ledger-Built (set_opening s (broker -ℤ effect) now) (broker -ℤ effect) built refl
                funded,
        settled_cash-reopened s.internal (broker -ℤ effect) s.opening_positions zeroed
            ∙ ap (map_ok (λ t. t +ℤ (broker -ℤ effect))) e
            ∙ ap ok (plus_minus effect broker),
      )
