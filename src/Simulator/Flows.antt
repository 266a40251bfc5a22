-- ===== src/Simulator/Flows.antt =====
-- What one order moves of the money of agent/broker/simulator.py.
use mathlib.Core.Path.{subst}
use investmentagent.Prelude.{
  ℕ, String, str_eq, ◌≡◌, ◌≢◌, refl, sym, ap, ◌∙◌, true, false, none, some, [], ◌∷◌, ◌&&◌, arith,
  ok, err, Bool-cases, Option-cases, Result-cases, inl, inr, if◌then◌else◌,
}
use investmentagent.Prelude.Int.{ℤ, pos, ◌+ℤ◌, ◌-ℤ◌, ◌*ℤ◌, ltb_ℤ, eq_of_parts, +ℤ_parts, -ℤ_parts}
use investmentagent.Prelude.Dict.{Dict, get, put, get-put}
use investmentagent.MarketCalendar.{Zone, CalendarError, settlement_instant}
use investmentagent.Simulator.{
  Simulator, SimulatedOrder, calendar, Ticket, is_open, is_buy, price_of, trade, place,
  filled_order, filled, rejected_order, rejected, buy, sell, sold, reduces, held_of,
}
use investmentagent.Simulator.Settling.{total, add_assoc, add_comm, add_zero, total-append}

-- what an order moved: a filled BUY costs its quantity at its price, another filled order earns it
abbrev pub flow : SimulatedOrder → ℤ
flow o =
    let amount = o.filled_qty *ℤ elim o.avg_fill_price [ none ↦ pos 0 | some p ↦ p ] in
    if str_eq o.status "filled"
    then if str_eq o.side "BUY" then pos 0 -ℤ amount else amount
    else pos 0

abbrev pub flows : Dict SimulatedOrder → ℤ
flows [] = pos 0
flows ((k, o) ∷ orders) = flow o +ℤ flows orders

flows-put :
    (d : Dict SimulatedOrder) (k : String) (o : SimulatedOrder)
    → get d k ≡ none
    → flows (put d k o) ≡ flows d +ℤ flow o
unfolding get put
flows-put [] k o new = add_comm (flow o) (pos 0)
flows-put ((j, p) ∷ d) k o new = elim (Bool-cases (str_eq j k)) [
  | inl here ↦ absurd (ground (arith, here, new))
  | inr elsewhere ↦ rw elsewhere (
      ap (λ n. flow p +ℤ n) (flows-put d k o (ground (arith, elsewhere, new)))
      ∙ sym (add_assoc (flow p) (flows d) (flow o)))
]

-- the cash is what the account was opened with and what its orders moved, the unsettled cash is what
-- is pending, and no order is open
pub record Conserves (opening : ℤ) (s : Simulator) : Type 0 where
  pub cash : s.cash ≡ opening +ℤ flows s.orders
  pub unsettled : s.unsettled ≡ total s.settlements
  pub none_open : (k : String) (o : SimulatedOrder) → get s.orders k ≡ some o → is_open o ≡ false

none_open-put :
    (d : Dict SimulatedOrder) (k : String) (o : SimulatedOrder)
    → is_open o ≡ false
    → ((j : String) (p : SimulatedOrder) → get d j ≡ some p → is_open p ≡ false)
    → (j : String) (p : SimulatedOrder) → get (put d k o) j ≡ some p
    → is_open p ≡ false
none_open-put d k o shut h j p found = elim (Bool-cases (str_eq k j)) [
  | inl same ↦
      let e : o ≡ p = ground (arith, get-put d k j o, same, found) in
      subst (λ x. is_open x ≡ false) e shut
  | inr other ↦ h j p (ground (arith, get-put d k j o, other, found))
]

enter-Conserves :
    (opening : ℤ) (s s' : Simulator) (k : String) (o : SimulatedOrder)
    → Conserves opening s
    → get s.orders k ≡ none
    → is_open o ≡ false
    → s'.orders ≡ put s.orders k o
    → s'.cash ≡ s.cash +ℤ flow o
    → s'.unsettled ≡ total s'.settlements
    → Conserves opening s'
enter-Conserves opening s s' k o h new shut entered moved pending = record {
  cash =
      moved
      ∙ ap (λ n. n +ℤ flow o) h.cash
      ∙ add_assoc opening (flows s.orders) (flow o)
      ∙ ap (λ n. opening +ℤ n) (sym (flows-put s.orders k o new))
      ∙ ap (λ d. opening +ℤ flows d) (sym entered);
  unsettled = pending;
  none_open =
      subst
        (λ (d : Dict SimulatedOrder).
          (j : String) (p : SimulatedOrder) → get d j ≡ some p → is_open p ≡ false)
        (sym entered) (none_open-put s.orders k o shut h.none_open);
}

spent : (a n : ℤ) → a -ℤ n ≡ a +ℤ (pos 0 -ℤ n)
spent a n =
    eq_of_parts (a -ℤ n) (a +ℤ (pos 0 -ℤ n))
      (omega (arith, -ℤ_parts a n, -ℤ_parts (pos 0) n, +ℤ_parts a (pos 0 -ℤ n)))

module _ (average : ℤ → ℤ → ℤ) (show : ℕ → String) (zone : Zone) (opening : ℤ) where
  reject-Conserves :
      (s : Simulator) (t : Ticket)
      → Conserves opening s
      → get s.orders t.client_order_id ≡ none
      → Conserves opening (rejected average show zone s t).0
  reject-Conserves s t h new =
      enter-Conserves opening s (rejected average show zone s t).0 t.client_order_id
        (rejected_order average show zone s t) h new refl refl (sym (add_zero s.cash)) h.unsettled

  buy-Conserves :
      (s : Simulator) (t : Ticket) (price : ℤ)
      → is_buy average show zone t ≡ true
      → Conserves opening s
      → get s.orders t.client_order_id ≡ none
      → Conserves opening
          (filled average show zone (buy average show zone s t (t.qty *ℤ price)) t price).0
  buy-Conserves s t price buys h new =
      enter-Conserves opening s
        (filled average show zone (buy average show zone s t (t.qty *ℤ price)) t price).0
        t.client_order_id
        (filled_order average show zone (buy average show zone s t (t.qty *ℤ price)) t price) h new
        refl refl (spent s.cash (t.qty *ℤ price) ∙ ap (λ n. s.cash +ℤ n) (rw buys refl)) h.unsettled

  sell-Conserves :
      (s : Simulator) (t : Ticket) (price : ℤ) (at : ℕ)
      → is_buy average show zone t ≡ false
      → Conserves opening s
      → get s.orders t.client_order_id ≡ none
      → Conserves opening
          (sold average show zone
            (sell average show zone s t (t.qty *ℤ price))
            t
            price
            (t.qty *ℤ price)
            (ok at)).0
  sell-Conserves s t price at sells h new =
      let notional = t.qty *ℤ price in
      enter-Conserves opening s
        (sold average show zone (sell average show zone s t notional) t price notional (ok at)).0
        t.client_order_id
        (filled_order average show zone (sell average show zone s t notional) t price) h new refl
        refl (ap (λ n. s.cash +ℤ n) (rw sells refl))
        (ap (λ n. n +ℤ notional) h.unsettled
          ∙ ap (λ n. total s.settlements +ℤ n) (sym (add_zero notional))
          ∙ sym (total-append s.settlements ((at, notional) ∷ [])))

  trade-Conserves :
      (s : Simulator) (t : Ticket) (price : ℤ)
      → Conserves opening s
      → get s.orders t.client_order_id ≡ none
      → ((x : CalendarError) → (trade average show zone s t price).1 ≢ err (calendar x))
      → Conserves opening (trade average show zone s t price).0
  unfolding trade
  trade-Conserves s t price h new answered =
      let notional = t.qty *ℤ price in
      let refused = reject-Conserves s t h new in
      elim (Bool-cases (is_buy average show zone t)) [
        | inl buys ↦ elim (Bool-cases (ltb_ℤ s.settled notional)) [
          | inl poor ↦ rw buys (rw poor refused)
          | inr rich ↦
              elim (Bool-cases
                (reduces average show zone t && ltb_ℤ (held_of s t.symbol).0 t.qty)) [
                  | inl short ↦ rw buys (rw rich (rw short refused))
                  | inr long ↦ rw buys (rw rich (rw long (buy-Conserves s t price buys h new)))
                ]
        ]
        | inr sells ↦
            elim (Bool-cases (reduces average show zone t && ltb_ℤ (held_of s t.symbol).0 t.qty)) [
              | inl short ↦ rw sells (rw short refused)
              | inr long ↦ elim (Result-cases (settlement_instant zone s.now 1)) [
                | inl (at, known) ↦
                    rw sells (rw long (rw known (sell-Conserves s t price at sells h new)))
                | inr (x, unknown) ↦ absurd (answered x (rw sells (rw long (rw unknown refl))))
              ]
            ]
      ]

  pub place-Conserves :
      (s : Simulator) (t : Ticket)
      → Conserves opening s
      → ((x : CalendarError) → (place average show zone s t).1 ≢ err (calendar x))
      → Conserves opening (place average show zone s t).0
  unfolding place
  place-Conserves s t h answered = elim (Option-cases (get s.orders t.client_order_id)) [
    | inr (o, known) ↦ rw known h
    | inl new ↦ elim (Option-cases (price_of s t.symbol t.limit_price)) [
      | inl no_price ↦ rw new (rw no_price (reject-Conserves s t h new))
      | inr (price, has_price) ↦ rw new (
          rw has_price
            (trade-Conserves s t price h new (λ x e. answered x (rw new (rw has_price e)))))
    ]
  ]
