-- ===== src/Simulator/Cash.antt =====
-- The money of agent/broker/simulator.py through any calls, and the one order of a client's id.
use investmentagent.Prelude.{
  ℕ, ◌+◌, String, ◌≡◌, refl, sym, ap, ◌∙◌, some, List, [], ◌∷◌, arith, filter, ok, Bool-cases,
  Option-cases, Result-cases, inl, inr,
}
use investmentagent.Prelude.Int.{ℤ, pos, ◌+ℤ◌, ◌-ℤ◌, ◌*ℤ◌, eq_of_parts, +ℤ_parts, -ℤ_parts}
use investmentagent.Prelude.Dict.{get, get-put_self}
use investmentagent.Prelude.Floats.{Floats}
use investmentagent.Audit.{Value}
use investmentagent.MarketCalendar.{Zone, settlement_instant}
use investmentagent.Broker.{StagedOrder, Adapter}
use investmentagent.Simulator.{
  placed, priced, rejected_order, filled_order, Simulator, SimulatedOrder, Ticket, new_simulator,
  set_price, settle_each, advance, due_by, is_buy, price_of, trade, place, remove,
}
use investmentagent.Simulator.Implementation.{
  verified_submit, submit_impl, cancel_impl, verification, ticket_of,
}

-- the cash is what has settled and what has not
abbrev pub IsBalanced : Simulator → Type 0
IsBalanced s = s.cash ≡ s.settled +ℤ s.unsettled

settled_now : (a u n : ℤ) → (a +ℤ n) +ℤ (u -ℤ n) ≡ a +ℤ u
settled_now a u n =
    eq_of_parts ((a +ℤ n) +ℤ (u -ℤ n)) (a +ℤ u)
      (omega (arith, +ℤ_parts a u, +ℤ_parts (a +ℤ n) (u -ℤ n), +ℤ_parts a n, -ℤ_parts u n))

bought : (a u n : ℤ) → (a +ℤ u) -ℤ n ≡ (a -ℤ n) +ℤ u
bought a u n =
    eq_of_parts ((a +ℤ u) -ℤ n) ((a -ℤ n) +ℤ u)
      (omega (arith, +ℤ_parts a u, +ℤ_parts (a -ℤ n) u, -ℤ_parts a n, -ℤ_parts (a +ℤ u) n))

sold_for : (a u n : ℤ) → (a +ℤ u) +ℤ n ≡ a +ℤ (u +ℤ n)
sold_for a u n =
    eq_of_parts ((a +ℤ u) +ℤ n) (a +ℤ (u +ℤ n))
      (omega (arith, +ℤ_parts a u, +ℤ_parts u n, +ℤ_parts a (u +ℤ n), +ℤ_parts (a +ℤ u) n))

starts : (cash : ℤ) → cash ≡ cash +ℤ pos 0
starts cash = eq_of_parts cash (cash +ℤ pos 0) (omega (arith, +ℤ_parts cash (pos 0)))

settle_each-IsBalanced :
    (due : List (ℕ × ℤ)) (s : Simulator) → IsBalanced s → IsBalanced (settle_each s due)
unfolding settle_each
settle_each-IsBalanced [] s h = h
settle_each-IsBalanced ((t, amount) ∷ due) s h =
    settle_each-IsBalanced due
      (record s {
        settled = s.settled +ℤ amount;
        unsettled = s.unsettled -ℤ amount;
        settlements = remove (t, amount) s.settlements;
      })
      (h ∙ sym (settled_now s.settled s.unsettled amount))

advance-IsBalanced : (s : Simulator) (delta : ℕ) → IsBalanced s → IsBalanced (advance s delta)
unfolding advance
advance-IsBalanced s delta h =
    settle_each-IsBalanced (filter (due_by (s.now + delta)) s.settlements)
      (record s { now = s.now + delta }) h

module _ (average : ℤ → ℤ → ℤ) (show : ℕ → String) (zone : Zone) where
  trade-IsBalanced :
      (s : Simulator) (t : Ticket) (price : ℤ)
      → IsBalanced s
      → IsBalanced (trade average show zone s t price).0
  unfolding trade
  trade-IsBalanced s t price h =
      let notional = t.qty *ℤ price in
      elim (Bool-cases (is_buy average show zone t)) [
        | inl buys ↦ ground (arith, buys, h, bought s.settled s.unsettled notional)
        | inr sells ↦ elim (Result-cases (settlement_instant zone s.now 1)) [
          | inl (at, known) ↦
              ground (arith, sells, known, h, sold_for s.settled s.unsettled notional)
          | inr (x, unknown) ↦
              ground (arith, sells, unknown, h, sold_for s.settled s.unsettled notional)
        ]
      ]

  place-IsBalanced :
      (s : Simulator) (t : Ticket) → IsBalanced s → IsBalanced (place average show zone s t).0
  unfolding place
  place-IsBalanced s t h = elim (Option-cases (get s.orders t.client_order_id)) [
    | inr (o, known) ↦ rw known h
    | inl new ↦ elim (Option-cases (price_of s t.symbol t.limit_price)) [
      | inl no_price ↦ rw new (rw no_price h)
      | inr (price, has_price) ↦ rw new (rw has_price (trade-IsBalanced s t price h))
    ]
  ]

  trade-entered :
      (s : Simulator) (t : Ticket) (price : ℤ) (o : SimulatedOrder)
      → (trade average show zone s t price).1 ≡ ok o
      → get (trade average show zone s t price).0.orders t.client_order_id ≡ some o
  unfolding trade
  trade-entered s t price o h =
      let notional = t.qty *ℤ price in
      let refused =
        get-put_self s.orders t.client_order_id (rejected_order average show zone s t) in
      let done =
        get-put_self s.orders t.client_order_id (filled_order average show zone s t price) in
      elim (Bool-cases (is_buy average show zone t)) [
        | inl buys ↦ ground (arith, buys, h, refused, done)
        | inr sells ↦ elim (Result-cases (settlement_instant zone s.now 1)) [
          | inl (at, known) ↦ ground (arith, sells, known, h, refused, done)
          | inr (x, unknown) ↦ ground (arith, sells, unknown, h, refused, done)
        ]
      ]

  place-entered :
      (s : Simulator) (t : Ticket) (o : SimulatedOrder)
      → (place average show zone s t).1 ≡ ok o
      → get (place average show zone s t).0.orders t.client_order_id ≡ some o
  unfolding place
  place-entered s t o h = elim (Option-cases (get s.orders t.client_order_id)) [
    | inr (p, known) ↦ ground (arith, known, h)
    | inl new ↦ elim (Option-cases (price_of s t.symbol t.limit_price)) [
      | inl no_price ↦ ground (
        arith,
        new,
        no_price,
        h,
        get-put_self s.orders t.client_order_id (rejected_order average show zone s t),
      )
      | inr (price, has_price) ↦ rw new (
          rw has_price (
            trade-entered s t price o (
              ap (λ q. (priced average show zone s t q).1) (sym has_price)
              ∙ ap (λ q. (placed average show zone s t q).1) (sym new)
              ∙ h)))
    ]
  ]

  -- an order that was entered is answered again
  place-again :
      (s : Simulator) (t u : Ticket) (o : SimulatedOrder)
      → (place average show zone s t).1 ≡ ok o
      → u.client_order_id ≡ t.client_order_id
      → place average show zone (place average show zone s t).0 u
        ≡ ((place average show zone s t).0, ok o)
  unfolding place
  place-again s t u o h same = rw same (rw (place-entered s t o h) refl)

module _ (fl : Floats) (to_decimal : fl.Float → ℤ) (mac : String → Value → String)
    (average : ℤ → ℤ → ℤ) (show : ℕ → String) (zone : Zone) (a : Adapter) where
  -- a call of the simulator that changes it
  pub data Call : Type 0 where
    pricing : String → ℤ → Call
    advancing : ℕ → Call
    submitting canceling : StagedOrder fl → Call

  unfoldable pub step : Call → Simulator → Simulator
  step (pricing symbol price) s = set_price s symbol price
  step (advancing delta) s = advance s delta
  step (submitting o) s = (submit_impl fl to_decimal mac average show zone a s o).0
  step (canceling o) s = (cancel_impl fl to_decimal mac average show zone a s o).0

  -- the simulator after the calls, exceptions being caught between them
  unfoldable pub run : List Call → Simulator → Simulator
  run [] s = s
  run (c ∷ cs) s = run cs (step c s)

  step-IsBalanced : (c : Call) (s : Simulator) → IsBalanced s → IsBalanced (step c s)
  unfolding step set_price submit_impl cancel_impl
  step-IsBalanced (pricing symbol price) s h = h
  step-IsBalanced (advancing delta) s h = advance-IsBalanced s delta h
  step-IsBalanced (submitting o) s h =
      elim (Result-cases (verification fl to_decimal mac average show zone a o)) [
        | inr (x, forged) ↦ rw (step, submit_impl, forged) h
        | inl (u, signed) ↦
            rw (step, submit_impl, signed)
              (place-IsBalanced average show zone s (ticket_of fl to_decimal a o) h)
      ]
  step-IsBalanced (canceling o) s h =
      elim (Result-cases (verification fl to_decimal mac average show zone a o)) [
        | inr (x, forged) ↦ rw (step, cancel_impl, forged) h
        | inl (u, signed) ↦ elim (Option-cases (get s.orders o.client_order_id)) [
          | inl unknown ↦ ground (arith, signed, unknown, h)
          | inr (p, known) ↦ ground (arith, signed, known, h)
        ]
      ]

  from : (cs : List Call) (s : Simulator) → IsBalanced s → IsBalanced (run cs s)
  unfolding run
  from [] s h = h
  from (c ∷ cs) s h = from cs (step c s) (step-IsBalanced c s h)

  -- After any sequence of price changes, of time, of submitted and of cancelled orders, exceptions
  -- included, the simulator's cash is the sum of its settled and of its unsettled cash.
  pub run-IsBalanced :
      (cash : ℤ) (now : ℕ) (cs : List Call) → IsBalanced (run cs (new_simulator cash now))
  run-IsBalanced cash now cs = from cs (new_simulator cash now) (starts cash)

  -- A second submission of an order's client id is answered with the order of the first one, a rejected
  -- one included, and changes nothing, whatever else the second order says, where both have the
  -- adapter's signature.
  pub submit_impl-again :
      (s : Simulator) (o p : StagedOrder fl) (answer : SimulatedOrder)
      → (submit_impl fl to_decimal mac average show zone a s o).1 ≡ ok answer
      → verification fl to_decimal mac average show zone a p ≡ ok tt
      → p.client_order_id ≡ o.client_order_id
      → submit_impl fl to_decimal mac average show zone a
          (submit_impl fl to_decimal mac average show zone a s o).0
          p
        ≡ ((submit_impl fl to_decimal mac average show zone a s o).0, ok answer)
  unfolding submit_impl
  submit_impl-again s o p answer h again same =
      elim (Result-cases (verification fl to_decimal mac average show zone a o)) [
        | inr (x, forged) ↦ absurd (ground (arith, forged, h))
        | inl (u, signed) ↦ rw again (
            rw signed (
              place-again average show zone s (ticket_of fl to_decimal a o)
                (ticket_of fl to_decimal a p) answer
                (ap (λ r. (verified_submit fl to_decimal mac average show zone a s o r).1)
                    (sym signed)
                  ∙ h)
                same))
      ]
