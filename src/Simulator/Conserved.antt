-- ===== src/Simulator/Conserved.antt =====
-- The money of agent/broker/simulator.py against its orders and its pending settlements.
use mathlib.Core.Path.{subst}
use investmentagent.Prelude.{
  ℕ, String, ◌≡◌, ◌≢◌, refl, sym, ap, ◌∙◌, false, some, List, [], ◌∷◌, arith, err, Option-cases,
  Result-cases, inl, inr,
}
use investmentagent.Prelude.Int.{ℤ, ◌+ℤ◌}
use investmentagent.Prelude.Dict.{Dict, get}
use investmentagent.Prelude.Floats.{Floats}
use investmentagent.Audit.{Value}
use investmentagent.MarketCalendar.{Zone, CalendarError}
use investmentagent.Broker.{Adapter}
use investmentagent.Simulator.{
  Simulator, SimulatedOrder, calendar, new_simulator, is_open, set_price,
}
use investmentagent.Simulator.Implementation.{submit_impl, cancel_impl, verification, ticket_of}
use investmentagent.Simulator.Cash.{
  Call, pricing, advancing, submitting, canceling, step, run, IsBalanced, run-IsBalanced,
}
use investmentagent.Simulator.Settling.{add_zero, advance-unsettled, advance-kept}
use investmentagent.Simulator.Flows.{flows, Conserves, place-Conserves}

module _ (fl : Floats) (to_decimal : fl.Float → ℤ) (mac : String → Value → String)
    (average : ℤ → ℤ → ℤ) (show : ℕ → String) (zone : Zone) (a : Adapter) where
  -- a submission does not raise the calendar's error
  abbrev pub Answered : Call fl to_decimal mac average show zone a → Simulator → Type 0
  Answered (submitting o) s =
      (x : CalendarError)
      → (submit_impl fl to_decimal mac average show zone a s o).1 ≢ err (calendar x)
  Answered _ s = Unit

  -- none of the calls does
  abbrev pub AllAnswered : List (Call fl to_decimal mac average show zone a) → Simulator → Type 0
  AllAnswered [] s = Unit
  AllAnswered (c ∷ cs) s =
      Answered c s × AllAnswered cs (step fl to_decimal mac average show zone a c s)

  module _ (opening : ℤ) where
    step-Conserves :
        (c : Call fl to_decimal mac average show zone a) (s : Simulator)
        → Answered c s
        → Conserves opening s
        → Conserves opening (step fl to_decimal mac average show zone a c s)
    unfolding step set_price submit_impl cancel_impl
    step-Conserves (pricing symbol price) s answered h = record {
      cash = h.cash;
      unsettled = h.unsettled;
      none_open = h.none_open;
    }
    step-Conserves (advancing delta) s answered h =
        let (same_cash, same_orders) = advance-kept s delta in
        record {
          cash = same_cash ∙ h.cash ∙ ap (λ d. opening +ℤ flows d) (sym same_orders);
          unsettled = advance-unsettled s delta h.unsettled;
          none_open =
              subst
                (λ (d : Dict SimulatedOrder).
                  (j : String) (p : SimulatedOrder) → get d j ≡ some p → is_open p ≡ false)
                (sym same_orders) h.none_open;
        }
    step-Conserves (submitting o) s answered h =
        elim (Result-cases (verification fl to_decimal mac average show zone a o)) [
          | inr (x, forged) ↦ rw (step, submit_impl, forged) h
          | inl (u, signed) ↦
              rw (step, submit_impl, signed)
                (place-Conserves average show zone opening s (ticket_of fl to_decimal a o) h
                  (λ x e. answered x (rw (submit_impl, signed) e)))
        ]
    step-Conserves (canceling o) s answered h =
        elim (Result-cases (verification fl to_decimal mac average show zone a o)) [
          | inr (x, forged) ↦ rw (step, cancel_impl, forged) h
          | inl (u, signed) ↦ elim (Option-cases (get s.orders o.client_order_id)) [
            | inl unknown ↦ ground (arith, signed, unknown, h)
            | inr (p, known) ↦
                rw (step, cancel_impl, signed)
                  (rw known (rw (h.none_open o.client_order_id p known) h))
          ]
        ]

    from :
        (cs : List (Call fl to_decimal mac average show zone a)) (s : Simulator)
        → AllAnswered cs s
        → Conserves opening s
        → Conserves opening (run fl to_decimal mac average show zone a cs s)
    unfolding run
    from [] s answered h = h
    from (c ∷ cs) s (first, later) h =
        from cs (step fl to_decimal mac average show zone a c s) later (step-Conserves c s first h)

  -- After any sequence of price changes, of time, of submitted and of cancelled orders in which no
  -- submission raises the calendar's error, the simulator's cash is the opening cash less what its
  -- filled BUY orders cost and plus what its other filled orders earned, each its quantity at its
  -- price; the unsettled cash is the amounts of the pending settlements together; the settled cash
  -- is the rest; and no order is open.
  pub run-Conserves :
      (cash : ℤ) (now : ℕ) (cs : List (Call fl to_decimal mac average show zone a))
      → AllAnswered cs (new_simulator cash now)
      → Conserves cash (run fl to_decimal mac average show zone a cs (new_simulator cash now))
        × IsBalanced (run fl to_decimal mac average show zone a cs (new_simulator cash now))
  unfolding get
  run-Conserves cash now cs answered = (
    from cash cs (new_simulator cash now) answered (record {
      cash = sym (add_zero cash);
      unsettled = refl;
      none_open = λ k o found. absurd (ground (arith, found));
    }),
    run-IsBalanced fl to_decimal mac average show zone a cash now cs,
  )
