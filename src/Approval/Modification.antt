-- ===== src/Approval/Modification.antt =====
-- Modify-within-bounds of agent/approval.py.
use investmentagent.Prelude.{
  String, ◌≡◌, refl, ◌↔◌, true, false, Option, none, some, arith, str_eq, eq_iff, ok, if◌then◌else◌,
}
use investmentagent.Prelude.Text.{upper, same_text?_iff}
use investmentagent.Prelude.Floats.{Floats}
use investmentagent.Approval.{
  ApprovalToken, ModifiedOrder, verify_modification_within_bounds, same_order, limit_within,
}

module _ (fl : Floats) where
  open fl use {Float, lt, add, sub, literal}

  -- the limit price of a BUY is at most 1e-9 above the approved one, of any other side at most 1e-9
  -- below it; there is none where none was approved
  abbrev pub LimitWithin : String → Option Float → Option Float → Type 0
  LimitWithin side (some new) (some approved) =
      if str_eq (upper side) "BUY"
      then lt (add approved (literal 1 9)) new ≡ false
      else lt new (sub approved (literal 1 9)) ≡ false
  LimitWithin side none none = Unit
  LimitWithin side _ _ = ⊥

  limit_within_iff :
      (side : String) (new approved : Option Float)
      → (limit_within fl (str_eq (upper side) "BUY") new approved ≡ true)
        ↔ LimitWithin side new approved
  limit_within_iff side (some new) (some approved) = ground arith
  limit_within_iff side (some new) none = ground arith
  limit_within_iff side none (some approved) = ground arith
  limit_within_iff side none none = (λ _. tt, λ _. refl)

  same_order_iff :
      (tok : ApprovalToken fl) (o : ModifiedOrder fl)
      → (same_order fl tok o ≡ true) ↔ (
          (upper o.symbol ≡ upper tok.original_symbol)
          × (upper o.side ≡ upper tok.original_side)
          × (upper o.order_type ≡ upper tok.original_order_type)
          × (upper o.time_in_force ≡ upper tok.original_time_in_force)
          × (o.lot_id ≡ tok.original_lot_id))
  same_order_iff tok o = ground (
    arith,
    eq_iff (upper o.symbol) (upper tok.original_symbol),
    eq_iff (upper o.side) (upper tok.original_side),
    eq_iff (upper o.order_type) (upper tok.original_order_type),
    eq_iff (upper o.time_in_force) (upper tok.original_time_in_force),
    same_text?_iff o.lot_id tok.original_lot_id,
  )

  -- An order passes the check of its modifications under the token exactly if its symbol, side, order
  -- type and time in force are the approved ones up to case, its lot is the approved one, its quantity
  -- is not above the approved quantity plus 1e-9, and its limit price is there exactly when the approved
  -- one is, and then is not above the approved price plus 1e-9 for a BUY, and not below the approved
  -- price less 1e-9 for any other side. Within this tolerance the limit may move in favour of the trade.
  pub within_bounds_iff :
      (tok : ApprovalToken fl) (o : ModifiedOrder fl)
      → (verify_modification_within_bounds fl tok o ≡ ok tt) ↔ (
          (upper o.symbol ≡ upper tok.original_symbol)
          × (upper o.side ≡ upper tok.original_side)
          × (upper o.order_type ≡ upper tok.original_order_type)
          × (upper o.time_in_force ≡ upper tok.original_time_in_force)
          × (o.lot_id ≡ tok.original_lot_id)
          × (lt (add tok.original_qty (literal 1 9)) o.qty ≡ false)
          × LimitWithin o.side o.limit_price tok.original_limit_price)
  unfolding verify_modification_within_bounds
  within_bounds_iff tok o =
      ground (
        arith,
        same_order_iff tok o,
        limit_within_iff o.side o.limit_price tok.original_limit_price,
      )
