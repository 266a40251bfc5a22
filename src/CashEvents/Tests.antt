-- ===== src/CashEvents/Tests.antt =====
-- Runs of agent/cash_events.py: a CAT fee, the deposit that the account was opened with, and a dividend
-- that an operator admitted.
use investmentagent.Prelude.{String, ◌≡◌, refl, Option, none, some, List, [], ◌∷◌, ok, arith}
use investmentagent.Prelude.Int.{ℤ, pos, negsuc, ◌-ℤ◌}
use investmentagent.Prelude.Dict.{get, put}
use investmentagent.Audit.{Payload, append, assert_json_native}
use investmentagent.Ledger.{record_cash_adjustment}
use investmentagent.Ledger.Tests.{ledger}
use investmentagent.LedgerStore.{write_cash_adjustment}
use investmentagent.CashQuarantine.{
  AccountActivity, CashQuarantineStore, Refusal, empty, quarantine, status, resolution_for,
  refuse_admission_reason,
}
use investmentagent.CashEvents.{
  CashSyncWorld, cash_adjustment_for, sync_cash_events, sync_each, turn, plan, first_action,
  is_auto_admittable_cat_fee, disqualifying_reason,
}
use investmentagent.CashEvents.Booking.{Booked}
use investmentagent.CashEvents.Turns.{Covers}
use investmentagent.CashEvents.Admission.{sync_cash_events-Booked}

abbrev digest : Payload → String → String
digest payload previous = "digest"

abbrev show_amount : ℤ → String
show_amount n = "amount"

abbrev explain : Option Refusal → AccountActivity → String
explain r act = act.description

abbrev cat_fee : AccountActivity
cat_fee = record {
  activity_id = "c1";
  account_id = "acct";
  activity_type = "FEE";
  activity_sub_type = some "CAT";
  net_amount = negsuc 9;
  date = 20;
  created_at = some 150;
  symbol = none;
  description = "CAT fee";
}

abbrev deposit : AccountActivity
deposit = record cat_fee {
  activity_id = "c2";
  activity_type = "JNLC";
  activity_sub_type = none;
  net_amount = pos 500;
  created_at = some 90;
  description = "deposit";
}

abbrev dividend : AccountActivity
dividend = record cat_fee {
  activity_id = "c3";
  activity_type = "DIV";
  activity_sub_type = none;
  net_amount = pos 3;
  symbol = some "SPY";
  description = "dividend";
}

abbrev decided : CashQuarantineStore
decided = record (empty "acct") {
  held = ("c3", record { activity = dividend; reason = "dividend"; quarantined_at = 160 }) ∷ [];
  resolutions =
      (
        "c3",
        record {
          activity_id = "c3";
          account_id = "acct";
          decision = "ADMITTED";
          decided_by = "operator";
          decided_at = 170;
          notes = none;
        },
      )
      ∷ [];
}

abbrev world : CashSyncWorld
world = record {
  ledger = record {
    internal = record ledger { cash_adjustments = []; cash_adjustment_ids = [] };
    opening = some (pos 500);
    opening_established_at = some 100;
    opening_positions = [];
    rows = [];
  };
  quarantined = decided;
  log = [];
}

abbrev reported : List AccountActivity
reported =
    cat_fee
    ∷ deposit
    ∷ record cat_fee { activity_id = "c4"; net_amount = negsuc 99 }
    ∷ dividend
    ∷ []

abbrev synced : CashSyncWorld
synced = (sync_cash_events digest show_amount explain (pos 20) 200 world reported).0

applied_two :
    sync_cash_events digest show_amount explain (pos 20) 200 world reported
    ≡ (synced, ok (cash_adjustment_for cat_fee ∷ cash_adjustment_for dividend ∷ []))
unfolding sync_cash_events sync_each turn plan first_action is_auto_admittable_cat_fee
    disqualifying_reason refuse_admission_reason quarantine status resolution_for
    write_cash_adjustment record_cash_adjustment append assert_json_native get put ◌-ℤ◌
applied_two = refl

held_two :
    (status synced.quarantined "c2" ≡ some "PENDING")
    × (status synced.quarantined "c4" ≡ some "PENDING")
unfolding sync_cash_events sync_each turn plan first_action is_auto_admittable_cat_fee
    disqualifying_reason refuse_admission_reason quarantine status resolution_for
    write_cash_adjustment record_cash_adjustment append assert_json_native get put ◌-ℤ◌
held_two = (refl, refl)

nothing_known : Covers [] world.ledger.internal
unfolding get
nothing_known i a h = ground (arith, h)

sync_cash_events-Booked_example :
    Booked digest show_amount explain
      (pos 20)
      200
      (some 100)
      decided
      "acct"
      reported
      world
      (sync_cash_events digest show_amount explain (pos 20) 200 world reported)
sync_cash_events-Booked_example =
    sync_cash_events-Booked digest show_amount explain (pos 20) 200 world reported nothing_known
