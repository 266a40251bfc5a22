-- ===== src/Quarantine/Tests.antt =====
-- Runs of agent/execution_quarantine.py: a purchase that was made by hand.
use investmentagent.Prelude.{◌≡◌, refl, none, some, List, [], ◌∷◌, ok}
use investmentagent.Prelude.Int.{pos}
use investmentagent.Prelude.Text.{upper}
use investmentagent.Prelude.Dict.{get, put}
use investmentagent.Quarantine.{
  Execution, Decision, QuarantineStore, ExecutionResolution, empty, quarantine, admit, reject,
  status, load_rows, resolution_of, record_of,
}
use investmentagent.Quarantine.Decisions.{Call, quarantining, admitting, rejecting, run, step}
use investmentagent.Quarantine.Replay.{unwritten, load_rows-decisions, run-permanent}

abbrev pub execution : Execution
execution = record {
  execution_id = "x1";
  account_id = "acct";
  client_order_id = "manual";
  symbol = "SPY";
  side = "buy";
  qty = pos 5;
  price = pos 100;
  cum_qty = pos 5;
  filled_at = 10;
}

abbrev decision : Decision
decision = record { decided_by = "operator"; decided_at = 20; notes = none }

-- an admission with a lot is refused, one with a policy is taken, and the rejection comes too late
abbrev calls : List Call
calls =
    quarantining execution "no policy" 11
    ∷ admitting "x1" decision (some "lot") none
    ∷ admitting "x1" decision none (some "v1")
    ∷ rejecting "x1" decision
    ∷ []

abbrev admission : ExecutionResolution
admission =
    resolution_of "x1" (record_of execution "no policy" 11) "ADMITTED" decision none (some "v1")

abbrev pub admitted_store : QuarantineStore
admitted_store = record {
  account_id = "acct";
  held = ("x1", record_of execution "no policy" 11) ∷ [];
  resolutions = ("x1", admission) ∷ [];
  rows = [];
}

decided : status (run calls (empty "acct")) "x1" ≡ some "ADMITTED"
unfolding run step quarantine admit reject status get put upper
decided = refl

load_rows-decisions_example :
    load_rows (empty "acct") (run calls (empty "acct")).rows
    ≡ ok (unwritten (run calls (empty "acct")))
load_rows-decisions_example = load_rows-decisions "acct" calls

found : get admitted_store.resolutions "x1" ≡ some admission
unfolding get
found = refl

run-permanent_example :
    get (run (rejecting "x1" decision ∷ []) admitted_store).resolutions "x1" ≡ some admission
run-permanent_example =
    run-permanent (rejecting "x1" decision ∷ []) admitted_store "x1" admission found
