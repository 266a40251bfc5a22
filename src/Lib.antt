-- ===== src/Lib.antt =====
-- The safety core of the investment agent (Python): an agent that analyses holdings, stages orders for
-- a person to approve, and keeps books that must agree with the broker's before it may trade.
--
-- The parts and how they interact. Each process runs `run_startup` (agent/startup.py) once: it reads
-- the history of modes (agent/mode_store.py), asks agent/mode.py whether the step to the target mode
-- is legal, compares the books of each account with the broker's answer (agent/daytrade.py and
-- agent/reconciliation.py), verifies the audit log (agent/audit.py), sweeps stale approval tokens
-- (agent/approval.py) and writes the mode. A check that refuses leaves the system in PAUSED. The
-- operator changes the mode by `_run_advance_mode` (scripts/run_agent.py). The books are those of
-- agent/ledger.py, which takes lots and holding policies from agent/holding.py, the broker's
-- disposal order from agent/lot_selection.py and settlement instants from agent/market_calendar.py.
-- An order passes the gates of agent/policy.py before it is shown for approval. A request for approval
-- and what became of it is kept by agent/approval_request_store.py, and agent/approval_bridge.py mints
-- a token of agent/approval.py for an approved one, which agent/broker/base.py spends when it submits
-- the order (agent/broker/simulator.py is the paper broker). What the broker executed is read by
-- agent/fill_sync.py: an execution becomes a fill of the ledger that agent/ledger_store.py keeps in a
-- file, or agent/execution_quarantine.py holds it until an operator decides. Other cash movements go
-- the same way through agent/cash_events.py and agent/cash_event_quarantine.py.
--
-- Which file models what:
--   Startup            agent/startup.py and `_run_advance_mode` of scripts/run_agent.py. A call is a
--                      function from the stores to the stores and a result (Startup.Steps), so that
--                      what was written before an exception stays written. Startup.Reconcile is the
--                      account loop. `Startup.run_startup` is cut in three definitions at its checks.
--   Mode               agent/mode.py; Mode.Store is agent/mode_store.py; Mode.Escalation has the steps
--                      of the ladder as a relation on histories.
--   Audit, Journal     agent/audit.py; the replay loop that agent/audit.py, agent/mode_store.py and
--                      agent/store.py share, with `json.loads` and the decoder of a row as parameters.
--   Facts              agent/store.py, in memory.
--   Ledger             agent/ledger.py; Ledger.Records has its dataclasses.
--   Reconciliation     agent/reconciliation.py, with the snapshots of agent/broker/base.py.
--   DayTrade           agent/daytrade.py.
--   MarketCalendar     agent/market_calendar.py.
--   Holding            agent/holding.py; LotSelection is agent/lot_selection.py.
--   Approval           agent/approval.py.
--   Policy             agent/policy.py.
--   Accounts           agent/accounts.py.
--   Requests           agent/approval_request_store.py; Requests.Replay is the loading of its file and
--                      Requests.Lifecycle the transitions of a request as a relation.
--   Bridge             agent/approval_bridge.py and `order_fingerprint` of agent/approval.py. Every
--                      exception comes before the first change: `record_token_minted` after `approve`
--                      asks only what was asked before it.
--   LedgerStore        agent/ledger_store.py. LedgerStore.History has sequences of its calls.
--   Quarantine         agent/execution_quarantine.py; Quarantine.Decisions has sequences of its calls.
--   FillSync           agent/fill_sync.py, `sync_fills`. FillSync.Plan is what one turn of its loop
--                      decides and FillSync.Turn what it writes.
--                      FillSync.Closing is `close_terminal_orders`.
--   CashQuarantine     agent/cash_event_quarantine.py; CashEvents is agent/cash_events.py, and
--                      CashEvents.Turns what one turn of its loop does; CashEvents.Booking adds the
--                      turns up.
--   Broker             agent/broker/base.py, `submit` and `cancel`, and the signature of a staged order
--                      of agent/pipeline.py. Broker.Durable attaches the sink that
--                      agent/approval_execution.py gives to the adapter.
--   Simulator          agent/broker/simulator.py, with `BrokerOrder` of agent/broker/base.py. Its
--                      amounts of money are counts of 10⁻¹⁸, so that a notional is exact.
--                      Simulator.Implementation is what the adapter calls. Simulator.Flows and
--                      Simulator.Conserved compare the money with the orders and what is pending.
--   Prelude            what the files share: Boolean tests, lists, signed integers, results, ASCII
--                      upper case, dictionaries in insertion order, and floats as operations.
--
-- Conventions. A method that may raise returns `Result`, with a constructor for each exception. A
-- dataclass is a record with the source's fields; a table of Python is a list of pairs. A `datetime`
-- is a count of instants, so every one has its time zone; a `date` is its ordinal; a `Decimal` is an
-- integer count of 10⁻⁹ units, which holds nine decimals of a share and of a price and leaves out the
-- 28 digits of the decimal context. A float is an element of a parameter with the operations that
-- the program uses, and no law is assumed. SHA-256, JSON decoding, the time zone database, duration
-- parsing and the printing of values are parameters.
--
-- Fuel. `walk_forward` of MarketCalendar goes one day for each unit and is called with the days that
-- the table still covers, one more than it can use: past the table the source raises, so
-- `out_of_fuel` is never the result. Every other loop is structural.
--
-- Not modelled: files, locks and fsync, log messages, the network adapters, the dashboard, the
-- research and analysis of documents, the order pipeline, and of the modelled files `lots`,
-- `closed_lots`, `disposal_records` and `positions` of the ledger and the opening positions that its
-- store takes from the broker, `rubber_stamp_risk` of the approvals, and `aggregate_report`.
pub mod Prelude
pub mod Journal
pub mod Audit
pub mod Mode
pub mod Policy
pub mod LotSelection
pub mod Holding
pub mod Approval
pub mod MarketCalendar
pub mod Accounts
pub mod DayTrade
pub mod Reconciliation
pub mod Ledger
pub mod Startup
pub mod Requests
pub mod Bridge
pub mod LedgerStore
pub mod Quarantine
pub mod FillSync
pub mod Broker
pub mod Simulator
pub mod CashQuarantine
pub mod CashEvents
pub mod Facts
