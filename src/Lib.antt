-- ===== src/Lib.antt =====
-- Blessing AI is a trading system for Binance: a trading worker, a queue of agent jobs beside it,
-- and the engines, venues and tools that they use. These modules model the parts that decide who
-- may act and how often, and prove what those parts promise.
--
-- The parts, with the files that model them:
--
-- * The execution lease (apps/trading_worker/execution_lease.py): one worker at a time may execute
--   orders for a scope. Lease.antt has the store `InMemoryExecutionLeaseStore`, method by method,
--   as functions on an association list from scopes to records; Lease/Handle.antt the handle
--   `InMemoryExecutionLease`, which keeps its token; Lease/Postgres.antt `PostgresExecutionLease`,
--   each SQL statement as a function on the table. Lease/Trace.antt runs schedules of calls by any
--   clients, each with its own, possibly old, reading of the clock. The proofs are in
--   Lease/Fencing.antt, Lease/Exclusion.antt and Lease/Agreement.antt.
--
-- * The queue of agent jobs (apps/agy_queue). Queue/Models.antt has the records and enumerations of
--   models.py. Queue/Sqlite and its children have `SQLiteQueueStore` of storage.py: Table.antt the
--   tables, `get` and `create_job`; Claim.antt `claim_next` and `heartbeat`; Recover.antt
--   `recover_expired`; Events.antt `append_event` and `update_conversation_id`; Finish.antt
--   `mark_success` and `mark_failure`; Retry.antt `schedule_retry`, `retry_failed` and `cancel`.
--   Queue/Rows.antt has the SQL statements that they are made of, on a table as the list of its rows.
--   Queue/Lifecycle.antt and Queue/Jobs.antt are the abstract specification: what an operation may do
--   to a job and to the list of jobs; Queue/Sqlite/Moves.antt shows that each method does no more.
--   Eligible.antt and Expiry.antt describe which job may be claimed and what becomes of one whose lease has
--   ended. Calls.antt runs any sequence of calls, which is how the workers interact: they share nothing but
--   the table.
--
-- * Queue/Jsonl.antt and its children have `JsonlQueueStore` of storage.py, the queue's other backend:
--   the replay of its append-only files, and its methods, whose effect on the jobs is held against
--   the same Queue/Lifecycle.antt and Queue/Jobs.antt in Jsonl/Moves.antt and Jsonl/Recovery.antt.
--
-- * The risk governor (apps/trading_worker/engines/risk_governor.py), the last gate before an order.
--   Domain.antt has the enumerations and records of domain/enums.py and domain/models.py that it
--   uses; Governor.antt `evaluate` with its helpers, each early return in its place;
--   Governor/Risk.antt and Governor/Ids.antt the proofs.
--
-- * Exposure recovery (apps/trading_worker/engines/exposure_recovery.py), which rewrites a target
--   between the allocator and the governor while the drawdown is at its trigger: Recovery.antt has
--   `ExposureRecoveryEngine.process` and its helpers. Recovery/Brake.antt and Episode.antt have the
--   proofs on the delta and on the states, and Recovery/Orders.antt puts the engine in front of the
--   governor, as `handle_market_event` of main.py does.
--
-- * The controls of the worker (apps/trading_worker/main.py): Control.antt has the state of
--   `TradingWorkerApp` that says whether new risk is allowed, `_refresh_engine_state`,
--   `_sync_adapter_state` and the toggles; Control/Switch.antt `set_kill_switch` and
--   `trigger_reconciliation`; Control/Lifecycle.antt `disarm`, the resets, the ends of `arm` and
--   `continue_autonomous`, and the order callbacks; Control/Orders.antt `_before_order_submission`.
--   Control/Steps.antt lets the parts of these methods run in any order. Control/Kill.antt and
--   Control/Held.antt have the proofs on the switch and on the pause, and Control/Resume.antt puts the
--   controls behind the decision gate, which reads them.
--
-- * The incidents (domain/eight_d.py and apps/learning_engine/eight_d_manager.py): Incidents.antt has
--   `EightDIncident` with its methods and `EightDManager`; Incidents/Discipline.antt,
--   Containment.antt and Coverage.antt have the proofs.
--
-- * Capital scaling (apps/learning_engine/capital_scaling.py), which sets a strategy's share of the
--   risk budget: Capital.antt, with the bounds in Capital/Bounds.antt.
--
-- * The Binance venue (apps/trading_worker/venues/binance), which an order passes on its way to the
--   exchange. Binance/Rules.antt and its children have `SymbolTradingRules` of symbol_rules.py:
--   Parse.antt the parser of the exchange's filters, Rules.antt the readiness test, the limits and
--   the normalizations, Normal.antt, Notional.antt, Filters.antt and PercentPrice.antt the
--   proofs.
--   Binance/Limits.antt has `TestnetSafetyLimits.from_environment` of models.py.
--   Binance/Ledger.antt has `InMemoryLedger` of ledger.py, with the reading of positions in
--   Ledger/Positions.antt, and proofs in Ledger/Trades.antt, Fills.antt, Marks.antt and Orders.antt.
--   Binance/Market.antt has the market samples of the adapter in execution.py that come from its
--   stream and its REST answers, with their proof in Market/Provenance.antt.
--   Binance/Transport.antt has `BinanceRestClient.request` of rest_client.py, with its loop, the
--   allowlist and the meaning of errors, and proofs in Transport/Attempts.antt,
--   Meaning.antt and Admission.antt.
--   Binance/Gates.antt and its children have gates.py: Gates/Order.antt `OrderExecutionGate.check`,
--   whose guards are lists that are tried in order, with Order/Inputs.antt for what it is given,
--   Order/Prepare.antt for the quantity and the price, and Mainnet.antt and Order/Exposure.antt for the
--   account's guards and the sums over the ledger, and Gates/Decision.antt
--   `DecisionExecutionGate.check`; Passed.antt takes a passed check apart, Account.antt,
--   Exposures.antt and Chains.antt describe the account and the exposures without the program's sums, and
--   Increase.antt, Reduce.antt, Fits.antt and Decision/Lineage.antt say what follows. The parts meet in the order
--   gate: it asks the symbol's rules, the limits, and the ledger's orders and positions.
--
-- Prelude.antt and its children have what the parts share.
--
-- Choices. A clock reading is a number: ticks for the lease, milliseconds for the queue, whose texts
-- of one fixed width are ordered as their times are. A method that runs in one transaction, or under
-- one lock, is one step; a concurrent run is a sequence of such steps. Job ids are numbers, since the
-- code only compares them. A JSON value is the text that `_json_dumps` makes of it; redaction, files
-- and the decoding of rows are left out. Decimals in the governor are only compared, so they are
-- whole numbers of one unit; its clock may be broken. The venue multiplies them: of its unit `one`
-- make 1, and a product counts units of which `one * one` make 1. Multipliers of capital are millionths, so their
-- product and its rounding are exact. An admissible call is any call, where a job that is created is
-- pending, untried and unowned, as `submit` makes it. The worker's methods are asynchronous: what one
-- does between two awaits is one function, what it awaits is an argument, and a run is any sequence of
-- these; `set_kill_switch(True)` is several of them, and the release, which changes the switch only at its
-- end, is one. The analysis of an incident may raise. A new id of an incident is fresh. Only the loop of
-- the transport needs fuel, and a fuel of 2 is enough, since it sends a request again at most once;
-- every other loop is over a list.
--
-- Not modelled: the queue's `list`, the JSONL store's lock file and malformed lines, and the migration
-- of old database files; the queue's service, worker and agent runner. Of the venue, the rest of the
-- adapter of execution.py, whose answers the gates take as inputs, the reconciliation, the signatures and
-- the streams, `to_instrument` and the number of decimal places of a step. Of the worker, the guards of
-- `arm` and `continue_autonomous`, the preflight and readiness checks, the market loop and the HTTP
-- endpoints; the other engines, strategies, persistence and backtest; and the rest of the learning,
-- release and dashboard code. They are left for their size, not because they could not be modelled; the
-- signatures and the dashboard are input and output.
pub mod Prelude
pub mod Lease
pub mod Queue
pub mod Domain
pub mod Governor
pub mod Capital
pub mod Binance
pub mod Recovery
pub mod Control
pub mod Incidents
