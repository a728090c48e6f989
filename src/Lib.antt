-- ===== src/Lib.antt =====
-- StockBrain: the parts of the backend that decide what may be traded, how much, and when a job runs.
--
-- The program turns research into trade proposals. A proposal passes the deterministic risk engine
-- (backend/stockbrain/risk), which lists a verdict for every rule and sizes the order; it then moves
-- through the statuses of backend/stockbrain/proposals/state_machine.py. Open positions are watched by
-- the exit rules, whose signals become proposals again. Before an order is sent,
-- backend/stockbrain/execution/preflight.py checks the deployment, the flags that halt trading
-- (backend/stockbrain/control/state.py) and the proposal, and asks for a fresh evaluation. The
-- execution service claims the proposal, records that the order may have left, sends it and records
-- the answer; an answer that is not known is looked for at the broker by reconciliation. A person or
-- the system authorizes a proposal, and the lifecycle sweep ends those that no longer stand.
-- Calls to paid providers are claimed from a budget before they are made
-- (backend/stockbrain/ingestion/provider_budget.py).
-- Background work is a table of jobs in the database (backend/stockbrain/jobs/queue.py).
--
-- Files:
--   Prelude    shared names, Boolean tests, lists, signed integers, text as lists of code points
--   Decimal    Python's decimal numbers in their default context (28 digits, half to even), with the
--              order and the laws of rounding that the rules rely on
--   Enums      the vocabulary of backend/stockbrain/enums.py
--   Fx         backend/stockbrain/fx/base.py: currency codes, rates and what blocks a rate
--   Risk/Config, Models, Spread, Gates, Conviction, Caps, Factors, Sizing, Engine, Exits
--              config.py, models.py, spread.py, rules.py (Gates: gate_results; Conviction and Caps:
--              notional_caps; Factors: the reductions, the drift and expiry rules), sizing.py,
--              engine.py and exits.py of backend/stockbrain/risk; a definition has its function's
--              name, without a leading underscore
--   Proposals/StateMachine
--              backend/stockbrain/proposals/state_machine.py
--   Proposals/Evaluation
--              the FX facts of backend/stockbrain/proposals/evaluation.py (fx_snapshot)
--   Control    backend/stockbrain/control/state.py: the flags, their table and the audit log
--   Tables     the lookup and the update of a row by its key
--   Store      the tables that the proposal and the execution services share
--              (backend/stockbrain/db/models), with what a history may do to them (Store/Moves)
--   Proposals/Lifecycle
--              backend/stockbrain/proposals/lifecycle.py: rejection, cancellation and expiry;
--              Standing: why a proposal no longer stands; Sweep: the sweep over all of them
--              (Swept and Moves: what it may make of a proposal)
--   Proposals/Authorization
--              authorize of backend/stockbrain/proposals/service.py and the rules of evaluation.py
--              that exist only because a proposal does
--   Proposals/Rebalance
--              backend/stockbrain/proposals/rebalance.py: the plan toward the conviction targets and
--              the proposals that it asks for
--   Execution/Settings, Preflight
--              the gates on sending of backend/stockbrain/config.py, and
--              backend/stockbrain/execution/preflight.py over the result of a re-validation
--   Execution/Provider
--              backend/stockbrain/execution/base.py and models.py: what the broker's client reads
--   Execution/Service, Rejection, Sending, Run
--              backend/stockbrain/execution/service.py: the records of an outcome, the refusal that
--              teaches a precision, the claim before a send, and execute with crash recovery
--   Execution/Reconciliation
--              backend/stockbrain/execution/reconciliation.py: the search for an order; Recording:
--              what a pass writes
--   Execution/Transmission
--              workers of the execution service in parallel, as a step relation; Execution/Effects
--              says what each transaction does to the proposals and to the marks of sent attempts
--   Jobs/Queue backend/stockbrain/jobs/queue.py: operations on the table, and the step relation that
--              they form
--   Ingestion/Budget
--              backend/stockbrain/ingestion/provider_budget.py: the ledger of paid calls and its caps
--   The modules below these hold the proofs; Samples, Tests and RuleTests hold concrete inputs.
--
-- How the code is rendered: an instant is a number of microseconds since the epoch, a date a number
-- of days. A dictionary is an association list, a set of names a list in insertion order. A function
-- that may raise `ValueError` gives an option, with `none` for the error, or a type of its own. The
-- queue takes the fresh identifier, the clocks, the rows that other transactions hold and the draw of
-- `random.uniform` as arguments, since the database and the random generator give them. Rows are
-- compared and updated as single statements, as the database runs them. A transaction of the
-- execution service or the lifecycle is one function on the tables, and none where it raises and is
-- rolled back; the answers of the broker, the market and the clock are arguments of it. A fresh
-- identifier of an attempt is an argument too, and that it is fresh is a premise of the step that
-- uses it. A notification or a job that a transaction enqueues is a message of an outbox, without the
-- key that makes it unique. Seconds and other spans are natural numbers of microseconds.
--
-- Bounds and fuel: natural numbers stand for the integers that the code keeps from being negative.
-- The split of an account in conviction sizing runs on fuel, one round for each name: a round that
-- does not end the loop caps a name, so more fuel changes nothing. Every other loop is structural.
--
-- Not modelled: sentences and the texts of what a rule observed, the JSON views and hashes of
-- decisions, time zones, decimal errors (a division by zero, which the code guards against, or a
-- rounding whose result has more than 28 digits), case mapping outside ASCII, the enqueueing of
-- proposals by the lifecycle and of ready proposals by the execution service, the batch loop of
-- reconciliation, fingerprints and stored payloads, the columns that record where a price or a rate
-- came from, what a call costs in dollars, the generation of proposals, the providers, the web and chat front ends and the wiring
-- of the application.
pub mod Prelude
pub mod Decimal
pub mod Enums
pub mod Fx
pub mod Risk
pub mod Proposals
pub mod Ingestion
pub mod Jobs
pub mod Control
pub mod Tables
pub mod Store
pub mod Execution
