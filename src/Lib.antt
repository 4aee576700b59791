-- ===== src/Lib.antt =====
-- The trading engine of fedr (backend/fedr), a Python program that looks for price differences
-- between exchanges and trades on them. The files model the parts that decide what is traded and
-- that keep the books, and prove how they behave.
--
-- Shared: Base (library names, tests on numbers and texts), Int (integers read by their two parts),
-- Dict (a Python dict in insertion order) and Decimal (core/money.py).
--
-- Decimals. A Decimal is a whole number of units of 10⁻¹⁸ (`Decimal.unit`). Sums, differences and
-- comparisons are exact, as Python's are while a result has no more than 34 digits. Products and
-- quotients round half to even at the unit, where Python does so at the 34th digit; the theorems use
-- of them that they keep signs and order, and no theorem depends on the value of the unit.
-- Not-a-number and infinite Decimals are not modelled.
--
-- Ledger is backend/fedr/connectors/paper/ledger.py, the simulated balances: `PaperLedger` is the
-- state, and `adjust`, `reserve`, `release`, `settle_fill`, `settle_perp`, `charge_gas`, `seed`,
-- `load`, `dump` and `total_usd` are the methods of these names. Its children hold the proofs: what a
-- read sees after each write (Accounts, Reserve, Settle), the value of the whole ledger (Total) and
-- sequences of calls (Calls). The lock of the class makes each method one step.
--
-- Inventory is backend/fedr/engine/inventory.py: what the venues hold and what trades have reserved
-- (`InventoryManager`; Reservations for `reserve` and `release`, Refresh for `update_balances`).
--
-- Breakers is backend/fedr/engine/circuit_breakers.py: the active breakers and the rolling counters
-- (`CircuitBreakerManager`; Key for the keys, Active for `trip`, `reset`, `is_tripped` and `blocks`,
-- Counters for `record`, here `record_event`, `count` and `record_and_check`). Clocks are arguments.
--
-- OrderBook is backend/fedr/marketdata/orderbook.py: the book itself, with Walking for `walk` and
-- `walk_quote` and Sizing for `max_size_within_slippage`, `apply_stress` and `consume`; Walk,
-- WalkQuote, MaxSize, Consume and Snapshot hold the proofs.
--
-- Models is what the engines exchange (backend/fedr/core/enums.py, core/models.py), and Settings the
-- sections of backend/fedr/config/schema.py that they read, with `apply_risk_profile`; Defaults has
-- the default values and `default_settings`.
--
-- Guards is backend/fedr/engine/slippage_guard.py (`limit_for`, `check_slippage`) and latency_guard.py
-- (`check_latency`); its child Gas is engine/gas_guard.py (`GasBaseline`, `regime`, `assess`). Limits
-- and GasLaws hold the proofs.
--
-- Profit is backend/fedr/engine/profit_guard.py: the data, with Steps for the parts of `assess` that
-- fill the two cost breakdowns (the leg's `attribute_leg` among them), Assess for their sequence, the
-- thresholds and the reasons, and Verdict for the result. Safety, Unknown and Attribution hold the
-- proofs. The gas guard's assessment is an input of the profit guard, as are the quotes, which walks
-- of the order book give. The ages are taken at one time `now`, which is an argument.
--
-- Risk is backend/fedr/engine/risk_engine.py: the data and the hard limits, with Score for the
-- exposures, the balances, the venues' health and the score, and Verdict for `assess` and
-- `capital_breakdown`. Limits, Funded and Safety hold the proofs. The portfolio's balances are a function that gives
-- None for an unknown one.
--
-- Orders is the orders, fills, results and trade records of core/models.py and core/enums.py, and
-- Accounting backend/fedr/engine/accounting.py (`compute_outcome`, `apply_outcome`; Laws for proofs).
-- Experience is backend/fedr/engine/experience.py (`extra_buffer_pct`, and `record` as
-- `record_sample`; Buffer for its bounds). Its decimals, texts in the program, are Decimals here.
--
-- Paper is backend/fedr/engine/execution/paper_executor.py: Filling for `_simulate_fill` and
-- `_gas_cost`, Leg for `execute_leg`, which gives the ledger and the result after a leg. The random
-- draws and the connector's answers are the record `Arrival`, an argument. Fills, Outcomes and Solvent
-- hold the proofs.
--
-- Executor is `ExecutionEngine` of backend/fedr/engine/execution/executor.py, over the fields of
-- `EngineContext` (engine/context.py) that it uses, the record `Engine`: the settings, the paper
-- ledger, the inventory, the breakers, the experience, the open trades and the daily profit.
-- Preconditions is the start of `execute`, Reserving `_reserve` and `_release_unused`, Settling
-- `_as_result`, `_note_dex_failures`, `_recover` and `_post_trade`, Faults the exceptions inside the
-- `try` and their handler, and Run `execute`, with `_abort`; it ends with a trade, an abort or an
-- exception. Rule reduces a property of `execute` to its paths and Protected one of its `try` to the
-- exits; Finish, Tripping, Halts, Balance, Aside and Conservation hold proofs. What comes from outside is
-- the record `Outside`, an argument: the two submissions, which return their results and the ledger after
-- both, the emergency hedge, the exceptions that are raised, the re-evaluation of the opportunity, the
-- connectors, prices and clocks. The exceptions are at five points: when failures on chain are noted,
-- before or in the hedge, when an exposure that stays open is reported, when a failed trade is counted
-- and when the trade is written. An exception in the handler itself, the live branch of the submission,
-- what is written to the database and the notifications are left out. An execution is one step, so that
-- two executions at the same time are not interleaved.
--
-- Hedge is backend/fedr/engine/execution/emergency_hedge.py: `hedge` looks for the venues that may
-- close an exposure, orders them by a score and tries the best three, on paper through the ledger and
-- the simulated leg of Paper. A venue's health, its quote and its answer to a live order come from
-- outside, in the record `HedgeVenue`. Reduces holds the proof.
--
-- Positions is `PositionManager` of backend/fedr/engine/positions.py, over the same `Engine`: Carry for
-- `mark`, `exit_reason` and `accrue_funding`, Closing for the parts of `close` and Close for their
-- sequence, Desk for `open_from_opportunity`, `monitor`, `accrue_due_funding`, `close_all` and the
-- request of backend/fedr/api/routes/trading.py to close, and Shorts for `reconcile`. The record
-- `Market` is what comes from outside: prices, clock, connectors, quotes, and the answers to the legs
-- that are submitted. Rules and Passes say which writes the operations do; Tracked, with `step` and
-- `run` for sequences of operations, Stuck, Outcomes, Exits and Reported hold the proofs. Operations do
-- not interleave.
--
-- Router is `OpportunityEngine` of backend/fedr/engine/opportunity.py, which joins the guards: Gate
-- for `_merge_gas` and the inputs of `_assess`, Deciding for its reasons and decision
-- (`assess_route`), Sizing for `pick_size`, Evaluating for `evaluate` (without a size `evaluate`,
-- with one `evaluate_sized`), Ranking for `_annotate_alternatives` and `ranked`, and Candidates for
-- `candidates` and `scan`, with engine/strategies/catalog.py. The record `Scene` is what comes from
-- outside: clock, prices, books, gas data, quotes, the state of the portfolio, the flash-loan
-- simulator, and the texts of the reasons, since the program compares the reasons as texts. Trades
-- joins it with the executor: `with_router` gives `execute` the evaluation of this engine as its
-- re-evaluation. GasPassed, Cleared, Bounds, Alternatives, Capped and Routes hold proofs.
--
-- No function takes fuel: each loop of the source is over a list, and is a recursion on it.
--
-- Messages for people are data: a reason or an outcome has a constructor, and its text is left out.
-- Network clients, the database, the other web handlers and cryptography are not modelled.
pub mod Base
pub mod Int
pub mod Dict
pub mod Decimal
pub mod Models
pub mod Settings
pub mod Ledger
pub mod Inventory
pub mod Breakers
pub mod OrderBook
pub mod Guards
pub mod Profit
pub mod Risk
pub mod Orders
pub mod Accounting
pub mod Experience
pub mod Paper
pub mod Executor
pub mod Hedge
pub mod Positions
pub mod Router
