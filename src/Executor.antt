-- ===== src/Executor.antt =====
-- engine/execution/executor.py: the state of the engine, and what an execution takes from outside.
pub mod Reserving
pub mod Preconditions
pub mod Settling
pub mod Faults
pub mod Run
pub mod Protected
pub mod Rule
pub mod Aside
pub mod Conservation
pub mod Balance
pub mod Finish
pub mod Tripping
pub mod Halts
pub mod Tests
use fedr.Base.{ℕ, String, Bool, Option, List}
use fedr.Decimal.{Decimal}
use fedr.Ledger.{PaperLedger}
use fedr.Inventory.{InventoryManager}
use fedr.Breakers.{CircuitBreakerManager}
use fedr.Experience.{ExperienceEngine}
use fedr.Models.{Strategy, Decision, ExecutionQuote}
use fedr.Settings.{AppSettings}
use fedr.Profit.{CostBreakdown}
use fedr.Orders.{OrderRequest, OrderResult, TradeRecord, Venue}

-- The fields of EngineContext that an execution reads or writes, and `active` and `recent` of the
-- ExecutionEngine; of the active trades the ids are kept.
pub record Engine : Type 0 where
  pub settings : AppSettings
  pub ledger : Option PaperLedger
  pub has_paper_executor : Bool
  pub inventory : InventoryManager
  pub breakers : CircuitBreakerManager
  pub experience : ExperienceEngine
  pub emergency_stop : Bool
  pub open_trade_ids : List String
  pub daily_pnl_usd : Decimal
  pub failed_trades_last_hour : ℕ
  pub unhedged_since_ms : Option ℕ
  pub active : List String
  pub recent : List TradeRecord

-- What the executor reads of an opportunity; the three last are entries of `extra` and of the profit.
pub record Opportunity : Type 0 where
  pub strategy : Strategy
  pub pair : String
  pub size_base : Decimal
  pub buy : ExecutionQuote
  pub sell : ExecutionQuote
  pub decision : Decision
  pub gross_profit : Decimal
  pub expected_net_profit : Decimal
  pub worst_case_profit : Decimal
  pub expected_costs : CostBreakdown
  pub notional_usd : Option Decimal
  pub route_key : Option String

pub record Connector : Type 0 where
  pub venue : Venue
  pub trading_enabled : Bool

-- What the two submissions, which run at the same time, give: their results, None for an exception
-- or a timeout, and the ledger after both.
pub record Gathered : Type 0 where
  pub buy : Option OrderResult
  pub sell : Option OrderResult
  pub ledger : Option PaperLedger

-- Where the protected part of `execute` may raise: when failures on chain are noted, before or in the
-- emergency hedge, when an exposure that stays open is reported, when a failed trade is counted, and
-- when the trade is written to the database.
pub data Fault : Type 0 where
  in_notes in_hedge in_report in_count in_saving : Fault

-- What comes from outside the executor: the new id, the clocks in milliseconds and in seconds, the
-- connectors, the answer of `candidate_for` and of `evaluate`, the two submissions, the emergency
-- hedge, the exceptions of what the executor calls or waits for, the price of the quote asset and the
-- time that the timeline measured. If the hedge raises, its ledger is the one it leaves behind.
pub record Outside : Type 0 where
  pub new_id : String
  pub now_ms : ℕ
  pub now_s : ℕ
  pub connectors : String → Option Connector
  pub has_candidate : Bool
  pub reevaluated : Option Opportunity
  pub submit : OrderRequest → OrderRequest → Opportunity → Option PaperLedger → Gathered
  pub hedge :
      TradeRecord → String → Decimal → Option PaperLedger → Option PaperLedger × Option OrderResult
  pub raises : Fault → Bool
  pub price_usd : String → Option Decimal
  pub latency_ms : ℕ

-- Why an execution is aborted before anything is submitted.
pub data Abort : Type 0 where
  emergency_stop live_not_activated not_enabled shadow_mode too_many_trades : Abort
  breaker_active flash_loan carry_not_allowed no_candidate no_quote not_safe : Abort
  reservation_failed : Abort

-- How an execution ends: with the record of the trade, or by an exception.
pub data Ended : Type 0 where
  traded : TradeRecord → Ended
  aborted : Abort → TradeRecord → Ended
  raised : Ended
