-- ===== src/Router.antt =====
-- engine/opportunity.py: the routes, what is read for them, and their evaluations.
pub mod Texts
pub mod Gate
pub mod Deciding
pub mod GasPassed
pub mod Cleared
pub mod Sizing
pub mod Evaluating
pub mod Trades
pub mod Bounds
pub mod Ranking
pub mod Candidates
pub mod Routes
pub mod Alternatives
pub mod Capped
mod Tests
use fedr.Base.{ℕ, String, Bool, true, false, Option, some, none, List}
use Prim.Native.String.{◌++◌ as append}
use fedr.Decimal.{Decimal}
use fedr.Models.{
  TradingMode, simulation, paper, testnet, live, Strategy, strategy_value, spot_perp, funding,
  basis, Decision, ExecutionQuote, Chain,
}
use fedr.Guards.{SlippageReason, LatencyReason}
use fedr.Guards.Gas.{GasSnapshot, GasBaseline, GasAssessment}
use fedr.Breakers.{Block}
use fedr.Profit.{Reason, ProfitAssessment}
use fedr.Risk.{PortfolioState, Refusal}
use fedr.Risk.Verdict.{RiskAssessment}
use fedr.Experience.{size_bucket}
use fedr.OrderBook.{OrderBook}
use fedr.Orders.{Venue}

pub record RouteCandidate : Type 0 where
  pub strategy : Strategy
  pub pair : String
  pub buy : Venue
  pub sell : Venue
  pub flash_loan : Bool

-- `CATALOG[strategy].carry`
abbrev pub is_carry : Strategy → Bool
is_carry spot_perp = true
is_carry funding = true
is_carry basis = true
is_carry _ = false

-- What a reason says; its text is made outside.
pub data RouteReason : Type 0 where
  of_profit : Reason → RouteReason
  of_slippage : SlippageReason → RouteReason
  of_latency : LatencyReason → RouteReason
  of_breaker : Block → RouteReason
  of_risk : Refusal → RouteReason
  stopped paused extreme_gas simulation_raised no_usable_capital : RouteReason
  below_minimum : Decimal → RouteReason
  capped_by_depth : String → Decimal → RouteReason
  capped_by_inventory : String → String → RouteReason
  capped_by_collateral : String → String → RouteReason
  preferred : Strategy → Decimal → Decimal → RouteReason

-- What the evaluation reads from outside: the clock, the time to live and the new id, the gas data,
-- the prices and the books of the hub, the steps of the markets, the state of the portfolio, with its
-- usable capital, the quotes of the two legs, with the funding cost of a carry route (None for an
-- exception or a missing quote), the flash-loan simulator (None for an exception in it), and the texts
-- of the reasons.
pub record Scene : Type 0 where
  pub now_ms : ℕ
  pub ttl_ms : ℕ
  pub new_id : String
  pub gas_baseline : GasBaseline
  pub snapshot : Chain → Option GasSnapshot
  pub price_usd : String → Option Decimal
  pub book : String → String → Option OrderBook
  pub amount_step : String → String → Option Decimal
  pub portfolio : PortfolioState
  pub usable_capital_usd : Decimal
  pub quotes : RouteCandidate → Decimal → Option (ExecutionQuote × ExecutionQuote × Option Decimal)
  pub simulator : Option (RouteCandidate → ExecutionQuote → ExecutionQuote → Decimal → Option Bool)
  pub say : RouteReason → String

-- The Opportunity of core/models.py; the two last fields are entries of `extra`.
pub record Evaluation : Type 0 where
  pub id : String
  pub strategy : Strategy
  pub pair : String
  pub buy : ExecutionQuote
  pub sell : ExecutionQuote
  pub size_base : Decimal
  pub profit : ProfitAssessment
  pub gas : Option GasAssessment
  pub risk : RiskAssessment
  pub decision : Decision
  pub block_reasons : List String
  pub expires_at_ms : ℕ
  pub route_key : String
  pub notional_usd : Decimal

-- the enum's `value`
unfoldable pub mode_value : TradingMode → String
mode_value simulation = "simulation"
mode_value paper = "paper"
mode_value testnet = "testnet"
mode_value live = "live"

-- `route_key` of engine/experience.py
unfoldable pub route_key : TradingMode → Strategy → String → String → String → Decimal → String
route_key mode strategy buy sell pair notional =
    let tail = append sell (append "|" (append pair (append "|" (size_bucket notional)))) in
    append (mode_value mode)
      (append "|" (append (strategy_value strategy) (append "|" (append buy (append "|" tail)))))
