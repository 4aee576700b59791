-- ===== src/Profit.antt =====
-- engine/profit_guard.py: the costs of a trade and the data of the guard. The costs are core/models.py.
pub mod Steps
pub mod Assess
pub mod Attribution
pub mod Safety
pub mod Verdict
pub mod Unknown
mod Tests
use fedr.Base.{ℕ, String, Bool, Option, List, [], ◌∷◌}
use fedr.Int.{ℤ, ◌+ℤ◌}
use fedr.Decimal.{Decimal, zero_dec, sum}
use fedr.Models.{ExecutionQuote, Decision}
use fedr.Settings.{AppSettings}
use fedr.Guards.Gas.{GasAssessment, GasReason}

-- The costs that may be unknown.
pub data CostName : Type 0 where
  gas bridge_fee withdrawal_fee deposit_fee dex_swap_fee buy_trading_fee sell_trading_fee : CostName

pub record CostBreakdown : Type 0 where
  pub buy_trading_fee : Decimal
  pub sell_trading_fee : Decimal
  pub maker_taker_adjustment : Decimal
  pub dex_swap_fee : Decimal
  pub lp_fee : Decimal
  pub gas : Decimal
  pub priority_fee : Decimal
  pub slippage : Decimal
  pub price_impact : Decimal
  pub bridge_fee : Decimal
  pub withdrawal_fee : Decimal
  pub deposit_fee : Decimal
  pub funding : Decimal
  pub rebalance_allowance : Decimal
  pub latency_allowance : Decimal
  pub partial_fill_allowance : Decimal
  pub failure_reserve : Decimal
  pub safety_buffer : Decimal
  pub flash_loan_fee : Decimal
  pub mev_reserve : Decimal

abbrev pub no_costs : CostBreakdown
no_costs = record {
  buy_trading_fee = zero_dec;
  sell_trading_fee = zero_dec;
  maker_taker_adjustment = zero_dec;
  dex_swap_fee = zero_dec;
  lp_fee = zero_dec;
  gas = zero_dec;
  priority_fee = zero_dec;
  slippage = zero_dec;
  price_impact = zero_dec;
  bridge_fee = zero_dec;
  withdrawal_fee = zero_dec;
  deposit_fee = zero_dec;
  funding = zero_dec;
  rebalance_allowance = zero_dec;
  latency_allowance = zero_dec;
  partial_fill_allowance = zero_dec;
  failure_reserve = zero_dec;
  safety_buffer = zero_dec;
  flash_loan_fee = zero_dec;
  mev_reserve = zero_dec;
}

-- `sum` over FIELDS
unfoldable pub total : CostBreakdown → Decimal
total c =
    c.buy_trading_fee +ℤ c.sell_trading_fee +ℤ c.maker_taker_adjustment +ℤ c.dex_swap_fee
    +ℤ c.lp_fee +ℤ c.gas +ℤ c.priority_fee +ℤ c.slippage +ℤ c.price_impact +ℤ c.bridge_fee
    +ℤ c.withdrawal_fee +ℤ c.deposit_fee +ℤ c.funding +ℤ c.rebalance_allowance
    +ℤ c.latency_allowance +ℤ c.partial_fill_allowance +ℤ c.failure_reserve +ℤ c.safety_buffer
    +ℤ c.flash_loan_fee +ℤ c.mev_reserve

-- The two breakdowns that `assess` fills, and the names of the costs that are not known.
pub record Costs : Type 0 where
  pub exp : CostBreakdown
  pub wc : CostBreakdown
  pub unknown : List CostName

pub record FlashLoanTerms : Type 0 where
  pub provider : String
  pub loan_amount_usd : Decimal
  pub fee_pct : Decimal
  pub simulation_passed : Option Bool
  pub atomic : Bool

-- None in a fee means that the fee is unknown.
pub record ProfitGuardInputs : Type 0 where
  pub buy : ExecutionQuote
  pub sell : ExecutionQuote
  pub settings : AppSettings
  pub gas : Option GasAssessment
  pub quote_usd_rate : Decimal
  pub experience_extra_pct : Decimal
  pub flash_loan : Option FlashLoanTerms
  pub funding_cost_usd : Decimal
  pub bridge_fee_usd : Option Decimal
  pub withdrawal_fee_usd : Option Decimal
  pub deposit_fee_usd : Option Decimal
  pub stablecoin_haircut_pct : Decimal
  pub round_trips : ℕ

-- Why a trade is blocked; the numbers are those of the message.
pub data Reason : Type 0 where
  size_is_zero : Reason
  sizes_differ : Decimal → Decimal → Decimal → Reason
  no_depth_to_buy no_depth_to_sell : Decimal → Decimal → Reason
  stale_quote : ℤ → ℤ → Reason
  gas_fallback : Decimal → Reason
  gas_guard : GasReason → Reason
  not_simulated not_atomic above_risk_maximum : Reason
  loan_too_large : Decimal → Decimal → Reason
  extreme_gas : Reason
  unknown_costs : List CostName → Reason
  below_min_profit below_min_worst_case below_min_roi : Decimal → Decimal → Reason
  gas_share_too_high : Decimal → Decimal → Reason
  below_min_after_gas : Decimal → Decimal → Reason
  below_gas_ratio : Decimal → Decimal → Reason

pub record ProfitAssessment : Type 0 where
  pub gross_profit : Decimal
  pub expected_net_profit : Decimal
  pub worst_case_profit : Decimal
  pub capital_required : Decimal
  pub gross_spread_pct : Decimal
  pub expected_net_pct : Decimal
  pub worst_case_pct : Decimal
  pub net_roi_pct : Decimal
  pub required_min_profit : Decimal
  pub required_min_worst_case : Decimal
  pub required_min_roi_pct : Decimal
  pub expected_costs : CostBreakdown
  pub worst_case_costs : CostBreakdown
  pub unknown : List CostName
  pub decision : Decision
  pub reasons : List Reason
