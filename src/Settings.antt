-- ===== src/Settings.antt =====
-- config/schema.py: the sections that the guards read, and the risk profiles that overwrite them.
pub mod Defaults
mod Tests
use fedr.Base.{ℕ, String, Bool, true, false, Option, none, List}
use fedr.Int.{ℤ, pos}
use fedr.Decimal.{Decimal, cents, dec}
use fedr.Models.{TradingMode}

pub data RiskProfile : Type 0 where
  conservative balanced custom : RiskProfile

pub record GeneralSettings : Type 0 where
  pub mode : TradingMode
  pub shadow_mode : Bool
  pub bot_enabled : Bool
  pub risk_profile : RiskProfile

pub record TradingSettings : Type 0 where
  pub auto_execute : Bool
  pub max_trade_size_usd : Decimal
  pub min_trade_size_usd : Decimal
  pub min_profit_usd : Decimal
  pub min_worst_case_profit_usd : Decimal
  pub min_roi_pct : Decimal
  pub max_quote_age_ms : ℤ
  pub max_risk_score : ℤ
  pub safety_buffer_pct : Decimal
  pub latency_allowance_pct : Decimal
  pub partial_fill_allowance_pct : Decimal
  pub failure_reserve_pct : Decimal
  pub rebalance_allowance_pct : Decimal
  pub stablecoin_equivalence : Bool
  pub stablecoin_haircut_pct : Decimal
  pub worst_case_slippage_multiplier : Decimal
  pub worst_case_fee_multiplier : Decimal
  pub execution_timeout_ms : ℤ
  pub leg_price_tolerance_pct : Decimal
  pub unknown_fee_fallback_pct : Option Decimal

pub record RiskSettings : Type 0 where
  pub max_capital_usage_pct : Decimal
  pub max_exchange_exposure_pct : Decimal
  pub max_chain_exposure_pct : Decimal
  pub max_asset_exposure_pct : Decimal
  pub max_daily_loss_usd : Decimal
  pub max_concurrent_trades : ℤ
  pub max_unhedged_seconds : ℤ
  pub max_slippage_pct : Decimal
  pub max_gas_usd : Decimal
  pub max_quote_age_ms : ℤ
  pub max_failed_trades_per_hour : ℤ
  pub max_flash_loan_usd : Decimal
  pub max_flash_loan_gas_usd : Decimal
  pub allow_degraded_venues : Bool
  pub max_prediction_error_pct : Decimal
  pub rapid_move_pct : Decimal
  pub emergency_reserve_usd : Decimal
  pub inventory_reserve_pct : Decimal
  pub leverage_allowed : Bool
  pub auto_bridging_allowed : Bool
  pub asset_allowlist : List String

-- `gas_reserve` is left out: the guards do not read it.
pub record GasSettings : Type 0 where
  pub max_gas_per_trade_usd : Decimal
  pub max_gas_pct_of_gross : Decimal
  pub min_profit_after_gas_usd : Decimal
  pub stress_multiplier : Decimal
  pub max_priority_fee_gwei : Decimal
  pub max_gas_price_gwei : Decimal
  pub max_priority_fee_lamports : ℕ
  pub elevated_multiple : Decimal
  pub high_multiple : Decimal
  pub extreme_multiple : Decimal
  pub elevated_profit_multiplier : Decimal
  pub unknown_gas_policy : String
  pub conservative_gas_fallback_usd : Decimal

pub record SlippageSettings : Type 0 where
  pub default_max_pct : Decimal
  pub per_asset_max_pct : List (String × Decimal)
  pub per_venue_max_pct : List (String × Decimal)
  pub per_route_max_pct : List (String × Decimal)
  pub size_tiers : List (Decimal × Decimal)
  pub dex_slippage_tolerance_pct : Decimal

pub record FlashLoanSettings : Type 0 where
  pub enabled : Bool
  pub provider : String
  pub max_loan_usd : Decimal
  pub min_net_profit_usd : Decimal
  pub max_gas_usd : Decimal
  pub max_gas_pct_of_gross : Decimal
  pub max_slippage_bps : ℕ
  pub min_profit_gas_ratio : Decimal
  pub require_simulation : Bool
  pub require_atomic : Bool
  pub mev_aware : Bool
  pub mev_reserve_pct : Decimal
  pub chains : List String

pub record LiveActivationState : Type 0 where
  pub activated : Bool
  pub stage : String
  pub small_test_strategy : String
  pub small_test_route : Option String

pub record AppSettings : Type 0 where
  pub general : GeneralSettings
  pub trading : TradingSettings
  pub risk : RiskSettings
  pub gas : GasSettings
  pub slippage : SlippageSettings
  pub flash_loan : FlashLoanSettings
  pub live : LiveActivationState

abbrev set_profile : RiskProfile → AppSettings → AppSettings
set_profile profile s = record s { general = record s.general { risk_profile = profile } }

-- `RISK_PROFILES[CONSERVATIVE]` and `RISK_PROFILES[BALANCED]`, section by section
abbrev conservative_trading : TradingSettings → TradingSettings
conservative_trading t = record t {
  max_trade_size_usd = dec 250;
  min_profit_usd = dec 2;
  min_worst_case_profit_usd = cents 50;
  min_roi_pct = cents 15;
  max_quote_age_ms = pos 3000;
  max_risk_score = pos 60;
  safety_buffer_pct = cents 5;
  worst_case_slippage_multiplier = dec 2;
}

abbrev conservative_risk : RiskSettings → RiskSettings
conservative_risk r = record r {
  max_capital_usage_pct = dec 50;
  max_exchange_exposure_pct = dec 40;
  max_chain_exposure_pct = dec 40;
  max_asset_exposure_pct = dec 40;
  max_daily_loss_usd = dec 50;
  max_concurrent_trades = pos 1;
  max_slippage_pct = cents 30;
  max_gas_usd = dec 2;
  max_failed_trades_per_hour = pos 3;
  allow_degraded_venues = false;
}

abbrev conservative_gas : GasSettings → GasSettings
conservative_gas g = record g {
  max_gas_per_trade_usd = dec 2;
  max_gas_pct_of_gross = dec 10;
  stress_multiplier = cents 150;
}

abbrev balanced_trading : TradingSettings → TradingSettings
balanced_trading t = record t {
  max_trade_size_usd = dec 1000;
  min_profit_usd = dec 3;
  min_worst_case_profit_usd = dec 1;
  min_roi_pct = cents 10;
  max_quote_age_ms = pos 4000;
  max_risk_score = pos 70;
  safety_buffer_pct = cents 4;
  worst_case_slippage_multiplier = cents 175;
}

abbrev balanced_risk : RiskSettings → RiskSettings
balanced_risk r = record r {
  max_capital_usage_pct = dec 70;
  max_exchange_exposure_pct = dec 50;
  max_chain_exposure_pct = dec 50;
  max_asset_exposure_pct = dec 50;
  max_daily_loss_usd = dec 150;
  max_concurrent_trades = pos 2;
  max_slippage_pct = cents 40;
  max_gas_usd = dec 4;
  max_failed_trades_per_hour = pos 5;
  allow_degraded_venues = false;
}

abbrev balanced_gas : GasSettings → GasSettings
balanced_gas g = record g {
  max_gas_per_trade_usd = dec 4;
  max_gas_pct_of_gross = dec 15;
  stress_multiplier = cents 150;
}

unfoldable pub apply_risk_profile : RiskProfile → AppSettings → AppSettings
apply_risk_profile conservative s = record (set_profile conservative s) {
  trading = conservative_trading s.trading;
  risk = conservative_risk s.risk;
  gas = conservative_gas s.gas;
}
apply_risk_profile balanced s = record (set_profile balanced s) {
  trading = balanced_trading s.trading;
  risk = balanced_risk s.risk;
  gas = balanced_gas s.gas;
}
apply_risk_profile custom s = set_profile custom s
