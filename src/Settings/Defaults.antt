-- ===== src/Settings/Defaults.antt =====
-- config/schema.py: the defaults of the sections.
use fedr.Base.{arith, ◌≢◌, ◌==◌, if◌then◌else◌, String, true, false, none, [], ◌∷◌}
use fedr.Int.{pos}
use fedr.Decimal.{cents, dec}
use fedr.Models.{TradingMode, simulation, paper, testnet, live}
use fedr.Settings.{
  AppSettings, FlashLoanSettings, GasSettings, GeneralSettings, LiveActivationState, RiskSettings,
  SlippageSettings, TradingSettings, conservative, apply_risk_profile,
}

abbrev pub default_general : GeneralSettings
default_general = record {
  mode = paper;
  shadow_mode = false;
  bot_enabled = true;
  risk_profile = conservative;
}

abbrev pub default_trading : TradingSettings
default_trading = record {
  auto_execute = true;
  max_trade_size_usd = dec 250;
  min_trade_size_usd = dec 20;
  min_profit_usd = dec 2;
  min_worst_case_profit_usd = cents 50;
  min_roi_pct = cents 15;
  max_quote_age_ms = pos 3000;
  max_risk_score = pos 60;
  safety_buffer_pct = cents 5;
  latency_allowance_pct = cents 3;
  partial_fill_allowance_pct = cents 2;
  failure_reserve_pct = cents 2;
  rebalance_allowance_pct = cents 3;
  stablecoin_equivalence = false;
  stablecoin_haircut_pct = cents 5;
  worst_case_slippage_multiplier = dec 2;
  worst_case_fee_multiplier = cents 125;
  execution_timeout_ms = pos 8000;
  leg_price_tolerance_pct = cents 10;
  unknown_fee_fallback_pct = none;
}

abbrev pub default_risk : RiskSettings
default_risk = record {
  max_capital_usage_pct = dec 50;
  max_exchange_exposure_pct = dec 40;
  max_chain_exposure_pct = dec 40;
  max_asset_exposure_pct = dec 40;
  max_daily_loss_usd = dec 50;
  max_concurrent_trades = pos 1;
  max_unhedged_seconds = pos 30;
  max_slippage_pct = cents 30;
  max_gas_usd = dec 2;
  max_quote_age_ms = pos 3000;
  max_failed_trades_per_hour = pos 3;
  max_flash_loan_usd = dec 25000;
  max_flash_loan_gas_usd = dec 5;
  allow_degraded_venues = false;
  max_prediction_error_pct = cents 50;
  rapid_move_pct = dec 2;
  emergency_reserve_usd = dec 200;
  inventory_reserve_pct = dec 10;
  leverage_allowed = false;
  auto_bridging_allowed = false;
  asset_allowlist = "BTC" ∷ "ETH" ∷ "SOL" ∷ "USDC" ∷ "USDT" ∷ "USD" ∷ [];
}

abbrev pub default_gas : GasSettings
default_gas = record {
  max_gas_per_trade_usd = dec 2;
  max_gas_pct_of_gross = dec 10;
  min_profit_after_gas_usd = dec 1;
  stress_multiplier = cents 150;
  max_priority_fee_gwei = dec 3;
  max_gas_price_gwei = dec 60;
  max_priority_fee_lamports = 200000;
  elevated_multiple = cents 150;
  high_multiple = cents 250;
  extreme_multiple = dec 4;
  elevated_profit_multiplier = cents 150;
  unknown_gas_policy = "block";
  conservative_gas_fallback_usd = dec 5;
}

abbrev pub default_slippage : SlippageSettings
default_slippage = record {
  default_max_pct = cents 30;
  per_asset_max_pct = ("BTC", cents 15) ∷ ("ETH", cents 20) ∷ [];
  per_venue_max_pct = [];
  per_route_max_pct = [];
  size_tiers = (dec 100, cents 50) ∷ (dec 1000, cents 30) ∷ (dec 10000, cents 15) ∷ [];
  dex_slippage_tolerance_pct = cents 50;
}

abbrev pub default_flash_loan : FlashLoanSettings
default_flash_loan = record {
  enabled = false;
  provider = "auto";
  max_loan_usd = dec 25000;
  min_net_profit_usd = dec 10;
  max_gas_usd = dec 2;
  max_gas_pct_of_gross = dec 10;
  max_slippage_bps = 30;
  min_profit_gas_ratio = dec 5;
  require_simulation = true;
  require_atomic = true;
  mev_aware = true;
  mev_reserve_pct = cents 5;
  chains = "ethereum" ∷ "arbitrum" ∷ "base" ∷ "optimism" ∷ "polygon" ∷ [];
}

abbrev pub default_live : LiveActivationState
default_live = record {
  activated = false;
  stage = "small_test";
  small_test_strategy = "cex_cex";
  small_test_route = none;
}

-- `AppSettings()`
abbrev pub default_app_settings : AppSettings
default_app_settings = record {
  general = default_general;
  trading = default_trading;
  risk = default_risk;
  gas = default_gas;
  slippage = default_slippage;
  flash_loan = default_flash_loan;
  live = default_live;
}

-- `TradingMode(x)` where `x` is the value of a mode, and otherwise the paper mode
unfoldable pub mode_of : String → TradingMode
mode_of x =
    if x == "simulation"
    then simulation
    else if x == "testnet"
    then testnet
    else if x == "live"
    then live
    else paper

-- live can never be a boot default
abbrev pub boot_mode : TradingMode → TradingMode
boot_mode live = paper
boot_mode simulation = simulation
boot_mode paper = paper
boot_mode testnet = testnet

-- `default_settings`
unfoldable pub default_settings : String → AppSettings
default_settings default_mode = apply_risk_profile conservative (record default_app_settings {
  general = record default_general { mode = boot_mode (mode_of default_mode) };
})

boot_mode-not_live : (m : TradingMode) → boot_mode m ≢ live
boot_mode-not_live simulation h = ground arith
boot_mode-not_live paper h = ground arith
boot_mode-not_live testnet h = ground arith
boot_mode-not_live live h = ground arith

-- Whatever text the environment gives as the mode, the program never starts in live mode.
pub default_settings-not_live : (x : String) → (default_settings x).general.mode ≢ live
unfolding default_settings apply_risk_profile
default_settings-not_live x = boot_mode-not_live (mode_of x)
