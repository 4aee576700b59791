-- ===== src/Risk/Tests.antt =====
-- The risk engine of engine/risk_engine.py.
use fedr.Base.{◌≡◌, refl, String, true, false, some, none, [], ◌∷◌, ◌==◌, Option, if◌then◌else◌}
use fedr.Int.{pos, ◌+ℤ◌, ◌-ℤ◌}
use fedr.Decimal.{Decimal, cents, dec, zero_dec, unit, mul, div, pct, round_div}
use fedr.Dict.{lookup}
use fedr.Ledger.{OrderSide}
use fedr.Models.{ExecutionQuote, Strategy, cex, live, healthy, age_ms, strategy_value}
use fedr.Settings.{AppSettings}
use fedr.Settings.Defaults.{default_app_settings, default_general, default_live}
use fedr.Risk.{
  PortfolioState, RiskRequest, stage_reasons, small_test_reasons, size_reasons, state_reasons,
  request_reasons,
}
use fedr.Risk.Score.{
  to_int, of_int, exposure_reasons, capital_reasons, balance_reasons, reserve_reasons, all_health,
  slip_total, usage_score, soft_score,
}
use fedr.Risk.Verdict.{assess, refusals, score_of}
use fedr.Risk.Safety.{IsWithinLimits, IsSmallTest, assess-IsWithinLimits, assess-IsSmallTest}

abbrev quote : String → OrderSide → Decimal → ExecutionQuote
quote venue side price = record {
  venue = venue;
  kind = cex;
  symbol = "ETH/USDC";
  side = side;
  base_amount = cents 1;
  quote_amount = div price (dec 100);
  avg_price = price;
  reference_price = price;
  slippage_pct = cents 1;
  price_impact_pct = zero_dec;
  fully_fillable = true;
  market_ts_ms = 1000;
  quote_ts_ms = 1200;
  fee_pct = some (cents 10);
  fee_in_quote = none;
  chain = none;
  depth_available_base = dec 3;
  is_maker = false;
  taker_fee_pct = none;
  levels_consumed = 1;
  gas_limit = none;
  min_received = none;
}

abbrev request : RiskRequest
request = record {
  strategy = Strategy.cex_cex;
  buy = quote "kraken" OrderSide.buy (dec 2000);
  sell = quote "coinbase" OrderSide.sell (dec 2040);
  base = "ETH";
  quote = "USDC";
  notional_usd = dec 20;
  capital_required_usd = dec 20;
  gas_usd = zero_dec;
  flash_loan_usd = none;
}

abbrev holds : String → String → Option Decimal
holds venue asset =
    if asset == "USDC" then some (dec 500) else if asset == "ETH" then some (dec 1) else none

abbrev portfolio : PortfolioState
portfolio = record {
  total_capital_usd = dec 5000;
  exposure_by_venue_usd = ("kraken", dec 1000) ∷ [];
  exposure_by_chain_usd = [];
  exposure_by_asset_usd = [];
  open_trades = pos 0;
  daily_realized_pnl_usd = zero_dec;
  failed_trades_last_hour = pos 0;
  venue_health = ("kraken", healthy) ∷ ("coinbase", healthy) ∷ [];
  available_balances = holds;
  unhedged_seconds = pos 0;
  active_breakers = [];
  gas_reserve_ok = [];
}

abbrev live_settings : AppSettings
live_settings = record default_app_settings {
  general = record default_general { mode = live };
  live = record default_live { activated = true; small_test_route = some "kraken->coinbase" };
}

request-passes : (assess live_settings request portfolio 2000).passed ≡ true
unfolding assess refusals score_of stage_reasons small_test_reasons size_reasons state_reasons
    request_reasons to_int of_int exposure_reasons capital_reasons balance_reasons reserve_reasons
    all_health slip_total usage_score soft_score age_ms strategy_value lookup mul div pct round_div
    ◌+ℤ◌ ◌-ℤ◌ cents unit
request-passes = refl

assess-IsWithinLimits_example :
    IsWithinLimits live_settings request portfolio
      (assess live_settings request portfolio 2000).score
assess-IsWithinLimits_example =
    assess-IsWithinLimits live_settings request portfolio 2000 request-passes

assess-IsSmallTest_example : IsSmallTest live_settings.live request
assess-IsSmallTest_example =
    assess-IsSmallTest live_settings request portfolio 2000 refl refl request-passes
