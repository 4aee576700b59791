-- ===== src/Profit/Tests.antt =====
-- The profit guard of engine/profit_guard.py.
use fedr.Base.{inl, ◌≡◌, refl, String, true, false, none, some, [], arith}
use fedr.Int.{◌-ℤ◌, pos, ◌+ℤ◌, ◌≤ℤ◌}
use fedr.Decimal.{Decimal, cents, dec, zero_dec, unit, mul, div, pct, pct_of, round_div}
use fedr.Ledger.{OrderSide}
use fedr.Models.{blocked, age_ms, ExecutionQuote, VenueKind, cex, dex, safe_to_execute}
use fedr.Settings.Defaults.{default_app_settings, default_trading}
use fedr.Profit.{ProfitGuardInputs, Costs, no_costs, total}
use fedr.Profit.Assess.{
  trade_size, depth_reasons, age_reasons, flash_reasons, extreme_reasons, unknown_reasons,
  from_keys, by_regime, min_profit, min_worst, min_reasons, gas_share_reasons, ratio_reasons,
  all_costs, leg_costs, notional_at, is_on_chain,
}
use fedr.Profit.Steps.{
  gas_reasons, attribute_leg, charge_flash_loan, charge_buffer, charge_allowances, charge_atomic,
  charge_funding, charge_gas, charge_round_trips, charge_transfers, attribute_cex_leg,
  attribute_dex_leg,
}
use fedr.Profit.Verdict.{assess, assess_at, reasons_at, roi_at, capital_needed}
use fedr.Profit.Unknown.{HasUnknownFee, assess-unknown_fee}
use fedr.Profit.Safety.{IsSafe, assess-IsSafe}
use fedr.Profit.Attribution.{execution_cost, attribute_leg-cost}

abbrev quote : String → VenueKind → OrderSide → Decimal → Decimal → ExecutionQuote
quote venue kind side avg_price reference_price = record {
  venue = venue;
  kind = kind;
  symbol = "ETH/USDC";
  side = side;
  base_amount = dec 1;
  quote_amount = avg_price;
  avg_price = avg_price;
  reference_price = reference_price;
  slippage_pct = zero_dec;
  price_impact_pct = cents 1;
  fully_fillable = true;
  market_ts_ms = 1000;
  quote_ts_ms = 1200;
  fee_pct = some (cents 10);
  fee_in_quote = none;
  chain = none;
  depth_available_base = dec 3;
  is_maker = false;
  taker_fee_pct = none;
  levels_consumed = 1;
  gas_limit = none;
  min_received = none;
}

abbrev inputs : ProfitGuardInputs
inputs = record {
  buy = quote "kraken" cex OrderSide.buy (dec 2001) (dec 2000);
  sell = quote "coinbase" cex OrderSide.sell (dec 2039) (dec 2040);
  settings = default_app_settings;
  gas = none;
  quote_usd_rate = dec 1;
  experience_extra_pct = zero_dec;
  flash_loan = none;
  funding_cost_usd = zero_dec;
  bridge_fee_usd = some zero_dec;
  withdrawal_fee_usd = some zero_dec;
  deposit_fee_usd = some zero_dec;
  stablecoin_haircut_pct = zero_dec;
  round_trips = 1;
}

inputs-safe : (assess inputs 2000).decision ≡ safe_to_execute
unfolding assess trade_size assess_at reasons_at depth_reasons age_reasons age_ms gas_reasons
    is_on_chain flash_reasons extreme_reasons unknown_reasons from_keys all_costs leg_costs
    charge_flash_loan charge_buffer charge_allowances charge_atomic charge_funding charge_gas
    charge_round_trips charge_transfers attribute_leg attribute_cex_leg attribute_dex_leg
    notional_at total mul pct pct_of div round_div ◌+ℤ◌ ◌-ℤ◌ cents unit by_regime min_profit
    min_worst min_reasons gas_share_reasons ratio_reasons roi_at capital_needed
inputs-safe = refl

assess-IsSafe_example : IsSafe inputs 2000 (assess inputs 2000)
assess-IsSafe_example = assess-IsSafe inputs 2000 inputs-safe

abbrev pool_leg : ExecutionQuote
pool_leg = quote "uniswap-base" dex OrderSide.buy (dec 2001) (dec 2000)

abbrev nothing_yet : Costs
nothing_yet = record { exp = no_costs; wc = no_costs; unknown = [] }

zero_le_three : pos 0 ≤ℤ dec 3
unfolding unit
zero_le_three = omega arith

attribute_leg-cost_example :
    execution_cost (attribute_leg default_trading pool_leg (dec 2000) (dec 3) true nothing_yet).exp
    ≡ execution_cost no_costs +ℤ dec 3
attribute_leg-cost_example =
    attribute_leg-cost default_trading pool_leg (dec 2000) (dec 3) true nothing_yet zero_le_three

abbrev unpriced : ExecutionQuote
unpriced = record (quote "kraken" cex OrderSide.buy (dec 2001) (dec 2000)) { fee_pct = none }

abbrev unpriced_inputs : ProfitGuardInputs
unpriced_inputs = record inputs { buy = unpriced }

unpriced-HasUnknownFee : HasUnknownFee default_trading unpriced
unpriced-HasUnknownFee = record {
  off_chain = refl;
  not_stated = refl;
  no_rate = refl;
  no_fallback = refl;
}

assess-unknown_fee_example : (assess unpriced_inputs 2000).decision ≡ blocked
assess-unknown_fee_example = assess-unknown_fee unpriced_inputs 2000 (inl unpriced-HasUnknownFee)
