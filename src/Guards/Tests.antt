-- ===== src/Guards/Tests.antt =====
-- The guards of engine/slippage_guard.py, engine/latency_guard.py and engine/gas_guard.py.
use fedr.Base.{◌≡◌, refl, true, false, none, some, [], ◌∷◌, arith}
use fedr.Int.{◌-ℤ◌, pos, ◌+ℤ◌, ◌≤ℤ◌}
use fedr.Decimal.{round_div, unit, mul, div, pct, cents, dec, zero_dec}
use fedr.Dict.{lookup}
use fedr.Ledger.{OrderSide}
use fedr.Models.{chain_value, ExecutionQuote, Chain, cex}
use fedr.Settings.Defaults.{default_gas, default_slippage}
use fedr.Guards.{limit_for, first_tier, sort_tiers, insert_tier}
use fedr.Guards.Gas.{
  assess_snapshot, estimate_cost_usd, price_reasons, cost_reasons, priority_usd, regime_of,
  GasSnapshot, GasBaseline, regime, assess,
}
use fedr.Guards.GasLaws.{IsAffordable, assess-IsAffordable}
use fedr.Guards.Limits.{IsCappedBy, limit_for-IsCappedBy}

abbrev leg : ExecutionQuote
leg = record {
  venue = "kraken";
  kind = cex;
  symbol = "BTC/USDC";
  side = OrderSide.buy;
  base_amount = cents 1;
  quote_amount = dec 600;
  avg_price = dec 60006;
  reference_price = dec 60000;
  slippage_pct = cents 1;
  price_impact_pct = zero_dec;
  fully_fillable = true;
  market_ts_ms = 1000;
  quote_ts_ms = 1200;
  fee_pct = some (cents 26);
  fee_in_quote = none;
  chain = none;
  depth_available_base = dec 2;
  is_maker = false;
  taker_fee_pct = none;
  levels_consumed = 1;
  gas_limit = none;
  min_received = none;
}

limit_for-IsCappedBy_example :
    let limit = limit_for default_slippage "BTC" "kraken" "kraken->coinbase" (dec 600) in
    (limit ≤ℤ cents 30)
    × IsCappedBy limit (lookup "BTC" default_slippage.per_asset_max_pct)
    × IsCappedBy limit (lookup "kraken" default_slippage.per_venue_max_pct)
    × IsCappedBy limit (lookup "kraken->coinbase" default_slippage.per_route_max_pct)
    × IsCappedBy limit (first_tier (dec 600) (sort_tiers default_slippage.size_tiers))
limit_for-IsCappedBy_example =
    limit_for-IsCappedBy default_slippage "BTC" "kraken" "kraken->coinbase" (dec 600)

limit_of_bitcoin : limit_for default_slippage "BTC" "kraken" "kraken->coinbase" (dec 600) ≡ cents 15
unfolding limit_for sort_tiers first_tier lookup cents insert_tier
limit_of_bitcoin = refl

abbrev baseline : GasBaseline
baseline = record { alpha = cents 5; baseline = ("base", dec 10) ∷ []; samples = ("base", 1) ∷ [] }

zero_le_12 : pos 0 ≤ℤ dec 12
unfolding unit
zero_le_12 = omega arith

le_12_30 : dec 12 ≤ℤ dec 30
unfolding unit
le_12_30 = omega arith

abbrev snapshot : GasSnapshot
snapshot = record {
  chain = Chain.base;
  gas_price_native = dec 10;
  priority_fee_native = dec 1;
  native_usd = dec 3000;
  l1_data_fee_usd = cents 2;
  base_fee_lamports = 0;
  ts_ms = 5000;
}

passes : (assess default_gas baseline 6000 (some snapshot) 21000 (dec 20) none none 1).passed ≡ true
unfolding assess assess_snapshot estimate_cost_usd price_reasons cost_reasons priority_usd regime
    regime_of unit cents lookup mul div pct ◌-ℤ◌ ◌+ℤ◌ round_div chain_value
passes = refl

assess-IsAffordable_example :
    (snap : GasSnapshot) × (some snapshot ≡ some snap)
    × IsAffordable default_gas 6000 snap 21000
        (dec 20)
        none
        none
        (assess default_gas baseline 6000 (some snapshot) 21000 (dec 20) none none 1)
assess-IsAffordable_example =
    assess-IsAffordable default_gas baseline 6000 (some snapshot) 21000 (dec 20) none none 1 passes
