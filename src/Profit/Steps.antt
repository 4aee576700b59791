-- ===== src/Profit/Steps.antt =====
-- The steps by which `assess` of engine/profit_guard.py fills the two cost breakdowns.
use fedr.Base.{
  ℕ, Bool, true, false, ◌&&◌, Option, none, some, List, [], ◌∷◌, ◌++◌, map, if◌then◌else◌, when,
  is_none, or_else, ltb, ◌==◌,
}
use fedr.Int.{◌+ℤ◌, ◌-ℤ◌, ltb_ℤ, eqb_ℤ, min_ℤ, max_ℤ}
use fedr.Decimal.{Decimal, zero_dec, dec, cents, mul, div, pct_of}
use fedr.Models.{ExecutionQuote, VenueKind, dex}
use fedr.Settings.{AppSettings, TradingSettings}
use fedr.Guards.Gas.{GasAssessment}
use fedr.Profit.{Costs, CostBreakdown, CostName, FlashLoanTerms, Reason, gas_fallback, gas_guard}

abbrev pub is_dex : VenueKind → Bool
is_dex dex = true
is_dex _ = false

-- The pool's fee in the deviation, if the fee is known.
abbrev pub dex_fee_part : Option Decimal → Decimal → Decimal → Decimal
dex_fee_part none notional_ref deviation = zero_dec
dex_fee_part (some fee_pct) notional_ref deviation = min_ℤ deviation (pct_of notional_ref fee_pct)

abbrev pub impact_part : Decimal → Decimal → Decimal → Decimal
impact_part price_impact_pct notional_ref left =
    if ltb_ℤ zero_dec price_impact_pct
    then min_ℤ left (pct_of notional_ref price_impact_pct)
    else zero_dec

unfoldable pub attribute_dex_leg :
    TradingSettings → ExecutionQuote → Decimal → Decimal → Costs → Costs
attribute_dex_leg t leg notional_ref deviation c =
    let fee_part = dex_fee_part leg.fee_pct notional_ref deviation in
    let impact = impact_part leg.price_impact_pct notional_ref (deviation -ℤ fee_part) in
    let residual = max_ℤ zero_dec (deviation -ℤ fee_part -ℤ impact) in
    record {
      exp = record c.exp {
        dex_swap_fee = c.exp.dex_swap_fee +ℤ fee_part;
        price_impact = c.exp.price_impact +ℤ impact;
        slippage = c.exp.slippage +ℤ residual;
      };
      wc = record c.wc {
        dex_swap_fee = c.wc.dex_swap_fee +ℤ mul fee_part t.worst_case_fee_multiplier;
        price_impact = c.wc.price_impact +ℤ mul impact t.worst_case_slippage_multiplier;
        slippage = c.wc.slippage +ℤ mul residual t.worst_case_slippage_multiplier;
      };
      unknown =
          c.unknown
          ++ when (is_none leg.fee_pct && eqb_ℤ deviation zero_dec && is_none leg.fee_in_quote)
              CostName.dex_swap_fee;
    }

-- The fee of an exchange's leg: stated in the quote, by its rate, by the fallback rate, or unknown.
abbrev pub cex_fee :
    Option Decimal → Option Decimal → Option Decimal → Decimal → Decimal → Option Decimal
cex_fee (some fee) rate fallback executed notional_ref = some fee
cex_fee none (some rate) fallback executed notional_ref = some (pct_of executed rate)
cex_fee none none (some rate) executed notional_ref = some (pct_of notional_ref rate)
cex_fee none none none executed notional_ref = none

-- If a maker's leg converts to a taker's, the difference of the rates is a cost.
abbrev pub maker_taker_diff : Bool → Option Decimal → Option Decimal → Decimal → Decimal
maker_taker_diff false rate taker notional_ref = zero_dec
maker_taker_diff true none taker notional_ref = zero_dec
maker_taker_diff true (some rate) taker notional_ref =
    pct_of (max_ℤ zero_dec (or_else taker rate -ℤ rate)) notional_ref

abbrev add_trading_fee : Bool → Decimal → CostBreakdown → CostBreakdown
add_trading_fee true x b = record b { buy_trading_fee = b.buy_trading_fee +ℤ x }
add_trading_fee false x b = record b { sell_trading_fee = b.sell_trading_fee +ℤ x }

abbrev fee_name : Bool → CostName
fee_name true = CostName.buy_trading_fee
fee_name false = CostName.sell_trading_fee

unfoldable pub attribute_cex_leg :
    TradingSettings → ExecutionQuote → Decimal → Decimal → Bool → Costs → Costs
attribute_cex_leg t leg notional_ref deviation is_buy c =
    let executed = if is_buy then notional_ref +ℤ deviation else notional_ref -ℤ deviation in
    let stated =
      cex_fee leg.fee_in_quote leg.fee_pct t.unknown_fee_fallback_pct executed notional_ref in
    let fee = or_else stated zero_dec in
    let diff = maker_taker_diff leg.is_maker leg.fee_pct leg.taker_fee_pct notional_ref in
    let e = add_trading_fee is_buy fee c.exp in
    let w = add_trading_fee is_buy (mul fee t.worst_case_fee_multiplier) c.wc in
    record {
      exp = record e {
        slippage = e.slippage +ℤ deviation;
        maker_taker_adjustment = e.maker_taker_adjustment +ℤ diff;
      };
      wc = record w {
        slippage = w.slippage +ℤ mul deviation t.worst_case_slippage_multiplier;
        maker_taker_adjustment = w.maker_taker_adjustment +ℤ diff;
      };
      unknown = c.unknown ++ when (is_none stated) (fee_name is_buy);
    }

unfoldable pub attribute_leg :
    TradingSettings → ExecutionQuote → Decimal → Decimal → Bool → Costs → Costs
attribute_leg t leg notional_ref deviation is_buy c =
    if is_dex leg.kind
    then attribute_dex_leg t leg notional_ref deviation c
    else attribute_cex_leg t leg notional_ref deviation is_buy c

-- ---- gas: the costs, and the reasons that are given with them
unfoldable pub charge_gas : AppSettings → Option GasAssessment → Bool → Costs → Costs
charge_gas s gas false c = c
charge_gas s none true c =
    let fallback = s.gas.conservative_gas_fallback_usd in
    if s.gas.unknown_gas_policy == "conservative_fallback"
    then record c {
      exp = record c.exp { gas = fallback };
      wc = record c.wc { gas = mul fallback s.gas.stress_multiplier };
    }
    else record c { unknown = c.unknown ++ CostName.gas ∷ [] }
charge_gas s (some g) true c = record c {
  exp = record c.exp { gas = g.expected_gas_cost_usd; priority_fee = g.priority_fee_usd };
  wc = record c.wc {
    gas = g.stress_gas_cost_usd;
    priority_fee = mul g.priority_fee_usd s.gas.stress_multiplier;
  };
}

unfoldable pub gas_reasons : AppSettings → Option GasAssessment → Bool → List Reason
gas_reasons s gas false = []
gas_reasons s none true =
    when (s.gas.unknown_gas_policy == "conservative_fallback")
      (gas_fallback s.gas.conservative_gas_fallback_usd)
gas_reasons s (some g) true = if g.passed then [] else map gas_guard g.reasons

-- ---- transfers: an unknown fee leaves its field at 0
abbrev unknown_if : Option Decimal → CostName → List CostName
unknown_if fee name = when (is_none fee) name

unfoldable pub charge_transfers : Option Decimal → Option Decimal → Option Decimal → Costs → Costs
charge_transfers bridge withdrawal deposit c = record {
  exp = record c.exp {
    bridge_fee = or_else bridge c.exp.bridge_fee;
    withdrawal_fee = or_else withdrawal c.exp.withdrawal_fee;
    deposit_fee = or_else deposit c.exp.deposit_fee;
  };
  wc = record c.wc {
    bridge_fee = or_else bridge c.wc.bridge_fee;
    withdrawal_fee = or_else withdrawal c.wc.withdrawal_fee;
    deposit_fee = or_else deposit c.wc.deposit_fee;
  };
  unknown =
      c.unknown
      ++ (unknown_if bridge CostName.bridge_fee
          ++ (unknown_if withdrawal CostName.withdrawal_fee
              ++ unknown_if deposit CostName.deposit_fee));
}

unfoldable pub charge_funding : TradingSettings → Decimal → Costs → Costs
charge_funding t funding c = record c {
  exp = record c.exp { funding = funding };
  wc = record c.wc {
    funding =
        if ltb_ℤ zero_dec funding
        then mul funding t.worst_case_fee_multiplier
        else div funding (dec 2);
  };
}

-- ---- a strategy that also unwinds pays its execution costs again
abbrev repeated : Decimal → CostBreakdown → CostBreakdown
repeated n b = record b {
  buy_trading_fee = mul b.buy_trading_fee n;
  sell_trading_fee = mul b.sell_trading_fee n;
  dex_swap_fee = mul b.dex_swap_fee n;
  slippage = mul b.slippage n;
  price_impact = mul b.price_impact n;
}

unfoldable pub charge_round_trips : ℕ → Costs → Costs
charge_round_trips n c =
    if ltb 1 n then record c { exp = repeated (dec n) c.exp; wc = repeated (dec n) c.wc } else c

-- ---- allowances
unfoldable pub charge_atomic : AppSettings → Decimal → Costs → Costs
charge_atomic s notional c =
    let tol = div (mul notional (dec s.flash_loan.max_slippage_bps)) (dec 10000) in
    record c {
      exp = record c.exp {
        rebalance_allowance = zero_dec;
        latency_allowance = zero_dec;
        partial_fill_allowance = zero_dec;
        failure_reserve = mul c.wc.gas (cents 50);
      };
      wc = record c.wc {
        rebalance_allowance = zero_dec;
        latency_allowance = zero_dec;
        partial_fill_allowance = zero_dec;
        failure_reserve = c.wc.gas;
        slippage = c.wc.slippage +ℤ tol;
      };
    }

unfoldable pub charge_allowances : TradingSettings → Decimal → Bool → Costs → Costs
charge_allowances t notional on_chain c =
    let rebalance = pct_of notional t.rebalance_allowance_pct in
    let latency = pct_of notional t.latency_allowance_pct in
    let partial = pct_of notional t.partial_fill_allowance_pct in
    let failure = pct_of notional t.failure_reserve_pct in
    record c {
      exp = record c.exp {
        rebalance_allowance = rebalance;
        latency_allowance = latency;
        partial_fill_allowance = partial;
        failure_reserve = failure;
      };
      wc = record c.wc {
        rebalance_allowance = rebalance;
        latency_allowance = mul latency (dec 2);
        partial_fill_allowance = mul partial (dec 2);
        failure_reserve = mul failure (dec 2) +ℤ (if on_chain then c.wc.gas else zero_dec);
      };
    }

unfoldable pub charge_buffer : TradingSettings → Decimal → Decimal → Decimal → Costs → Costs
charge_buffer t notional experience haircut c =
    let buffer_pct = t.safety_buffer_pct +ℤ max_ℤ zero_dec experience +ℤ haircut in
    let buffer = pct_of notional buffer_pct in
    record c {
      exp = record c.exp { safety_buffer = buffer };
      wc = record c.wc { safety_buffer = buffer };
    }

-- ---- flash loan
unfoldable pub charge_flash_loan : AppSettings → Decimal → Option FlashLoanTerms → Costs → Costs
charge_flash_loan s notional none c = c
charge_flash_loan s notional (some fl) c =
    let fee = pct_of fl.loan_amount_usd fl.fee_pct in
    let mev_pct = if s.flash_loan.mev_aware then s.flash_loan.mev_reserve_pct else zero_dec in
    let mev = pct_of notional mev_pct in
    record c {
      exp = record c.exp { flash_loan_fee = fee; mev_reserve = mev };
      wc = record c.wc { flash_loan_fee = fee; mev_reserve = mul mev (dec 2) };
    }
