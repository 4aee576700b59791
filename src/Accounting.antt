-- ===== src/Accounting.antt =====
-- engine/accounting.py: what a trade has really earned, against its estimate.
pub mod Laws
mod Tests
use fedr.Base.{Bool, true, false, not, Option, none, some, if◌then◌else◌}
use fedr.Int.{ℤ, ◌+ℤ◌, ◌-ℤ◌, eqb_ℤ, min_ℤ}
use fedr.Decimal.{abs, Decimal, zero_dec, mul}
use fedr.Ledger.{OrderSide, buy, sell}
use fedr.Profit.{CostBreakdown}
use fedr.Orders.{OrderResult, OrderRequest, TradeRecord, TradeStatus, quote_amount}

pub record TradeOutcome : Type 0 where
  pub actual_gross : Decimal
  pub trading_fees : Decimal
  pub gas : Decimal
  pub funding : Decimal
  pub actual_net : Decimal
  pub prediction_error : Decimal
  pub slippage_variance : Decimal
  pub fee_variance : Decimal
  pub gas_variance : Decimal
  pub matched_base : Decimal
  pub unmatched_base : Decimal

pub record LegValue : Type 0 where
  pub base : Decimal
  pub quote : Decimal
  pub fee : Decimal
  pub gas : Decimal

-- `_leg_value`
unfoldable pub leg_value : Option OrderResult → LegValue
leg_value none = record { base = zero_dec; quote = zero_dec; fee = zero_dec; gas = zero_dec }
leg_value (some leg) = record {
  base = leg.filled;
  quote = quote_amount leg;
  fee = leg.fee_quote;
  gas = leg.gas_cost_usd;
}

-- `x` if the hedge sells, `-x` if it buys, and 0 if there is none
abbrev pub signed : OrderSide → Decimal → Decimal
signed sell x = x
signed buy x = zero_dec -ℤ x

abbrev pub hedge_sign : Option OrderResult → Decimal → Decimal
hedge_sign none x = zero_dec
hedge_sign (some h) x = signed h.request.side x

abbrev sold : OrderSide → Decimal → Decimal
sold sell x = x
sold buy x = zero_dec

abbrev hedge_sold : Option OrderResult → Decimal → Decimal
hedge_sold none x = zero_dec
hedge_sold (some h) x = sold h.request.side x

-- The deviation of the average price, if it is there and not 0, from the price that was quoted.
abbrev pub deviation : OrderSide → Option Decimal → Option Decimal → Decimal → Decimal
deviation side none quoted base = zero_dec
deviation side (some avg) none base = zero_dec
deviation buy (some avg) (some quoted) base =
    if eqb_ℤ avg zero_dec then zero_dec else mul (avg -ℤ quoted) base
deviation sell (some avg) (some quoted) base =
    if eqb_ℤ avg zero_dec then zero_dec else mul (quoted -ℤ avg) base

abbrev leg_deviation : OrderSide → Option OrderResult → Decimal
leg_deviation side none = zero_dec
leg_deviation side (some leg) = deviation side leg.avg_price leg.request.quoted_price leg.filled

unfoldable pub compute_outcome : TradeRecord → Decimal → CostBreakdown → TradeOutcome
compute_outcome tr quote_usd_rate est =
    let b = leg_value tr.buy in
    let s = leg_value tr.sell in
    let h = leg_value tr.hedge in
    let gross =
      mul (s.quote -ℤ b.quote) quote_usd_rate +ℤ mul (hedge_sign tr.hedge h.quote) quote_usd_rate in
    let fees = mul (b.fee +ℤ s.fee +ℤ h.fee) quote_usd_rate in
    let gas = b.gas +ℤ s.gas +ℤ h.gas in
    let net = gross -ℤ fees -ℤ gas -ℤ zero_dec in
    let est_fees = est.buy_trading_fee +ℤ est.sell_trading_fee +ℤ est.dex_swap_fee in
    let est_gas = est.gas +ℤ est.priority_fee in
    let slip_var = leg_deviation buy tr.buy +ℤ leg_deviation sell tr.sell in
    record {
      actual_gross = gross;
      trading_fees = fees;
      gas = gas;
      funding = zero_dec;
      actual_net = net;
      prediction_error = tr.estimated_net -ℤ net;
      slippage_variance = mul slip_var quote_usd_rate;
      fee_variance = fees -ℤ est_fees;
      gas_variance = gas -ℤ est_gas;
      matched_base = min_ℤ b.base (s.base +ℤ hedge_sold tr.hedge h.base);
      unmatched_base = abs (b.base -ℤ s.base -ℤ hedge_sign tr.hedge h.base);
    }

-- The states that `apply_outcome` leaves as they are.
abbrev pub is_settled : TradeStatus → Bool
is_settled TradeStatus.failed = true
is_settled TradeStatus.aborted = true
is_settled TradeStatus.recovering = true
is_settled TradeStatus.hedged = true
is_settled _ = false

unfoldable pub apply_outcome : TradeRecord → TradeOutcome → TradeRecord
apply_outcome tr out = record tr {
  actual_gross = some out.actual_gross;
  actual_fees = some out.trading_fees;
  actual_gas = some out.gas;
  actual_net = some out.actual_net;
  prediction_error = some out.prediction_error;
  status =
      if is_settled tr.status
      then tr.status
      else if eqb_ℤ out.unmatched_base zero_dec
      then TradeStatus.filled
      else TradeStatus.partial;
}
