-- ===== src/Executor/Settling.antt =====
-- `_as_result`, `_note_dex_failures`, `_recover` and `_post_trade` of engine/execution/executor.py. The
-- breakers' details are texts for people, and only their fixed parts are kept.
use fedr.Base.{
  ℕ, ◌+◌, String, Bool, true, false, not, ◌&&◌, Option, none, some, if◌then◌else◌, is_none, leb,
  or_else, ◌==◌,
}
use Prim.Native.String.{◌++◌ as append}
use fedr.Int.{pos_part, ◌+ℤ◌, ◌-ℤ◌, ltb_ℤ, leb_ℤ, eqb_ℤ}
use fedr.Decimal.{Decimal, zero_dec, dec, cents, mul, div, abs}
use fedr.Models.{Chain, chain_value}
use fedr.Breakers.{
  CircuitBreakerManager, CircuitBreakerReason, trip, record_event, record_and_check,
  repeated_order_failure, dex_tx_failure, one_leg_fill, daily_loss_limit, prediction_error,
  abnormal_slippage, unexpected_fees,
}
use fedr.Orders.{
  OrderRequest, OrderResult, OrderStatus, TradeRecord, TradeStatus, Venue, blank_result, raised,
}
use fedr.Paper.Leg.{is_dex}
use fedr.Accounting.{TradeOutcome, hedge_sign}
use fedr.Experience.{ExperienceEngine, Sample, record_sample}
use fedr.Executor.{Engine, Opportunity, Outside}

-- `_as_result`: an exception or a timeout is a failed order that fills nothing
unfoldable pub as_result : Option OrderResult → OrderRequest → OrderResult
as_result (some r) req = r
as_result none req = blank_result req OrderStatus.failed (some raised)

-- `await ctx.breakers.trip(reason, detail)`, where the condition holds
unfoldable pub trip_if :
    Bool → CircuitBreakerReason → String → ℕ → CircuitBreakerManager → CircuitBreakerManager
trip_if true reason detail now_ms m = (trip reason detail now_ms "global" true m).0
trip_if false reason detail now_ms m = m

-- `record_and_check("order_failures", ...)` with its window of an hour, after one more failed trade
unfoldable pub count_failure : Outside → String → Engine → Engine
count_failure o detail e =
    let n = e.settings.risk.max_failed_trades_per_hour in
    record e {
      failed_trades_last_hour = e.failed_trades_last_hour + 1;
      breakers =
          (record_and_check (λ d _. d) "order_failures" (pos_part n) repeated_order_failure detail
            "global" 3600 o.now_s o.now_ms e.breakers).0;
    }

abbrev pub is_refused : OrderStatus → Bool
is_refused OrderStatus.failed = true
is_refused OrderStatus.rejected = true
is_refused _ = false

unfoldable pub chain_failed : Outside → String → CircuitBreakerManager → CircuitBreakerManager
chain_failed o chain m =
    let (m', n) = record_event (append "dex_fail:" chain) 600 o.now_s m in
    if leb 2 n
    then (trip dex_tx_failure "DEX transaction failures" o.now_ms (append "chain:" chain) true m').0
    else m'

abbrev pub note_leg :
    Outside → OrderResult → Bool → Option Chain → CircuitBreakerManager → CircuitBreakerManager
note_leg o r on_dex none m = m
note_leg o r on_dex (some chain) m =
    let m' = chain_failed o (chain_value chain) m in
    if on_dex && is_refused r.status && eqb_ℤ r.filled zero_dec then m' else m

-- `_note_dex_failures`
unfoldable pub note_dex_failures :
    Outside → OrderResult → OrderResult → Venue → Venue → Engine → Engine
note_dex_failures o buy sell buy_v sell_v e = record e {
  breakers =
      note_leg o sell (is_dex sell_v.kind) sell_v.chain
        (note_leg o buy (is_dex buy_v.kind) buy_v.chain e.breakers);
}

abbrev hedge_filled : Option OrderResult → Decimal
hedge_filled none = zero_dec
hedge_filled (some h) = h.filled

-- The hedge is good if it leaves at most two percent of the exposure.
abbrev pub is_neutral : Option OrderResult → Decimal → Bool
is_neutral hedge exposure =
    not (is_none hedge)
    && leb_ℤ (abs (exposure -ℤ hedge_sign hedge (hedge_filled hedge)))
        (mul (abs exposure) (cents 2))

-- `_recover`
unfoldable pub recover : Outside → String → Decimal → TradeRecord → Engine → TradeRecord × Engine
recover o pair exposure tr e =
    let (l, hedge) =
      o.hedge (record tr { status = TradeStatus.recovering }) pair exposure e.ledger in
    let neutral = is_neutral hedge exposure in
    (
      record tr {
        hedge = hedge;
        status = if neutral then TradeStatus.hedged else TradeStatus.recovering;
      },
      count_failure o "repeated leg failures" (record e {
        ledger = l;
        unhedged_since_ms = if neutral then none else some o.now_ms;
        breakers =
            trip_if (not neutral) one_leg_fill "the emergency hedge could not neutralise" o.now_ms
              e.breakers;
      }),
    )

abbrev pub is_executed : TradeStatus → Bool
is_executed TradeStatus.filled = true
is_executed TradeStatus.partial = true
is_executed TradeStatus.hedged = true
is_executed _ = false

-- more than `limit` percent of the notional
abbrev exceeds : Decimal → Decimal → Decimal → Bool
exceeds x notional limit = ltb_ℤ limit (mul (div x notional) (dec 100))

unfoldable pub check_variances : Outside → TradeOutcome → Bool → Decimal → Engine → Engine
check_variances o out executed notional e =
    let s = e.settings in
    let known = executed && ltb_ℤ zero_dec notional in
    let slip = out.slippage_variance in
    let fee = out.fee_variance in
    record e {
      breakers =
          trip_if (known && ltb_ℤ zero_dec fee && exceeds fee notional (cents 20)) unexpected_fees
            "fees exceeded the estimate" o.now_ms
            (trip_if (known && ltb_ℤ zero_dec slip && exceeds slip notional s.risk.max_slippage_pct)
              abnormal_slippage "realized slippage exceeds the limit" o.now_ms
              (trip_if
                (known
                  && exceeds (abs out.prediction_error) notional s.risk.max_prediction_error_pct)
                prediction_error "prediction error" o.now_ms e.breakers));
    }

unfoldable pub check_daily_loss : Outside → Decimal → Engine → Engine
check_daily_loss o net e =
    let pnl = e.daily_pnl_usd +ℤ net in
    record e {
      daily_pnl_usd = pnl;
      breakers =
          trip_if (leb_ℤ pnl (zero_dec -ℤ e.settings.risk.max_daily_loss_usd)) daily_loss_limit
            "daily realized loss reached the hard limit" o.now_ms e.breakers;
    }

abbrev learned :
    Outside → Option String → Decimal → TradeOutcome → Bool → ExperienceEngine → ExperienceEngine
learned o none notional out filled x = x
learned o (some key) notional out filled x =
    let sample : Sample = record {
      notional_usd = notional;
      prediction_error_usd = out.prediction_error;
      slippage_variance_usd = out.slippage_variance;
      fee_variance_usd = out.fee_variance;
      gas_variance_usd = out.gas_variance;
      filled = filled;
      latency_ms = o.latency_ms;
    } in
    if key == "" then x else record_sample key sample x

abbrev is_filled : TradeStatus → Bool
is_filled TradeStatus.filled = true
is_filled _ = false

-- `_post_trade`, without what it writes to the database
unfoldable pub post_trade : Outside → TradeRecord → TradeOutcome → Opportunity → Engine → Engine
post_trade o tr out fresh e =
    let executed = is_executed tr.status && ltb_ℤ zero_dec out.matched_base in
    let notional = or_else fresh.notional_usd zero_dec in
    let e' = check_variances o out executed notional (check_daily_loss o out.actual_net e) in
    record e' {
      experience =
          learned o fresh.route_key (or_else fresh.notional_usd (dec 1)) out (is_filled tr.status)
            e'.experience;
    }
