-- ===== src/Risk.antt =====
-- engine/risk_engine.py: the portfolio, the reasons for a refusal, and the hard limits.
pub mod Score
pub mod Limits
pub mod Funded
pub mod Verdict
pub mod Safety
mod Tests
use fedr.Base.{
  ℕ, String, Bool, true, false, not, ◌&&◌, ◌||◌, Option, none, some, List, [], ◌∷◌, ◌++◌, map,
  if◌then◌else◌, when, is_none, or_else, ◌==◌,
}
use Prim.Native.String.{◌++◌ as append}
use fedr.Int.{ℤ, pos, ◌+ℤ◌, ◌-ℤ◌, ltb_ℤ, leb_ℤ}
use fedr.Decimal.{Decimal, zero_dec, dec, mul, div, pct}
use fedr.Dict.{Dict, lookup}
use fedr.Models.{
  ExecutionQuote, Strategy, TradingMode, VenueHealth, VenueKind, Chain, chain_value, strategy_value,
  live, perp, dex,
}
use fedr.Settings.{AppSettings, LiveActivationState}

-- A balance that the portfolio does not know is None. Active breakers are texts.
pub record PortfolioState : Type 0 where
  pub total_capital_usd : Decimal
  pub exposure_by_venue_usd : Dict Decimal
  pub exposure_by_chain_usd : Dict Decimal
  pub exposure_by_asset_usd : Dict Decimal
  pub open_trades : ℤ
  pub daily_realized_pnl_usd : Decimal
  pub failed_trades_last_hour : ℤ
  pub venue_health : Dict VenueHealth
  pub available_balances : String → String → Option Decimal
  pub unhedged_seconds : ℤ
  pub active_breakers : List String
  pub gas_reserve_ok : Dict Bool

-- The arguments of `assess`.
pub record RiskRequest : Type 0 where
  pub strategy : Strategy
  pub buy : ExecutionQuote
  pub sell : ExecutionQuote
  pub base : String
  pub quote : String
  pub notional_usd : Decimal
  pub capital_required_usd : Decimal
  pub gas_usd : Decimal
  pub flash_loan_usd : Option Decimal

pub data Refusal : Type 0 where
  test_flash_loan test_no_route : Refusal
  test_strategy test_route : String → String → Refusal
  test_notional above_max_size below_min_size : Decimal → Decimal → Refusal
  breaker : String → Refusal
  too_many_trades : ℤ → ℤ → Refusal
  daily_loss : Decimal → Decimal → Refusal
  too_many_failures unhedged : ℤ → Refusal
  gas_too_high : Decimal → Decimal → Refusal
  not_allowlisted : String → String → Refusal
  loan_too_large loan_gas_too_high capital_usage : Decimal → Decimal → Refusal
  venue_exposure : String → Decimal → Refusal
  chain_exposure : Chain → Refusal
  asset_exposure : String → Refusal
  no_capital : Refusal
  unknown_balance : String → String → Refusal
  insufficient_balance : String → String → Decimal → Decimal → Refusal
  gas_reserve_low : Chain → Refusal
  bad_health : String → VenueHealth → Refusal
  combined_slippage : Decimal → Decimal → Refusal
  score_too_high : ℤ → ℤ → Refusal

-- SMALL_LIVE_TEST_MAX_NOTIONAL_USD
abbrev pub small_live_test_max_notional_usd : Decimal
small_live_test_max_notional_usd = dec 25

abbrev pub is_live : TradingMode → Bool
is_live live = true
is_live _ = false

abbrev pub is_flash_loan : Strategy → Bool
is_flash_loan Strategy.flash_loan = true
is_flash_loan _ = false

abbrev pub route : RiskRequest → String
route q = append q.buy.venue (append "->" q.sell.venue)

abbrev pub route_reasons : Option String → String → List Refusal
route_reasons none r = test_no_route ∷ []
route_reasons (some selected) r = when (not (r == selected)) (test_route selected r)

-- What the small live test allows.
unfoldable pub small_test_reasons : LiveActivationState → RiskRequest → List Refusal
small_test_reasons l q =
    when (not (is_none q.flash_loan_usd) || is_flash_loan q.strategy) test_flash_loan
    ++ (when (not (strategy_value q.strategy == l.small_test_strategy))
          (test_strategy l.small_test_strategy (strategy_value q.strategy))
        ++ (route_reasons l.small_test_route (route q)
            ++ when (ltb_ℤ small_live_test_max_notional_usd q.notional_usd)
                (test_notional small_live_test_max_notional_usd q.notional_usd)))

unfoldable pub stage_reasons : AppSettings → RiskRequest → List Refusal
stage_reasons s q =
    if is_live s.general.mode && not (s.live.stage == "full")
    then small_test_reasons s.live q
    else []

abbrev pub is_listed : String → List String → Bool
is_listed x [] = false
is_listed x (y ∷ ys) = x == y || is_listed x ys

abbrev pub loan_reasons : AppSettings → Decimal → Option Decimal → List Refusal
loan_reasons s gas none = []
loan_reasons s gas (some loan) =
    when (ltb_ℤ s.risk.max_flash_loan_usd loan) (loan_too_large loan s.risk.max_flash_loan_usd)
    ++ when (ltb_ℤ s.risk.max_flash_loan_gas_usd gas)
        (loan_gas_too_high gas s.risk.max_flash_loan_gas_usd)

-- ---- hard limits: those of the size, those of the state, and those of the request
unfoldable pub size_reasons : AppSettings → RiskRequest → List Refusal
size_reasons s q =
    let n = q.notional_usd in
    when (is_none q.flash_loan_usd && ltb_ℤ s.trading.max_trade_size_usd n)
      (above_max_size n s.trading.max_trade_size_usd)
    ++ when (ltb_ℤ n s.trading.min_trade_size_usd) (below_min_size n s.trading.min_trade_size_usd)

unfoldable pub state_reasons : AppSettings → PortfolioState → List Refusal
state_reasons s p =
    let r = s.risk in
    map breaker p.active_breakers
    ++ (when (leb_ℤ r.max_concurrent_trades p.open_trades)
          (too_many_trades p.open_trades r.max_concurrent_trades)
        ++ (when (leb_ℤ p.daily_realized_pnl_usd (zero_dec -ℤ r.max_daily_loss_usd))
              (daily_loss p.daily_realized_pnl_usd r.max_daily_loss_usd)
            ++ (when (leb_ℤ r.max_failed_trades_per_hour p.failed_trades_last_hour)
                  (too_many_failures p.failed_trades_last_hour)
                ++ when (ltb_ℤ r.max_unhedged_seconds p.unhedged_seconds)
                    (unhedged p.unhedged_seconds))))

unfoldable pub request_reasons : AppSettings → RiskRequest → List Refusal
request_reasons s q =
    let listed = s.risk.asset_allowlist in
    when (ltb_ℤ s.risk.max_gas_usd q.gas_usd) (gas_too_high q.gas_usd s.risk.max_gas_usd)
    ++ (when (not (is_listed q.base listed) || not (is_listed q.quote listed))
          (not_allowlisted q.base q.quote)
        ++ loan_reasons s q.gas_usd q.flash_loan_usd)
