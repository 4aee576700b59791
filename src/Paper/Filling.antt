-- ===== src/Paper/Filling.antt =====
-- `_simulate_fill` and `_gas_cost` of engine/execution/paper_executor.py.
use mathlib.Core.Option
use fedr.Base.{
  ℕ, zero, suc, Bool, false, not, ◌||◌, Option, none, some, List, [], ◌∷◌, if◌then◌else◌,
}
use fedr.Int.{◌+ℤ◌, ◌-ℤ◌, ltb_ℤ, leb_ℤ, min_ℤ}
use fedr.Decimal.{Decimal, zero_dec, dec, mul, div}
use fedr.Ledger.{OrderSide, buy, sell}
use fedr.Models.{Chain, ExecutionQuote, dex, cex, perp}
use fedr.Guards.Gas.{GasSnapshot, estimate_cost_usd}
use fedr.OrderBook.{Level, OrderBook}
use fedr.OrderBook.Sizing.{apply_stress}
use fedr.Orders.{OrderRequest, Venue}
use fedr.Paper.{Arrival, Filled, no_fill}

-- Beyond the limit price, if there is one.
abbrev pub is_beyond : OrderSide → Option Decimal → Decimal → Bool
is_beyond side none px = false
is_beyond buy (some limit) px = ltb_ℤ limit px
is_beyond sell (some limit) px = ltb_ℤ px limit

abbrev pub adverse : OrderSide → Decimal → Decimal
adverse buy drift = dec 1 +ℤ drift
adverse sell drift = dec 1 -ℤ drift

pub record Progress : Type 0 where
  pub remaining : Decimal
  pub filled : Decimal
  pub cost : Decimal

unfoldable pub take_level : Decimal → Level → Progress → Progress
take_level factor lv s =
    let take = min_ℤ lv.amount s.remaining in
    record {
      remaining = s.remaining -ℤ take;
      filled = s.filled +ℤ take;
      cost = s.cost +ℤ mul take (mul lv.price factor);
    }

-- The loop over the levels of one side.
unfoldable pub fill_levels : OrderSide → Option Decimal → Decimal → List Level → Progress → Progress
fill_levels side limit factor [] s = s
fill_levels side limit factor (lv ∷ book) s =
    let s' = take_level factor lv s in
    let rest = fill_levels side limit factor book s' in
    if is_beyond side limit (mul lv.price factor)
    then s
    else if leb_ℤ s'.remaining zero_dec
    then s'
    else rest

abbrev pub side_levels : OrderSide → OrderBook → List Level
side_levels buy b = b.asks
side_levels sell b = b.bids

abbrev pub start : Decimal → Progress
start amount = record { remaining = amount; filled = zero_dec; cost = zero_dec }

unfoldable pub fill_from_book : OrderRequest → Decimal → Decimal → OrderBook → Filled
fill_from_book req stress drift book =
    let levels = side_levels req.side (apply_stress stress book) in
    let s =
      fill_levels req.side req.limit_price (adverse req.side drift) levels (start req.amount) in
    if leb_ℤ s.filled zero_dec
    then no_fill
    else (record no_fill { base = s.filled; avg_price = div s.cost s.filled })

-- `quote.gas_limit or 300_000`
abbrev gas_limit_or : Option ℕ → ℕ
gas_limit_or none = 300000
gas_limit_or (some zero) = 300000
gas_limit_or (some (suc n)) = suc n

-- `_gas_cost`: in dollars and in the native token
unfoldable pub gas_cost :
    Option Chain → Option GasSnapshot → ExecutionQuote → Decimal → Decimal × Decimal
gas_cost none snap quote stress = (zero_dec, zero_dec)
gas_cost (some chain) none quote stress = (zero_dec, zero_dec)
gas_cost (some chain) (some snap) quote stress =
    let usd = mul (estimate_cost_usd snap (gas_limit_or quote.gas_limit) none) stress in
    (usd, if ltb_ℤ zero_dec snap.native_usd then div usd snap.native_usd else zero_dec)

-- The check of a swap on chain: what a sell must bring, and what a buy may cost.
abbrev below_min : Option Decimal → Decimal → Bool
below_min none received = false
below_min (some least) received = ltb_ℤ received least

abbrev is_too_dear : OrderRequest → OrderSide → Decimal → Bool
is_too_dear req sell px = below_min req.min_received (mul px req.amount)
is_too_dear req buy px = is_beyond buy req.limit_price px

abbrev pub impact_factor : OrderSide → Decimal → Decimal
impact_factor buy extra = dec 1 +ℤ extra
impact_factor sell extra = dec 1 -ℤ extra

unfoldable pub fill_from_pool :
    Venue → Arrival → OrderRequest → ExecutionQuote → Decimal → Decimal → ExecutionQuote → Filled
fill_from_pool venue a req quote stress drift fresh =
    let extra = div (mul fresh.price_impact_pct (stress -ℤ dec 1)) (dec 100) in
    let px = mul (mul fresh.avg_price (adverse req.side drift)) (impact_factor req.side extra) in
    let gas = gas_cost venue.chain a.gas_snapshot quote stress in
    if not fresh.fully_fillable || leb_ℤ fresh.avg_price zero_dec || is_too_dear req req.side px
    then no_fill
    else record { base = req.amount; avg_price = px; gas_usd = gas.0; gas_native = gas.1 }

-- `_simulate_fill`; None if the connector raises
unfoldable pub simulate_fill :
    Venue → Arrival → OrderRequest → ExecutionQuote → Decimal → Decimal → Option Filled
simulate_fill venue a req quote stress drift = elim venue.kind [
  | dex ↦ Option.map (fill_from_pool venue a req quote stress drift) a.quote
  | cex ↦ Option.map (fill_from_book req stress drift) a.book
  | perp ↦ Option.map (fill_from_book req stress drift) a.book
]
