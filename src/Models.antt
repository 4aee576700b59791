-- ===== src/Models.antt =====
-- core/enums.py and core/models.py: what the engines exchange. A quote has the fields that the guards
-- read. Timestamps are numbers of milliseconds, ages are signed.
use fedr.Base.{ℕ, String, Bool, Option, if◌then◌else◌, ltb}
use fedr.Int.{ℤ, pos, ◌-ℤ◌}
use fedr.Decimal.{Decimal}
use fedr.Ledger.{OrderSide}

pub data TradingMode : Type 0 where
  simulation paper testnet live : TradingMode

pub data Strategy : Type 0 where
  cex_cex cex_dex dex_dex spot_perp funding basis flash_loan : Strategy

pub data VenueKind : Type 0 where
  cex dex perp : VenueKind

pub data VenueHealth : Type 0 where
  healthy degraded unhealthy blocked unknown : VenueHealth

pub data Decision : Type 0 where
  safe_to_execute blocked : Decision

pub data GasRegime : Type 0 where
  normal elevated high extreme : GasRegime

pub data Chain : Type 0 where
  solana ethereum base arbitrum optimism polygon bsc avalanche : Chain

-- the enum's `value`
unfoldable pub chain_value : Chain → String
chain_value solana = "solana"
chain_value ethereum = "ethereum"
chain_value base = "base"
chain_value arbitrum = "arbitrum"
chain_value optimism = "optimism"
chain_value polygon = "polygon"
chain_value bsc = "bsc"
chain_value avalanche = "avalanche"

-- `Chain.native_token`
unfoldable pub native_token : Chain → String
native_token Chain.solana = "SOL"
native_token Chain.polygon = "POL"
native_token Chain.bsc = "BNB"
native_token Chain.avalanche = "AVAX"
native_token _ = "ETH"

unfoldable pub strategy_value : Strategy → String
strategy_value cex_cex = "cex_cex"
strategy_value cex_dex = "cex_dex"
strategy_value dex_dex = "dex_dex"
strategy_value spot_perp = "spot_perp"
strategy_value funding = "funding"
strategy_value basis = "basis"
strategy_value flash_loan = "flash_loan"

-- `taker_fee_pct` is the entry of that name in `extra`.
pub record ExecutionQuote : Type 0 where
  pub venue : String
  pub kind : VenueKind
  pub symbol : String
  pub side : OrderSide
  pub base_amount : Decimal
  pub quote_amount : Decimal
  pub avg_price : Decimal
  pub reference_price : Decimal
  pub slippage_pct : Decimal
  pub price_impact_pct : Decimal
  pub fully_fillable : Bool
  pub market_ts_ms : ℕ
  pub quote_ts_ms : ℕ
  pub fee_pct : Option Decimal
  pub fee_in_quote : Option Decimal
  pub chain : Option Chain
  pub depth_available_base : Decimal
  pub is_maker : Bool
  pub taker_fee_pct : Option Decimal
  pub levels_consumed : ℕ
  pub gas_limit : Option ℕ
  pub min_received : Option Decimal

-- the older of the two timestamps
abbrev pub oldest_ms : ExecutionQuote → ℕ
oldest_ms q = if ltb q.quote_ts_ms q.market_ts_ms then q.quote_ts_ms else q.market_ts_ms

-- `age_ms`, at the time `now`
unfoldable pub age_ms : ℕ → ExecutionQuote → ℤ
age_ms now q = pos now -ℤ pos (oldest_ms q)
