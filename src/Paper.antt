-- ===== src/Paper.antt =====
-- engine/execution/paper_executor.py: one simulated leg, settled on the paper ledger. The draws of the
-- random generator, the latency's sleep and what the connector answers are outside: the draws and the
-- answers are arguments, and the sleep changes nothing here.
pub mod Filling
pub mod Leg
pub mod Fills
pub mod Outcomes
pub mod Solvent
mod Tests
use mathlib.Core.Option
use fedr.Base.{ℕ, String, Bool, Option, none, some, or_else}
use fedr.Decimal.{Decimal, zero_dec}
use fedr.Models.{Chain, chain_value, ExecutionQuote, VenueKind, dex, cex, perp}
use fedr.Guards.Gas.{GasSnapshot}
use fedr.OrderBook.{OrderBook}
use fedr.Ledger.{PaperLedger}
use fedr.Orders.{OrderResult, Venue}

-- The fields of `PaperSettings` that `execute_leg` reads beside those of the latency.
pub record PaperSettings : Type 0 where
  pub stress_multiplier : Decimal
  pub partial_fill_probability : Decimal
  pub failure_probability : Decimal
  pub quote_drift_pct : Decimal
  pub fill_ratio_on_partial : Decimal

-- What comes from outside: the two draws of `rng.random`, the answers of the connector, where None
-- is an exception, and the snapshot of the gas price, None if there is none or no gas guard.
pub record Arrival : Type 0 where
  pub failure_draw : Decimal
  pub partial_draw : Decimal
  pub book : Option OrderBook
  pub quote : Option ExecutionQuote
  pub gas_snapshot : Option GasSnapshot

-- The ledger and the result after a leg, None if the leg raises, and what `record_order` was told.
pub record LegRun : Type 0 where
  pub ledger : PaperLedger
  pub result : Option OrderResult
  pub recorded : Option Bool

-- `ledger_venue`, and `ledger_venue_for` of engine/context.py
unfoldable pub ledger_venue : Venue → String
ledger_venue v = elim v.kind [
  | dex ↦ or_else (Option.map chain_value v.chain) v.name
  | cex ↦ v.name
  | perp ↦ v.name
]

-- What `_simulate_fill` returns.
pub record Filled : Type 0 where
  pub base : Decimal
  pub avg_price : Decimal
  pub gas_usd : Decimal
  pub gas_native : Decimal

abbrev pub no_fill : Filled
no_fill = record {
  base = zero_dec;
  avg_price = zero_dec;
  gas_usd = zero_dec;
  gas_native = zero_dec;
}
