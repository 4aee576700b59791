-- ===== src/Positions.antt =====
-- engine/positions.py: carry positions, long on a spot market and short on a perpetual. The database
-- is left out. Numbers that the source keeps as texts are Decimals.
pub mod Carry
pub mod Closing
pub mod Close
pub mod Desk
pub mod Shorts
pub mod Rules
pub mod Passes
pub mod Tracked
pub mod Stuck
pub mod Outcomes
pub mod Exits
pub mod Reported
mod Tests
use fedr.Base.{ℕ, ◌*◌, ◌/◌, String, Bool, false, Option, none, some, List}
use fedr.Int.{ℤ, pos}
use fedr.Decimal.{Decimal, unit, cents, dec}
use fedr.Dict.{Dict, insert, erase}
use fedr.Ledger.{PaperLedger}
use fedr.Models.{ExecutionQuote, Strategy}
use fedr.Orders.{OrderRequest, OrderResult, TradeRecord, Venue}
use fedr.Executor.{Engine}

-- `Decimal(n) / 1000`, for a literal with three decimals
unfoldable pub mills : ℕ → Decimal
mills n = pos (n * (unit / 1000))

-- The fields of the class.
pub record CarryPolicy : Type 0 where
  pub exit_basis_pct : Decimal
  pub funding_flip_periods : ℕ
  pub max_hold_hours : ℕ
  pub min_liquidation_distance_pct : Decimal
  pub max_basis_widening_pct : Decimal
  pub funding_interval_hours : Decimal
  pub flatten_on_emergency_stop : Bool
  pub max_abs_funding_rate : Decimal

abbrev pub default_policy : CarryPolicy
default_policy = record {
  exit_basis_pct = cents 5;
  funding_flip_periods = 2;
  max_hold_hours = 72;
  min_liquidation_distance_pct = dec 25;
  max_basis_widening_pct = cents 150;
  funding_interval_hours = dec 8;
  flatten_on_emergency_stop = false;
  max_abs_funding_rate = mills 3;
}

pub data PositionStatus : Type 0 where
  open_position closing closed : PositionStatus

-- Why a position is closed, without the numbers of the message.
pub data ExitReason : Type 0 where
  converged funding_flipped held_too_long liquidation_near widened flattened : ExitReason
  requested : String → ExitReason

pub record FundingPeriod : Type 0 where
  pub ts : ℕ
  pub rate : Decimal
  pub payment_usd : Decimal

-- db/models.py; the three last fields are entries of `payload`.
pub record Position : Type 0 where
  pub id : String
  pub strategy : Strategy
  pub pair : String
  pub spot_venue : String
  pub perp_venue : String
  pub perp_symbol : String
  pub size_base : Decimal
  pub status : PositionStatus
  pub entry_spot_price : Decimal
  pub entry_perp_price : Decimal
  pub entry_basis_pct : Decimal
  pub funding_collected_usd : Decimal
  pub fees_usd : Decimal
  pub opened_at_ms : Option ℕ
  pub exit_reason : Option ExitReason
  pub exit_spot_price : Option Decimal
  pub exit_perp_price : Option Decimal
  pub realized_net_usd : Option Decimal
  pub funding_periods : List FundingPeriod
  pub negative_funding_streak : ℕ
  pub last_funding_ms : Option ℕ

-- The manager with the engine's state, which it shares with the executor. A position is the object
-- that `open` holds under its id.
pub record PositionManager : Type 0 where
  pub engine : Engine
  pub policy : CarryPolicy
  pub open_positions : Dict Position

-- What comes from outside: the ids, the clock, the best prices of the books of the hub (None without
-- a book or a level), the connectors, the quotes of the two closing legs (None for an exception) and
-- the answer of a leg that is submitted, with the ledger after it (None for an exception).
pub record Market : Type 0 where
  pub new_id : String
  pub now_ms : ℕ
  pub best_bid : String → String → Option Decimal
  pub best_ask : String → String → Option Decimal
  pub connectors : String → Option Venue
  pub close_quotes : Position → Option (ExecutionQuote × ExecutionQuote)
  pub submit :
      OrderRequest → ExecutionQuote → Option PaperLedger → Option PaperLedger × Option OrderResult

-- A write to a position that `open` holds.
unfoldable pub put : Position → PositionManager → PositionManager
put p m = record m { open_positions = insert p.id p m.open_positions }

unfoldable pub drop : Position → PositionManager → PositionManager
drop p m = record m { open_positions = erase p.id m.open_positions }
