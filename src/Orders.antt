-- ===== src/Orders.antt =====
-- core/enums.py and core/models.py: orders, their results and the record of a trade.
use text.Mathlib.Text.{find?}
use Prim.Native.String.{slice, len}
use fedr.Base.{◌+◌, String, Bool, true, false, Option, none, some, List, [], ◌∷◌}
use fedr.Int.{◌+ℤ◌, ◌-ℤ◌, max_ℤ}
use fedr.Decimal.{Decimal, zero_dec, mul}
use fedr.Ledger.{OrderSide}
use fedr.Models.{Chain, VenueKind, TradingMode, Strategy}
use fedr.Profit.{CostBreakdown}

pub data OrderStatus : Type 0 where
  new open_order partially_filled filled cancelled rejected expired failed : OrderStatus

pub data TradeStatus : Type 0 where
  pending executing filled partial failed aborted recovering hedged cancelled : TradeStatus

-- What the executors read of a connector.
pub record Venue : Type 0 where
  pub name : String
  pub kind : VenueKind
  pub chain : Option Chain

-- `quoted_price` is the entry of that name in `extra`.
pub record OrderRequest : Type 0 where
  pub venue : String
  pub symbol : String
  pub side : OrderSide
  pub amount : Decimal
  pub limit_price : Option Decimal
  pub min_received : Option Decimal
  pub reduce_only : Bool
  pub quoted_price : Option Decimal

pub record Fill : Type 0 where
  pub amount : Decimal
  pub price : Decimal
  pub fee_amount : Decimal
  pub gas_cost_usd : Decimal

-- Why an order failed; the texts of the messages are left out.
pub data OrderError : Type 0 where
  simulated_rejection not_fillable ledger_refused timed_out raised requote_worse : OrderError

pub record OrderResult : Type 0 where
  pub request : OrderRequest
  pub status : OrderStatus
  pub filled : Decimal
  pub avg_price : Option Decimal
  pub fills : List Fill
  pub fee_quote : Decimal
  pub gas_cost_usd : Decimal
  pub error : Option OrderError

-- a result with the defaults of the class
abbrev pub blank_result : OrderRequest → OrderStatus → Option OrderError → OrderResult
blank_result req status error = record {
  request = req;
  status = status;
  filled = zero_dec;
  avg_price = none;
  fills = [];
  fee_quote = zero_dec;
  gas_cost_usd = zero_dec;
  error = error;
}

unfoldable pub remaining : OrderResult → Decimal
remaining r = max_ℤ zero_dec (r.request.amount -ℤ r.filled)

unfoldable pub is_terminal : OrderResult → Bool
is_terminal r = elim r.status [
  | OrderStatus.filled ↦ true
  | OrderStatus.cancelled ↦ true
  | OrderStatus.rejected ↦ true
  | OrderStatus.expired ↦ true
  | OrderStatus.failed ↦ true
  | _ ↦ false
]

abbrev sum_fills : List Fill → Decimal
sum_fills [] = zero_dec
sum_fills (f ∷ fs) = mul f.amount f.price +ℤ sum_fills fs

unfoldable pub quote_amount : OrderResult → Decimal
quote_amount r = sum_fills r.fills

-- `explanation`, `events` and the times are left out.
pub record TradeRecord : Type 0 where
  pub id : String
  pub mode : TradingMode
  pub strategy : Strategy
  pub size_base : Decimal
  pub status : TradeStatus
  pub estimated_gross : Decimal
  pub estimated_net : Decimal
  pub estimated_worst_case : Decimal
  pub estimated_costs : CostBreakdown
  pub buy : Option OrderResult
  pub sell : Option OrderResult
  pub hedge : Option OrderResult
  pub actual_gross : Option Decimal
  pub actual_fees : Option Decimal
  pub actual_gas : Option Decimal
  pub actual_net : Option Decimal
  pub prediction_error : Option Decimal

-- `base, quote = pair.split("/")`; None where that raises
unfoldable pub split_pair : String → Option (String × String)
split_pair pair = elim (find? pair "/") [
  | none ↦ none
  | some i ↦
      let quote = slice pair (i + 1) (len pair) in
      elim (find? quote "/") [ none ↦ some (slice pair 0 i, quote) | some _ ↦ none ]
]
