-- ===== src/Positions/Closing.antt =====
-- `close` of engine/positions.py.
use fedr.Base.{String, Bool, true, false, ◌&&◌, Option, none, some}
use Prim.Native.String.{◌++◌ as append}
use fedr.Int.{◌+ℤ◌, ◌-ℤ◌, leb_ℤ, max_ℤ}
use fedr.Decimal.{Decimal, zero_dec, dec, mul, div}
use fedr.Breakers.{trip, position_discrepancy}
use fedr.Ledger
use fedr.Ledger.{PaperLedger, Outcome, done, insufficient, OrderSide}
use fedr.Inventory
use fedr.Inventory.{Need, InventoryManager}
use fedr.Models.{ExecutionQuote}
use fedr.Profit.{no_costs}
use fedr.Orders.{OrderRequest, OrderResult, OrderStatus, TradeRecord, TradeStatus, Venue}
use fedr.Paper.{ledger_venue}
use fedr.Executor.{Engine}
use fedr.Executor.Reserving.{mode_of, is_simulated}
use fedr.Positions.{
  ExitReason, Position, PositionManager, PositionStatus, open_position, closing, closed, Market,
  put, drop, mills,
}
use fedr.Positions.Carry.{carry_scope}

-- How `close` ends: before the legs are submitted, with a trade, or by an exception.
pub data CloseEnd : Type 0 where
  not_closed : CloseEnd
  submitted : TradeRecord → CloseEnd
  raised : CloseEnd

abbrev pub with_status : PositionStatus → Position → Position
with_status st p = record p { status = st }

-- `f"close:{pos.id}"`
abbrev pub close_id : Position → String
close_id p = append "close:" p.id

-- What the close reserves: the spot holding that is sold.
abbrev pub close_need : Position → Venue → String → Need
close_need p spot base = record { venue = ledger_venue spot; asset = base; amount = p.size_base }

-- `_release_close_reservation`
abbrev release_unsold : Bool → Need → Decimal → Option PaperLedger → Option PaperLedger
release_unsold simulated n sold none = none
release_unsold false n sold (some l) = some l
release_unsold true n sold (some l) =
    some (Ledger.release n.venue n.asset (max_ℤ zero_dec (n.amount -ℤ sold)) l)

unfoldable pub release_close_reservation : Position → Need → Decimal → Engine → Engine
release_close_reservation p n sold e = record e {
  inventory = Inventory.release (close_id p) e.inventory;
  ledger = release_unsold (is_simulated (mode_of e)) n sold e.ledger;
}

-- The close is given up before anything is submitted.
abbrev pub give_up : Position → Engine → PositionManager → PositionManager × CloseEnd
give_up p e m = (put (with_status open_position p) (record m { engine = e }), not_closed)

-- the tolerance of a close, three times that of a trade
abbrev pub close_tolerance : Decimal → Decimal
close_tolerance tol = mul (div tol (dec 100)) (dec 3)

unfoldable pub sell_request : Position → Venue → ExecutionQuote → Decimal → OrderRequest
sell_request p spot q tol = record {
  venue = spot.name;
  symbol = p.pair;
  side = OrderSide.sell;
  amount = p.size_base;
  limit_price = some (mul q.avg_price (dec 1 -ℤ tol));
  min_received = none;
  reduce_only = false;
  quoted_price = some q.avg_price;
}

unfoldable pub buy_request : Position → Venue → ExecutionQuote → Decimal → OrderRequest
buy_request p perp q tol = record {
  venue = perp.name;
  symbol = p.perp_symbol;
  side = OrderSide.buy;
  amount = p.size_base;
  limit_price = some (mul q.avg_price (dec 1 +ℤ tol));
  min_received = none;
  reduce_only = true;
  quoted_price = some q.avg_price;
}

unfoldable pub close_trade : Market → Position → Engine → TradeRecord
close_trade o p e = record {
  id = o.new_id;
  mode = mode_of e;
  strategy = p.strategy;
  size_base = p.size_base;
  status = TradeStatus.executing;
  estimated_gross = zero_dec;
  estimated_net = zero_dec;
  estimated_worst_case = zero_dec;
  estimated_costs = no_costs;
  buy = none;
  sell = none;
  hedge = none;
  actual_gross = none;
  actual_fees = none;
  actual_gas = none;
  actual_net = none;
  prediction_error = none;
}

abbrev is_filled : OrderStatus → Bool
is_filled OrderStatus.filled = true
is_filled _ = false

-- A leg has closed if it is FILLED for at least 99.9 percent of the size.
abbrev pub leg_ok : Position → OrderResult → Bool
leg_ok p r = is_filled r.status && leb_ℤ (mul p.size_base (mills 999)) r.filled

unfoldable pub gross_of : Position → Decimal → Decimal → Decimal
gross_of p exit_spot exit_perp =
    mul (exit_spot -ℤ p.entry_spot_price) p.size_base
    +ℤ mul (p.entry_perp_price -ℤ exit_perp) p.size_base
    +ℤ p.funding_collected_usd

unfoldable pub closed_position : ExitReason → Position → Decimal → Decimal → Decimal → Position
closed_position reason p exit_spot exit_perp fees = record p {
  status = closed;
  exit_reason = some reason;
  exit_spot_price = some exit_spot;
  exit_perp_price = some exit_perp;
  realized_net_usd = some (gross_of p exit_spot exit_perp -ℤ fees);
  fees_usd = fees;
}

unfoldable pub settled_trade : Position → Decimal → Decimal → Decimal → TradeRecord → TradeRecord
settled_trade p exit_spot exit_perp fees tr = record tr {
  status = TradeStatus.filled;
  actual_gross = some (gross_of p exit_spot exit_perp);
  actual_fees = some fees;
  actual_gas = some zero_dec;
  actual_net = some (gross_of p exit_spot exit_perp -ℤ fees);
}

-- The prices of two FILLED legs; without one the arithmetic raises.
abbrev pub close_filled :
    ExitReason
    → Position
    → Decimal
    → Option Decimal
    → Option Decimal
    → TradeRecord
    → PositionManager
    → PositionManager × CloseEnd
close_filled reason p fees none perp_px tr m = (m, raised)
close_filled reason p fees (some spot_px) none tr m = (m, raised)
close_filled reason p fees (some spot_px) (some perp_px) tr m = (
  drop (closed_position reason p spot_px perp_px fees) m,
  submitted (settled_trade p spot_px perp_px fees tr),
)

abbrev pub status_after : Bool → Bool → PositionStatus
status_after false false = open_position
status_after false true = closing
status_after true spot_or_perp = closing

abbrev pub trade_status_after : Bool → Bool → TradeStatus
trade_status_after true true = TradeStatus.failed
trade_status_after false false = TradeStatus.failed
trade_status_after true false = TradeStatus.recovering
trade_status_after false true = TradeStatus.recovering

-- A close with a leg that has not closed.
unfoldable pub close_incomplete :
    Market → Position → Bool → Bool → TradeRecord → PositionManager → PositionManager × CloseEnd
close_incomplete o p spot_ok perp_ok tr m =
    let e = m.engine in
    (
      put (with_status (status_after spot_ok perp_ok) p) (record m {
        engine = record e {
          breakers =
              (trip position_discrepancy "carry close incomplete" o.now_ms carry_scope true
                e.breakers).0;
        };
      }),
      submitted (record tr { status = trade_status_after spot_ok perp_ok }),
    )
