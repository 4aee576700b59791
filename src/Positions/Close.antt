-- ===== src/Positions/Close.antt =====
-- The sequence of `close` of engine/positions.py.
use fedr.Base.{String, Bool, true, false, ◌&&◌, Option, none, some, [], ◌∷◌, if◌then◌else◌, or_else}
use fedr.Int.{◌+ℤ◌}
use fedr.Decimal.{zero_dec}
use fedr.Ledger
use fedr.Ledger.{PaperLedger, Outcome, done, insufficient, OrderSide}
use fedr.Inventory
use fedr.Inventory.{Need, InventoryManager}
use fedr.Models.{ExecutionQuote}
use fedr.Orders.{OrderRequest, OrderResult, TradeRecord, Venue, split_pair}
use fedr.Executor.Reserving.{mode_of, is_simulated}
use fedr.Positions.{ExitReason, Position, PositionManager, closing, Market, put}
use fedr.Positions.Closing.{
  CloseEnd, buy_request, close_filled, close_id, close_incomplete, close_need, close_tolerance,
  close_trade, give_up, leg_ok, raised, release_close_reservation, sell_request, with_status,
}

-- What follows the two legs; `p` has the status `closing`.
unfoldable pub close_done :
    Market
    → ExitReason
    → Position
    → OrderResult
    → OrderResult
    → TradeRecord
    → PositionManager
    → PositionManager × CloseEnd
close_done o reason p sell buy tr m =
    let tr' = record tr { buy = some buy; sell = some sell } in
    if leg_ok p sell && leg_ok p buy
    then close_filled reason p (p.fees_usd +ℤ sell.fee_quote +ℤ buy.fee_quote) sell.avg_price
        buy.avg_price tr' m
    else close_incomplete o p (leg_ok p sell) (leg_ok p buy) tr' m

-- The purchase of the perpetual, after the sale. An exception leaves the position and its reservation
-- as they are.
abbrev pub after_buy :
    Market
    → ExitReason
    → Position
    → Need
    → OrderResult
    → TradeRecord
    → PositionManager
    → Option PaperLedger × Option OrderResult
    → PositionManager × CloseEnd
after_buy o reason p n sell tr m (l, none) =
    (record m { engine = record m.engine { ledger = l } }, raised)
after_buy o reason p n sell tr m (l, some buy) =
    let e = release_close_reservation p n sell.filled (record m.engine { ledger = l }) in
    close_done o reason p sell buy tr (record m { engine = e })

abbrev pub after_sell :
    Market
    → ExitReason
    → Position
    → Need
    → OrderRequest
    → ExecutionQuote
    → TradeRecord
    → PositionManager
    → Option PaperLedger × Option OrderResult
    → PositionManager × CloseEnd
after_sell o reason p n req q tr m (l, none) =
    (record m { engine = record m.engine { ledger = l } }, raised)
after_sell o reason p n req q tr m (l, some sell) =
    after_buy o reason p n sell tr m (o.submit req q l)

-- The two legs at their quotes.
abbrev pub close_legs :
    Market
    → ExitReason
    → Position
    → Venue
    → Venue
    → Need
    → Option (ExecutionQuote × ExecutionQuote)
    → PositionManager
    → PositionManager × CloseEnd
close_legs o reason p spot perp n none m =
    give_up p (release_close_reservation p n zero_dec m.engine) m
close_legs o reason p spot perp n (some (sell_q, buy_q)) m =
    let tol = close_tolerance m.engine.settings.trading.leg_price_tolerance_pct in
    after_sell o reason p n (buy_request p perp buy_q tol) buy_q (close_trade o p m.engine) m
      (o.submit (sell_request p spot sell_q tol) sell_q m.engine.ledger)

-- The reservation on the paper ledger, in simulation; a refusal gives up.
abbrev pub reserve_paper :
    Bool → Need → Option PaperLedger → Option PaperLedger × Outcome (Unit {0})
reserve_paper simulated n none = (none, done tt)
reserve_paper false n (some l) = (some l, done tt)
reserve_paper true n (some l) =
    let (l', r) = Ledger.reserve n.venue n.asset n.amount l in (some l', r)

abbrev pub after_paper :
    Market
    → ExitReason
    → Position
    → Venue
    → Venue
    → Need
    → PositionManager
    → Option PaperLedger × Outcome (Unit {0})
    → PositionManager × CloseEnd
after_paper o reason p spot perp n m (l, insufficient) =
    let e = m.engine in
    give_up p (record e { ledger = l; inventory = Inventory.release (close_id p) e.inventory }) m
after_paper o reason p spot perp n m (l, done _) =
    close_legs o reason p spot perp n (o.close_quotes p)
      (record m { engine = record m.engine { ledger = l } })

-- A refusal of the inventory's reservation is only logged.
abbrev pub try_reserve : Position → Need → InventoryManager → InventoryManager
try_reserve p n i = or_else (Inventory.reserve (close_id p) (n ∷ []) i) i

unfoldable pub close_reserved :
    Market
    → ExitReason
    → Position
    → Venue
    → Venue
    → Need
    → PositionManager
    → PositionManager × CloseEnd
close_reserved o reason p spot perp n m =
    let e = m.engine in
    after_paper o reason p spot perp n
      (record m { engine = record e { inventory = try_reserve p n e.inventory } })
      (reserve_paper (is_simulated (mode_of e)) n e.ledger)

abbrev pub close_at :
    Market
    → ExitReason
    → Position
    → Option Venue
    → Option Venue
    → Option (String × String)
    → PositionManager
    → PositionManager × CloseEnd
close_at o reason p none perp pair m = give_up p m.engine m
close_at o reason p (some spot) none pair m = give_up p m.engine m
close_at o reason p (some spot) (some perp) none m = (m, raised)
close_at o reason p (some spot) (some perp) (some (base, quote)) m =
    close_reserved o reason p spot perp (close_need p spot base) m

-- `close`
unfoldable pub close : Market → Position → ExitReason → PositionManager → PositionManager × CloseEnd
close o p reason m =
    let p' = with_status closing p in
    close_at o reason p' (o.connectors p.spot_venue) (o.connectors p.perp_venue) (split_pair p.pair)
      (put p' m)
