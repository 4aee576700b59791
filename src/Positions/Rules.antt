-- ===== src/Positions/Rules.antt =====
-- How the operations of engine/positions.py write to the open positions: each write of a position is
-- under its own id, and none enters a closed one.
use fedr.Base.{
  String, ◌≡◌, refl, Bool, true, false, ◌&&◌, Option, none, some, [], ◌∷◌, Bool-cases, inl, inr,
}
use fedr.Decimal.{Decimal}
use fedr.Dict.{Dict, insert, erase}
use fedr.Ledger.{PaperLedger, Outcome, done, insufficient}
use fedr.Inventory.{Need}
use fedr.Models.{ExecutionQuote}
use fedr.Orders.{OrderRequest, OrderResult, TradeRecord, Venue, split_pair}
use fedr.Executor.Reserving.{mode_of, is_simulated}
use fedr.Positions.{
  ExitReason, Position, PositionManager, PositionStatus, open_position, closing, closed, Market,
  put, drop,
}
use fedr.Positions.Closing.{
  with_status, close_need, close_filled, close_incomplete, leg_ok, closed_position, close_tolerance,
  status_after, buy_request, sell_request, close_trade,
}
use fedr.Positions.Close.{
  close_done, after_buy, after_sell, close_legs, reserve_paper, after_paper, close_reserved,
  close_at, close, try_reserve,
}
use fedr.Positions.Desk.{is_open}

abbrev pub is_closed : PositionStatus → Bool
is_closed open_position = false
is_closed closing = false
is_closed closed = true

-- A property of the open positions that each write of a position with this id, and its removal,
-- keep.
pub record Keeps (P : Dict Position → Type 0) (id : String) : Type 0 where
  pub write :
      (q : Position) (d : Dict Position)
      → q.id ≡ id
      → is_closed q.status ≡ false
      → P d
      → P (insert q.id q d)
  pub remove : (q : Position) (d : Dict Position) → q.id ≡ id → P d → P (erase q.id d)

module _ (P : Dict Position → Type 0) (o : Market) (reason : ExitReason) where
  close_filled-rule :
      (p : Position) (fees : Decimal) (a b : Option Decimal) (tr : TradeRecord)
      (m : PositionManager)
      → Keeps P p.id
      → P m.open_positions
      → P (close_filled reason p fees a b tr m).0.open_positions
  unfolding drop closed_position
  close_filled-rule p fees none b tr m k h = h
  close_filled-rule p fees (some a) none tr m k h = h
  close_filled-rule p fees (some a) (some b) tr m k h =
      k.remove (closed_position reason p a b fees) m.open_positions refl h

  put-rule :
      (p : Position) (st : PositionStatus) (m : PositionManager)
      → Keeps P p.id
      → is_closed st ≡ false
      → P m.open_positions
      → P (put (with_status st p) m).open_positions
  unfolding put
  put-rule p st m k c h = k.write (with_status st p) m.open_positions refl c h

  status_after-open : (a b : Bool) → is_closed (status_after a b) ≡ false
  status_after-open false false = refl
  status_after-open false true = refl
  status_after-open true b = refl

  close_incomplete-rule :
      (p : Position) (a b : Bool) (tr : TradeRecord) (m : PositionManager)
      → Keeps P p.id
      → P m.open_positions
      → P (close_incomplete o p a b tr m).0.open_positions
  unfolding close_incomplete
  close_incomplete-rule p a b tr m k h = put-rule p (status_after a b) _ k (status_after-open a b) h

  close_done-rule :
      (p : Position) (sell buy : OrderResult) (tr : TradeRecord) (m : PositionManager)
      → Keeps P p.id
      → P m.open_positions
      → P (close_done o reason p sell buy tr m).0.open_positions
  unfolding close_done
  close_done-rule p sell buy tr m k h = elim (Bool-cases (leg_ok p sell && leg_ok p buy)) [
    | inl x ↦ rw x (close_filled-rule p _ sell.avg_price buy.avg_price _ m k h)
    | inr x ↦ rw x (close_incomplete-rule p _ _ _ m k h)
  ]

  after_buy-rule :
      (p : Position) (n : Need) (sell : OrderResult) (tr : TradeRecord) (m : PositionManager)
      (r : Option PaperLedger × Option OrderResult)
      → Keeps P p.id
      → P m.open_positions
      → P (after_buy o reason p n sell tr m r).0.open_positions
  after_buy-rule p n sell tr m (l, none) k h = h
  after_buy-rule p n sell tr m (l, some buy) k h = close_done-rule p sell buy tr _ k h

  after_sell-rule :
      (p : Position) (n : Need) (req : OrderRequest) (q : ExecutionQuote) (tr : TradeRecord)
      (m : PositionManager) (r : Option PaperLedger × Option OrderResult)
      → Keeps P p.id
      → P m.open_positions
      → P (after_sell o reason p n req q tr m r).0.open_positions
  after_sell-rule p n req q tr m (l, none) k h = h
  after_sell-rule p n req q tr m (l, some sell) k h =
      after_buy-rule p n sell tr m (o.submit req q l) k h

  close_legs-rule :
      (p : Position) (spot perp : Venue) (n : Need) (q : Option (ExecutionQuote × ExecutionQuote))
      (m : PositionManager)
      → Keeps P p.id
      → P m.open_positions
      → P (close_legs o reason p spot perp n q m).0.open_positions
  close_legs-rule p spot perp n none m k h = put-rule p open_position _ k refl h
  close_legs-rule p spot perp n (some (a, b)) m k h =
      let tol = close_tolerance m.engine.settings.trading.leg_price_tolerance_pct in
      after_sell-rule p n (buy_request p perp b tol) b (close_trade o p m.engine) m
        (o.submit (sell_request p spot a tol) a m.engine.ledger) k h

  after_paper-rule :
      (p : Position) (spot perp : Venue) (n : Need) (m : PositionManager)
      (r : Option PaperLedger × Outcome (Unit {0}))
      → Keeps P p.id
      → P m.open_positions
      → P (after_paper o reason p spot perp n m r).0.open_positions
  after_paper-rule p spot perp n m (l, insufficient) k h = put-rule p open_position _ k refl h
  after_paper-rule p spot perp n m (l, done _) k h =
      close_legs-rule p spot perp n (o.close_quotes p) _ k h

  close_at-rule :
      (p : Position) (a b : Option Venue) (pair : Option (String × String)) (m : PositionManager)
      → Keeps P p.id
      → P m.open_positions
      → P (close_at o reason p a b pair m).0.open_positions
  unfolding close_reserved
  close_at-rule p none b pair m k h = put-rule p open_position _ k refl h
  close_at-rule p (some a) none pair m k h = put-rule p open_position _ k refl h
  close_at-rule p (some a) (some b) none m k h = h
  close_at-rule p (some a) (some b) (some (base, quote)) m k h =
      let e = m.engine in
      let n = close_need p a base in
      after_paper-rule p a b n
        (record m { engine = record e { inventory = try_reserve p n e.inventory } })
        (reserve_paper (is_simulated (mode_of e)) n e.ledger) k h

  -- A close keeps what every write of its position keeps.
  pub close-rule :
      (p : Position) (m : PositionManager)
      → Keeps P p.id
      → P m.open_positions
      → P (close o p reason m).0.open_positions
  unfolding close
  close-rule p m k h =
      close_at-rule (with_status closing p) (o.connectors p.spot_venue) (o.connectors p.perp_venue)
        (split_pair p.pair) _ k (put-rule p closing m k refl h)

-- Of each position that is open, the writes keep the property.
abbrev pub AllKeep : (Dict Position → Type 0) → Dict Position → Type 0
AllKeep P [] = Unit
AllKeep P ((_, p) ∷ ps) = (is_open p.status ≡ true → Keeps P p.id) × AllKeep P ps
