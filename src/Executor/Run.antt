-- ===== src/Executor/Run.antt =====
-- `execute` of engine/execution/executor.py. The exceptions that its handler turns into a failed trade
-- are those of Executor/Faults; `_notify` logs those of the callback.
use fedr.Base.{
  String, Bool, true, false, not, ◌&&◌, Option, none, some, List, [], ◌∷◌, if◌then◌else◌, or_else,
  ◌==◌,
}
use fedr.Int.{◌+ℤ◌, ◌-ℤ◌, eqb_ℤ}
use fedr.Decimal.{Decimal, zero_dec, dec, mul, div}
use fedr.Ledger.{PaperLedger, OrderSide}
use fedr.Inventory
use fedr.Inventory.{Need}
use fedr.Models.{Decision, safe_to_execute, blocked, VenueKind, perp}
use fedr.Orders.{OrderRequest, OrderResult, TradeRecord, TradeStatus, Venue, split_pair}
use fedr.Paper.{ledger_venue}
use fedr.Accounting.{compute_outcome, apply_outcome}
use fedr.Executor.{Engine, Opportunity, Connector, Outside, Abort, Ended, traded, aborted}
use fedr.Executor.Reserving.{mode_of, is_simulated, reserve_legs, release_on}
use fedr.Executor.Preconditions.{precondition, append_recent, new_trade, reestimated}
use fedr.Executor.Faults.{legs_fault, caught}
use fedr.Executor.Settling.{as_result, count_failure, note_dex_failures, recover, post_trade}

-- `_abort`, without what it writes to the database
unfoldable pub abort : Abort → TradeRecord → Engine → Engine × Ended
abort reason tr e =
    let tr' = record tr { status = TradeStatus.aborted } in
    (record e { recent = append_recent tr' e.recent }, aborted reason tr')

abbrev pub is_perp : VenueKind → Bool
is_perp perp = true
is_perp _ = false

-- `fresh.sell.min_received or ...`: None and 0 give way
abbrev least : Option Decimal → Decimal → Decimal
least none x = x
least (some m) x = if eqb_ℤ m zero_dec then x else m

-- What the two legs reserve, and the requests that are sent.
pub record Plan : Type 0 where
  pub buy_venue : Venue
  pub sell_venue : Venue
  pub perp_short : Bool
  pub buy_need : Need
  pub sell_need : Need
  pub buy_req : OrderRequest
  pub sell_req : OrderRequest
  pub sell_reserved : Option Decimal

unfoldable pub plan :
    Engine → Opportunity → Opportunity → String → String → Connector → Connector → Plan
plan e opp fresh base quote b s =
    let tol = div e.settings.trading.leg_price_tolerance_pct (dec 100) in
    let buy_fee = div (or_else fresh.buy.fee_pct zero_dec) (dec 100) in
    let quote_needed = mul (mul fresh.buy.quote_amount (dec 1 +ℤ tol)) (dec 1 +ℤ buy_fee) in
    let short = is_perp fresh.sell.kind in
    record {
      buy_venue = b.venue;
      sell_venue = s.venue;
      perp_short = short;
      buy_need = record { venue = ledger_venue b.venue; asset = quote; amount = quote_needed };
      sell_need = record {
        venue = ledger_venue s.venue;
        asset = if short then quote else base;
        amount = if short then fresh.sell.quote_amount else fresh.sell.base_amount;
      };
      buy_req = record {
        venue = b.venue.name;
        symbol = opp.pair;
        side = OrderSide.buy;
        amount = fresh.size_base;
        limit_price = some (mul fresh.buy.avg_price (dec 1 +ℤ tol));
        min_received = none;
        reduce_only = false;
        quoted_price = some fresh.buy.avg_price;
      };
      sell_req = record {
        venue = s.venue.name;
        symbol = fresh.sell.symbol;
        side = OrderSide.sell;
        amount = fresh.size_base;
        limit_price = some (mul fresh.sell.avg_price (dec 1 -ℤ tol));
        min_received =
            some (least fresh.sell.min_received (mul fresh.sell.quote_amount (dec 1 -ℤ tol)));
        reduce_only = false;
        quoted_price = some fresh.sell.avg_price;
      };
      sell_reserved = if short then some fresh.sell.quote_amount else none;
    }

-- The branches on the two fills, before the accounting.
unfoldable pub close_legs :
    Outside → String → OrderResult → OrderResult → TradeRecord → Engine → TradeRecord × Engine
close_legs o pair b s tr e =
    let exposure = b.filled -ℤ s.filled in
    if not (eqb_ℤ exposure zero_dec)
    then recover o pair exposure tr e
    else if eqb_ℤ b.filled zero_dec && eqb_ℤ s.filled zero_dec
    then (record tr { status = TradeStatus.failed }, count_failure o "repeated order failures" e)
    else (record tr { status = TradeStatus.filled }, e)

-- `ctx.price_usd(quote) or Decimal("1")`
abbrev rate_or_one : Option Decimal → Decimal
rate_or_one none = dec 1
rate_or_one (some px) = if eqb_ℤ px zero_dec then dec 1 else px

-- The state when both legs are done: what is left of the reservations is given back, and failures
-- on chain are counted.
unfoldable pub legs_done :
    Outside → Plan → Decimal → OrderResult → OrderResult → Option PaperLedger → Engine → Engine
legs_done o p size b s l e =
    let simulated = is_simulated (mode_of e) in
    note_dex_failures o b s p.buy_venue p.sell_venue
      (record e { ledger = release_on simulated p.buy_need p.sell_need p.sell_reserved size b s l })

-- What the `try` of `execute` does if nothing raises: both legs, their settlement and the accounting.
unfoldable pub trade_legs :
    Outside
    → Opportunity
    → Opportunity
    → String
    → Plan
    → TradeRecord
    → Engine
    → TradeRecord × Engine
trade_legs o opp fresh quote p tr e =
    let g = o.submit p.buy_req p.sell_req fresh e.ledger in
    let b = as_result g.buy p.buy_req in
    let s = as_result g.sell p.sell_req in
    let tr1 = record tr { buy = some b; sell = some s } in
    let (tr2, e') = close_legs o opp.pair b s tr1 (legs_done o p tr.size_base b s g.ledger e) in
    let out = compute_outcome tr2 (rate_or_one (o.price_usd quote)) tr2.estimated_costs in
    let tr3 = apply_outcome tr2 out in (tr3, post_trade o tr3 out fresh e')

-- The whole `try` with its handler: where an exception is raised, what follows it is not done.
unfoldable pub protected_legs :
    Outside
    → Opportunity
    → Opportunity
    → String
    → Plan
    → TradeRecord
    → Engine
    → TradeRecord × Engine
protected_legs o opp fresh quote p tr e =
    let g = o.submit p.buy_req p.sell_req fresh e.ledger in
    let b = as_result g.buy p.buy_req in
    let s = as_result g.sell p.sell_req in
    let tr1 = record tr { buy = some b; sell = some s } in
    let e1 = legs_done o p tr.size_base b s g.ledger e in
    caught o e.experience
      (legs_fault o opp.pair (b.filled -ℤ s.filled) tr1 e1 (close_legs o opp.pair b s tr1 e1))
      (trade_legs o opp fresh quote p tr e)

abbrev pub discard : String → List String → List String
discard id [] = []
discard id (x ∷ xs) = let rest = discard id xs in if x == id then rest else x ∷ rest

-- `set.add`
abbrev pub add_id : String → List String → List String
add_id id xs = id ∷ discard id xs

unfoldable pub begin : TradeRecord → Engine → Engine
begin tr e = record e {
  open_trade_ids = add_id tr.id e.open_trade_ids;
  active = add_id tr.id e.active;
}

-- `finally`
unfoldable pub finish : TradeRecord → Engine → Engine
finish tr e = record e {
  open_trade_ids = discard tr.id e.open_trade_ids;
  active = discard tr.id e.active;
  recent = append_recent tr e.recent;
  inventory = Inventory.release tr.id e.inventory;
}

abbrev pub after_reserving :
    Outside
    → Opportunity
    → Opportunity
    → String
    → Plan
    → TradeRecord
    → Engine × Bool
    → Engine × Ended
after_reserving o opp fresh quote p tr (e, false) = abort Abort.reservation_failed tr e
after_reserving o opp fresh quote p tr (e, true) =
    let (tr', e') =
      protected_legs o opp fresh quote p (record tr { status = TradeStatus.executing })
        (begin tr e) in
    (finish tr' e', traded tr')

abbrev pub with_venues :
    Outside
    → Opportunity
    → Opportunity
    → Option (String × String)
    → Option Connector
    → Option Connector
    → TradeRecord
    → Engine
    → Engine × Ended
with_venues o opp fresh none b s tr e = (e, Ended.raised)
with_venues o opp fresh (some (base, quote)) none s tr e = (e, Ended.raised)
with_venues o opp fresh (some (base, quote)) (some b) none tr e = (e, Ended.raised)
with_venues o opp fresh (some (base, quote)) (some b) (some s) tr e =
    let p = plan e opp fresh base quote b s in
    after_reserving o opp fresh quote p tr (reserve_legs tr.id p.buy_need p.sell_need e)

-- The fresh evaluation must still be safe.
abbrev pub by_decision :
    Outside → Opportunity → Opportunity → TradeRecord → Engine → Decision → Engine × Ended
by_decision o opp fresh tr e blocked = abort Abort.not_safe tr e
by_decision o opp fresh tr e safe_to_execute =
    with_venues o opp fresh (split_pair opp.pair) (o.connectors fresh.buy.venue)
      (o.connectors fresh.sell.venue) tr e

abbrev pub revalidated :
    Outside → Opportunity → Option Opportunity → TradeRecord → Engine → Engine × Ended
revalidated o opp none tr e = abort Abort.no_quote tr e
revalidated o opp (some fresh) tr e =
    by_decision o opp fresh (reestimated fresh tr) e fresh.decision

abbrev pub admitted : Outside → Opportunity → Option Abort → TradeRecord → Engine → Engine × Ended
admitted o opp (some reason) tr e = abort reason tr e
admitted o opp none tr e =
    if o.has_candidate then revalidated o opp o.reevaluated tr e else abort Abort.no_candidate tr e

unfoldable pub execute : Outside → Opportunity → Bool → Engine → Engine × Ended
execute o opp allow_carry e =
    admitted o opp (precondition o opp allow_carry e) (new_trade o.new_id opp e) e
