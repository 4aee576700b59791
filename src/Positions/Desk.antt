-- ===== src/Positions/Desk.antt =====
-- The operations of engine/positions.py over all positions, and how one is opened.
use fedr.Base.{
  ℕ, zero, suc, String, Bool, true, false, ◌&&◌, Option, none, some, [], ◌∷◌, if◌then◌else◌,
  or_else,
}
use fedr.Int.{pos, ◌+ℤ◌, ◌-ℤ◌, leb_ℤ, eqb_ℤ}
use fedr.Decimal.{Decimal, zero_dec, dec, mul, div}
use fedr.Dict.{Dict, lookup}
use fedr.Breakers.{is_tripped}
use fedr.Orders.{OrderResult, TradeRecord, TradeStatus}
use fedr.Hedge.{truncate}
use fedr.Executor.{Engine, Opportunity, Outside, Ended, traded, aborted}
use fedr.Executor.Run.{execute}
use fedr.Executor.Preconditions.{new_trade}
use fedr.Positions.{
  CarryPolicy, ExitReason, flattened, Position, PositionManager, PositionStatus, open_position,
  closing, closed, Market, put,
}
use fedr.Positions.Carry.{mark, exit_reason_for, is_anomaly, note_anomaly, accrue_funding}
use fedr.Positions.Close.{close}

abbrev pub is_open : PositionStatus → Bool
is_open open_position = true
is_open closing = false
is_open closed = false

-- How an attempt to open ends; a pair with a leg without a price raises, and so does a price of 0,
-- by which the basis is divided.
pub data OpenEnd : Type 0 where
  opened : TradeRecord → Position → OpenEnd
  not_opened : TradeRecord → OpenEnd
  refused : OpenEnd

unfoldable pub new_position :
    Market → Opportunity → OrderResult → OrderResult → Decimal → Decimal → Position
new_position o opp buy sell spot_px perp_px = record {
  id = o.new_id;
  strategy = opp.strategy;
  pair = opp.pair;
  spot_venue = opp.buy.venue;
  perp_venue = opp.sell.venue;
  perp_symbol = opp.sell.symbol;
  size_base = buy.filled;
  status = open_position;
  entry_spot_price = spot_px;
  entry_perp_price = perp_px;
  entry_basis_pct = mul (div (perp_px -ℤ spot_px) spot_px) (dec 100);
  funding_collected_usd = zero_dec;
  fees_usd = buy.fee_quote +ℤ sell.fee_quote;
  opened_at_ms = some o.now_ms;
  exit_reason = none;
  exit_spot_price = none;
  exit_perp_price = none;
  realized_net_usd = none;
  funding_periods = [];
  negative_funding_streak = 0;
  last_funding_ms = none;
}

abbrev pub enter :
    Market
    → Opportunity
    → TradeRecord
    → OrderResult
    → OrderResult
    → Option Decimal
    → Option Decimal
    → PositionManager
    → PositionManager × OpenEnd
enter o opp tr buy sell none perp_px m = (m, refused)
enter o opp tr buy sell (some spot_px) none m = (m, refused)
enter o opp tr buy sell (some spot_px) (some perp_px) m =
    let p = new_position o opp buy sell spot_px perp_px in
    if eqb_ℤ spot_px zero_dec then (m, refused) else (put p m, opened tr p)

abbrev pub with_legs :
    Market
    → Opportunity
    → TradeRecord
    → Option OrderResult
    → Option OrderResult
    → PositionManager
    → PositionManager × OpenEnd
with_legs o opp tr none sell m = (m, not_opened tr)
with_legs o opp tr (some buy) none m = (m, not_opened tr)
with_legs o opp tr (some buy) (some sell) m = enter o opp tr buy sell buy.avg_price sell.avg_price m

abbrev pub is_filled : TradeStatus → Bool
is_filled TradeStatus.filled = true
is_filled _ = false

abbrev pub after_execution :
    Market → Opportunity → PositionManager → Engine × Ended → PositionManager × OpenEnd
after_execution o opp m (e, traded tr) =
    let m' = record m { engine = e } in
    if is_filled tr.status then with_legs o opp tr tr.buy tr.sell m' else (m', not_opened tr)
after_execution o opp m (e, aborted r tr) = (record m { engine = e }, not_opened tr)
after_execution o opp m (e, Ended.raised) = (record m { engine = e }, refused)

abbrev pub anomalous : CarryPolicy → Option Decimal → Bool
anomalous c none = false
anomalous c (some rate) = is_anomaly c rate

-- `open_from_opportunity`, with the rate of `extra["carry"]`
unfoldable pub open_from_opportunity :
    Market → Outside → Opportunity → Option Decimal → PositionManager → PositionManager × OpenEnd
open_from_opportunity o x opp rate m =
    let e = m.engine in
    let noted = record e {
      breakers = note_anomaly o m.policy (or_else rate zero_dec) e.breakers;
    } in
    if anomalous m.policy rate
    then (
      record m { engine = noted },
      not_opened (record (new_trade o.new_id opp e) { status = TradeStatus.aborted }),
    )
    else after_execution o opp m (execute x opp true e)

-- Whether the automatic exits are suspended, and otherwise the reason to close.
unfoldable pub exit_for : Market → PositionManager → Position → Option ExitReason
exit_for o m p =
    let rule = exit_reason_for m.policy p (mark o p) in
    if m.engine.emergency_stop
    then if m.policy.flatten_on_emergency_stop then some flattened else none
    else if is_tripped m.engine.breakers "global"
    then none
    else rule

abbrev pub close_for : Market → Position → Option ExitReason → PositionManager → PositionManager
close_for o p none m = m
close_for o p (some reason) m = (close o p reason m).0

unfoldable pub monitor_one : Market → Position → PositionManager → PositionManager
monitor_one o p m = if is_open p.status then close_for o p (exit_for o m p) m else m

-- The loop over `list(self.open.values())`. No round changes another position, so each round reads
-- the position as it was at the start.
unfoldable pub monitor_all : Market → Dict Position → PositionManager → PositionManager
monitor_all o [] m = m
monitor_all o ((_, p) ∷ ps) m = monitor_all o ps (monitor_one o p m)

-- `monitor`, without the rows that it returns
unfoldable pub monitor : Market → PositionManager → PositionManager
monitor o m = monitor_all o m.open_positions m

unfoldable pub is_due : Market → PositionManager → Position → Bool
is_due o m p =
    let last = or_zero p.last_funding_ms p.opened_at_ms in
    leb_ℤ (truncate (mul m.policy.funding_interval_hours (dec 3600000))) (pos o.now_ms -ℤ pos last)
  where
    -- None and 0 give way to the time of opening
    or_zero : Option ℕ → Option ℕ → ℕ
    or_zero none start = or_else start 0
    or_zero (some zero) start = or_else start 0
    or_zero (some (suc t)) start = suc t

-- `rate_provider`: None for an exception, and otherwise the rate, if it is known
abbrev pub accrue_at :
    Market → Option (Option Decimal) → Position → PositionManager → PositionManager
accrue_at o none p m = m
accrue_at o (some rate) p m =
    let p' = record p { last_funding_ms = some o.now_ms } in accrue_funding o rate p' (put p' m)

unfoldable pub accrue_one :
    Market
    → (String → String → Option (Option Decimal))
    → Position
    → PositionManager
    → PositionManager
accrue_one o rates p m =
    if is_open p.status && is_due o m p
    then accrue_at o (rates p.perp_venue p.perp_symbol) p m
    else m

unfoldable pub accrue_all :
    Market
    → (String → String → Option (Option Decimal))
    → Dict Position
    → PositionManager
    → PositionManager
accrue_all o rates [] m = m
accrue_all o rates ((_, p) ∷ ps) m = accrue_all o rates ps (accrue_one o rates p m)

-- `accrue_due_funding`, without the count
unfoldable pub accrue_due_funding :
    Market → (String → String → Option (Option Decimal)) → PositionManager → PositionManager
accrue_due_funding o rates m = accrue_all o rates m.open_positions m

unfoldable pub close_one : Market → ExitReason → Position → PositionManager → PositionManager
close_one o reason p m = if is_open p.status then (close o p reason m).0 else m

unfoldable pub close_each : Market → ExitReason → Dict Position → PositionManager → PositionManager
close_each o reason [] m = m
close_each o reason ((_, p) ∷ ps) m = close_each o reason ps (close_one o reason p m)

-- `close_all`, without the list of trades
unfoldable pub close_all : Market → ExitReason → PositionManager → PositionManager
close_all o reason m = close_each o reason m.open_positions m

abbrev pub close_found : Market → ExitReason → Option Position → PositionManager → PositionManager
close_found o reason none m = m
close_found o reason (some p) m = close_one o reason p m

-- The request of api/routes/trading.py to close a position, which refuses one that is not open.
unfoldable pub close_requested : Market → String → ExitReason → PositionManager → PositionManager
close_requested o id reason m = close_found o reason (lookup id m.open_positions) m
