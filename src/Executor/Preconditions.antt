-- ===== src/Executor/Preconditions.antt =====
-- The hard preconditions of `execute` of engine/execution/executor.py, and `_abort`.
use fedr.Base.{
  ℕ, zero, suc, ◌-◌, String, Bool, true, false, not, ◌&&◌, Option, none, some, List, [], ◌∷◌, ◌++◌,
  if◌then◌else◌, length,
}
use fedr.Int.{pos, leb_ℤ}
use fedr.Breakers.{is_tripped}
use fedr.Models.{
  TradingMode, simulation, paper, testnet, live, Strategy, cex_cex, cex_dex, dex_dex, spot_perp,
  funding, basis,
}
use fedr.Orders.{TradeRecord, TradeStatus}
use fedr.Executor.{Engine, Opportunity, Connector, Outside, Abort}
use fedr.Executor.Reserving.{mode_of}

abbrev pub is_live : TradingMode → Bool
is_live live = true
is_live _ = false

abbrev is_real : TradingMode → Bool
is_real live = true
is_real testnet = true
is_real simulation = false
is_real paper = false

abbrev enabled : Option Connector → Bool
enabled none = true
enabled (some c) = c.trading_enabled

abbrev is_carry : Strategy → Bool
is_carry spot_perp = true
is_carry funding = true
is_carry basis = true
is_carry cex_cex = false
is_carry cex_dex = false
is_carry dex_dex = false
is_carry Strategy.flash_loan = false

abbrev is_flash_loan : Strategy → Bool
is_flash_loan Strategy.flash_loan = true
is_flash_loan _ = false

-- The first precondition that fails, in the order of the code.
unfoldable pub precondition : Outside → Opportunity → Bool → Engine → Option Abort
precondition o opp allow_carry e =
    let s = e.settings in
    if e.emergency_stop
    then some Abort.emergency_stop
    else if is_live (mode_of e) && not s.live.activated
    then some Abort.live_not_activated
    else if is_real (mode_of e)
        && not e.has_paper_executor
        && not (enabled (o.connectors opp.buy.venue) && enabled (o.connectors opp.sell.venue))
    then some Abort.not_enabled
    else if s.general.shadow_mode
    then some Abort.shadow_mode
    else if leb_ℤ s.risk.max_concurrent_trades (pos (length e.open_trade_ids))
    then some Abort.too_many_trades
    else if is_tripped e.breakers "global"
    then some Abort.breaker_active
    else if is_flash_loan opp.strategy
    then some Abort.flash_loan
    else if is_carry opp.strategy && not allow_carry
    then some Abort.carry_not_allowed
    else none

abbrev drop_first : ℕ → List TradeRecord → List TradeRecord
drop_first zero xs = xs
drop_first (suc n) [] = []
drop_first (suc n) (_ ∷ xs) = drop_first n xs

-- `self.recent.append(tr); self.recent = self.recent[-100:]`
unfoldable pub append_recent : TradeRecord → List TradeRecord → List TradeRecord
append_recent tr recent = let all = recent ++ tr ∷ [] in drop_first (length all - 100) all

unfoldable pub new_trade : String → Opportunity → Engine → TradeRecord
new_trade id opp e = record {
  id = id;
  mode = mode_of e;
  strategy = opp.strategy;
  size_base = opp.size_base;
  status = TradeStatus.pending;
  estimated_gross = opp.gross_profit;
  estimated_net = opp.expected_net_profit;
  estimated_worst_case = opp.worst_case_profit;
  estimated_costs = opp.expected_costs;
  buy = none;
  sell = none;
  hedge = none;
  actual_gross = none;
  actual_fees = none;
  actual_gas = none;
  actual_net = none;
  prediction_error = none;
}

-- the estimates of the fresh evaluation
unfoldable pub reestimated : Opportunity → TradeRecord → TradeRecord
reestimated fresh tr = record tr {
  estimated_gross = fresh.gross_profit;
  estimated_net = fresh.expected_net_profit;
  estimated_worst_case = fresh.worst_case_profit;
  estimated_costs = fresh.expected_costs;
}
