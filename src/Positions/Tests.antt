-- ===== src/Positions/Tests.antt =====
-- engine/positions.py, with a position in BTC on kraken and bybit.
use fedr.Base.{
  String, ◌≡◌, refl, ◌⊎◌, inl, true, Option, none, some, List, [], ◌∷◌, if◌then◌else◌, arith,
}
use fedr.Int.{negsuc}
use fedr.Decimal.{Decimal, zero_dec, dec, cents}
use fedr.Dict.{lookup}
use fedr.Breakers.{initial, is_tripped}
use fedr.Ledger.{OrderSide}
use fedr.Models.{cex, basis}
use fedr.Orders.{OrderRequest, OrderResult}
use fedr.Executor.Tests.{engine, quote_of, fill_of}
use fedr.Positions.{
  Position, PositionManager, PositionStatus, open_position, closing, Market, ExitReason, requested,
  default_policy, mills,
}
use fedr.Positions.Close.{close}
use fedr.Positions.Desk.{monitor, monitor_one}
use fedr.Positions.Shorts.{reconcile}
use fedr.Positions.Tracked.{
  Call, accrues, monitors, closes, closes_all, reconciles, run, IsTracked, run-IsTracked,
}
use fedr.Positions.Stuck.{run-closing_stuck, monitor-suspended}
use fedr.Positions.Outcomes.{IsCloseOf, close-IsCloseOf}
use fedr.Positions.Exits.{funded_by, monitor_one-negative_funding}
use fedr.Positions.Reported.{Agrees, reconcile-detects}

abbrev held : PositionStatus → Position
held st = record {
  id = "p1";
  strategy = basis;
  pair = "BTC/USDC";
  spot_venue = "coinbase";
  perp_venue = "bybit";
  perp_symbol = "BTC/USDC:USDC";
  size_base = dec 1;
  status = st;
  entry_spot_price = dec 100;
  entry_perp_price = dec 101;
  entry_basis_pct = dec 1;
  funding_collected_usd = zero_dec;
  fees_usd = cents 20;
  opened_at_ms = some 1000;
  exit_reason = none;
  exit_spot_price = none;
  exit_perp_price = none;
  realized_net_usd = none;
  funding_periods = [];
  negative_funding_streak = 0;
  last_funding_ms = none;
}

abbrev manager : PositionStatus → PositionManager
manager st = record {
  engine = engine;
  policy = default_policy;
  open_positions = ("p1", held st) ∷ [];
}

abbrev answer : OrderRequest → Option Decimal → Option OrderResult
answer req none = if req.reduce_only then none else some (fill_of req (dec 100))
answer req (some x) = some (
    if req.reduce_only
    then record (fill_of req (dec 101)) { filled = x }
    else fill_of req (dec 100))

-- The sale is filled; the purchase has no answer, or is filled for `part`.
abbrev market : Option Decimal → Market
market part = record {
  new_id = "t9";
  now_ms = 50000000;
  best_bid = λ v s. some (dec 100);
  best_ask = λ v s. some (dec 101);
  connectors = λ v. some (record { name = v; kind = cex; chain = none });
  close_quotes = λ p.
      some (quote_of "coinbase" OrderSide.sell (dec 100), quote_of "bybit" OrderSide.buy (dec 101));
  submit = λ req q l. (l, answer req part);
}

abbrev day : List Call
day =
    accrues (market none) (λ v s. some (some (mills 1)))
    ∷ monitors (market (some (dec 1)))
    ∷ closes (market (some zero_dec)) "p1" (requested "manual")
    ∷ closes_all (market (some (dec 1))) (requested "emergency")
    ∷ reconciles (market none) []
    ∷ []

run-IsTracked_example : IsTracked (run day (manager open_position)).open_positions
unfolding lookup
run-IsTracked_example = run-IsTracked day (manager open_position) ((refl, refl, tt), (refl, tt))

run-closing_stuck_example :
    lookup "p1" (run day (manager closing)).open_positions ≡ some (held closing)
unfolding lookup
run-closing_stuck_example =
    run-closing_stuck "p1" (held closing) day (manager closing) ((refl, refl, tt), (refl, tt)) refl
      refl tt

monitor-suspended_example :
    let m = record (manager open_position) { engine = record engine { emergency_stop = true } } in
    monitor (market none) m ≡ m
monitor-suspended_example =
    monitor-suspended (market none)
      (record (manager open_position) { engine = record engine { emergency_stop = true } })
      (inl (refl, refl))

close-IsCloseOf_example : IsCloseOf (held open_position) engine.inventory engine.breakers (
    close
      (market (some zero_dec))
      (held open_position)
      (requested "manual")
      (manager open_position))
unfolding lookup initial
close-IsCloseOf_example =
    close-IsCloseOf (market (some zero_dec)) (held open_position) (requested "manual")
      (manager open_position) (refl, tt) (tt, tt) refl

monitor_one-negative_funding_example :
    let p = funded_by (market none) (negsuc 0 ∷ negsuc 0 ∷ []) (held open_position) in
    (reason : ExitReason) × (monitor_one (market none) p (manager open_position)
      ≡ (close (market none) p reason (manager open_position)).0)
unfolding is_tripped fedr.Breakers.has_scope initial
monitor_one-negative_funding_example =
    monitor_one-negative_funding (market none) (negsuc 0 ∷ negsuc 0 ∷ []) (held open_position)
      (manager open_position) refl (omega arith, (omega arith, tt)) (omega arith) refl refl

reconcile-detects_example :
    (is_tripped (reconcile (market none) [] (manager open_position)).0.engine.breakers "global"
      ≡ true)
    ⊎ ((sym : String) → Agrees [] (manager open_position).open_positions sym)
unfolding initial
reconcile-detects_example = reconcile-detects (market none) [] (manager open_position) (tt, tt)
