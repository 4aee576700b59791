-- ===== src/Router/Tests.antt =====
-- engine/opportunity.py, with a route from kraken to coinbase.
use fedr.Base.{
  ℕ, String, ◌≡◌, refl, true, false, Option, none, some, [], ◌∷◌, ◌==◌, if◌then◌else◌, arith,
  is_empty, is_none, or_else,
}
use fedr.Int.{pos, ◌≤ℤ◌}
use fedr.Decimal.{Decimal, zero_dec, dec}
use fedr.Models.{cex, cex_cex, healthy, safe_to_execute, blocked, ExecutionQuote, Decision}
use fedr.Ledger.{OrderSide}
use fedr.Orders.{Venue}
use fedr.Risk.{PortfolioState}
use fedr.Executor.Run.{execute}
use fedr.Executor.Tests.{engine, chance, good, quote_of}
use fedr.Router.{RouteCandidate, Scene, Evaluation, RouteReason, of_profit, of_risk}
use fedr.Router.Gate.{guard_inputs}
use fedr.Router.Deciding.{assess_route}
use fedr.Router.Cleared.{IsCleared, assess_route-IsCleared}
use fedr.Router.Sizing.{pick_size, target_of}
use fedr.Router.Bounds.{IsSized, pick_size-IsSized}
use fedr.Router.Evaluating.{evaluate_picked, evaluate_sized}
use fedr.Router.Trades.{IsClearedFor, with_router, is_traded, execute-IsClearedFor}
use fedr.Router.Ranking.{annotate_alternatives, route_name, outranks}
use fedr.Router.Alternatives.{nth, annotate_alternatives-best}
use fedr.Profit.{ProfitGuardInputs}
use fedr.Profit.Verdict.{blocked_by}
use fedr.Router.Candidates.{ScanSetup, candidates}
use fedr.Router.Routes.{Each, IsRoute, candidates-IsRoute}
use fedr.Router.Capped.{evaluate_picked-capped}

abbrev holds : String → String → Option Decimal
holds venue asset = some (if asset == "USDC" then dec 500 else dec 2)

abbrev portfolio : PortfolioState
portfolio = record {
  total_capital_usd = dec 5000;
  exposure_by_venue_usd = [];
  exposure_by_chain_usd = [];
  exposure_by_asset_usd = [];
  open_trades = pos 0;
  daily_realized_pnl_usd = zero_dec;
  failed_trades_last_hour = pos 0;
  venue_health = ("kraken", healthy) ∷ ("coinbase", healthy) ∷ [];
  available_balances = holds;
  unhedged_seconds = pos 0;
  active_breakers = [];
  gas_reserve_ok = [];
}

abbrev buy_quote : ExecutionQuote
buy_quote = quote_of "kraken" OrderSide.buy (dec 100)

abbrev sell_quote : ExecutionQuote
sell_quote = quote_of "coinbase" OrderSide.sell (dec 110)

abbrev candidate : RouteCandidate
candidate = record {
  strategy = cex_cex;
  pair = "BTC/USDC";
  buy = record { name = "kraken"; kind = cex; chain = none };
  sell = record { name = "coinbase"; kind = cex; chain = none };
  flash_loan = false;
}

abbrev told : RouteReason → String
told (of_profit r) = "profit"
told (of_risk r) = "risk"
told r = "other"

abbrev scene : Scene
scene = record {
  now_ms = 2000;
  ttl_ms = 5000;
  new_id = "o1";
  gas_baseline = record { alpha = zero_dec; baseline = []; samples = [] };
  snapshot = λ c. none;
  price_usd = λ a. some (if a == "USDC" then dec 1 else dec 100);
  book = λ v s. none;
  amount_step = λ v s. none;
  portfolio = portfolio;
  usable_capital_usd = dec 5000;
  quotes = λ c size. some (buy_quote, sell_quote, none);
  simulator = none;
  say = told;
}

abbrev cleared_inputs : ProfitGuardInputs
cleared_inputs =
    guard_inputs scene engine candidate "USDC" buy_quote sell_quote (dec 1) (dec 100) none

abbrev cleared : Evaluation
cleared =
    assess_route scene engine portfolio candidate "BTC" "USDC" buy_quote sell_quote (dec 1)
      (dec 100) [] none

cleared-safe : cleared.decision ≡ safe_to_execute
unfolding fedr.Router.Texts.add_new fedr.Router.Gate.gas_of fedr.Router.Gate.flash_terms
    fedr.Router.Gate.guard_inputs fedr.Router.Deciding.breaker_reasons
    fedr.Router.Deciding.risk_request fedr.Router.Deciding.guard_reasons
    fedr.Router.Deciding.all_reasons_of fedr.Router.Deciding.portfolio_with
    fedr.Router.Deciding.assess_route fedr.Profit.total fedr.Profit.Steps.attribute_cex_leg
    fedr.Profit.Steps.attribute_leg fedr.Profit.Steps.charge_gas fedr.Profit.Steps.gas_reasons
    fedr.Profit.Steps.charge_transfers fedr.Profit.Steps.charge_funding
    fedr.Profit.Steps.charge_round_trips fedr.Profit.Steps.charge_allowances
    fedr.Profit.Steps.charge_buffer fedr.Profit.Steps.charge_flash_loan
    fedr.Profit.Assess.trade_size fedr.Profit.Assess.is_on_chain fedr.Profit.Assess.notional_at
    fedr.Profit.Assess.leg_costs fedr.Profit.Assess.all_costs fedr.Profit.Assess.from_keys
    fedr.Profit.Assess.by_regime fedr.Profit.Assess.min_profit fedr.Profit.Assess.min_worst
    fedr.Profit.Assess.depth_reasons fedr.Profit.Assess.age_reasons fedr.Profit.Assess.flash_reasons
    fedr.Profit.Assess.extreme_reasons fedr.Profit.Assess.unknown_reasons
    fedr.Profit.Assess.min_reasons fedr.Profit.Assess.gas_share_reasons
    fedr.Profit.Assess.ratio_reasons fedr.Profit.Verdict.capital_needed fedr.Profit.Verdict.roi_at
    fedr.Profit.Verdict.reasons_at fedr.Profit.Verdict.assess_at fedr.Profit.Verdict.assess
    fedr.Risk.stage_reasons fedr.Risk.size_reasons fedr.Risk.state_reasons fedr.Risk.request_reasons
    fedr.Risk.Score.to_int fedr.Risk.Score.of_int fedr.Risk.Score.exposure_reasons
    fedr.Risk.Score.capital_reasons fedr.Risk.Score.balance_reasons fedr.Risk.Score.reserve_reasons
    fedr.Risk.Score.all_health fedr.Risk.Score.slip_total fedr.Risk.Score.usage_score
    fedr.Risk.Score.soft_score fedr.Risk.Verdict.score_of fedr.Risk.Verdict.refusals
    fedr.Risk.Verdict.assess fedr.Breakers.initial fedr.Breakers.blocks fedr.Guards.insert_tier
    fedr.Guards.sort_tiers fedr.Guards.first_tier fedr.Guards.limit_for fedr.Guards.check_slippage
    fedr.Guards.stale_legs fedr.Guards.check_latency fedr.Decimal.cents fedr.Decimal.round_div
    fedr.Decimal.mul fedr.Decimal.div fedr.Decimal.pct fedr.Decimal.pct_of fedr.Int.◌+ℤ◌
    fedr.Int.◌-ℤ◌ fedr.Dict.lookup fedr.Models.age_ms fedr.Experience.extra_buffer_pct
cleared-safe = refl

assess_route-IsCleared_example :
    IsCleared scene engine portfolio candidate "BTC" "USDC"
      (guard_inputs scene engine candidate "USDC" buy_quote sell_quote (dec 1) (dec 100) none)
      cleared
assess_route-IsCleared_example =
    assess_route-IsCleared scene engine portfolio candidate "BTC" "USDC" buy_quote sell_quote
      (dec 1) (dec 100) [] none cleared-safe

evaluated-traded :
    is_traded (execute (with_router scene engine candidate (dec 1) good) chance false engine).1
    ≡ true
unfolding fedr.Router.Texts.add_new fedr.Router.Gate.gas_of fedr.Router.Gate.flash_terms
    fedr.Router.Gate.guard_inputs fedr.Router.Deciding.breaker_reasons
    fedr.Router.Deciding.risk_request fedr.Router.Deciding.guard_reasons
    fedr.Router.Deciding.all_reasons_of fedr.Router.Deciding.portfolio_with
    fedr.Router.Deciding.assess_route fedr.Profit.total fedr.Profit.Steps.attribute_cex_leg
    fedr.Profit.Steps.attribute_leg fedr.Profit.Steps.charge_gas fedr.Profit.Steps.gas_reasons
    fedr.Profit.Steps.charge_transfers fedr.Profit.Steps.charge_funding
    fedr.Profit.Steps.charge_round_trips fedr.Profit.Steps.charge_allowances
    fedr.Profit.Steps.charge_buffer fedr.Profit.Steps.charge_flash_loan
    fedr.Profit.Assess.trade_size fedr.Profit.Assess.is_on_chain fedr.Profit.Assess.notional_at
    fedr.Profit.Assess.leg_costs fedr.Profit.Assess.all_costs fedr.Profit.Assess.from_keys
    fedr.Profit.Assess.by_regime fedr.Profit.Assess.min_profit fedr.Profit.Assess.min_worst
    fedr.Profit.Assess.depth_reasons fedr.Profit.Assess.age_reasons fedr.Profit.Assess.flash_reasons
    fedr.Profit.Assess.extreme_reasons fedr.Profit.Assess.unknown_reasons
    fedr.Profit.Assess.min_reasons fedr.Profit.Assess.gas_share_reasons
    fedr.Profit.Assess.ratio_reasons fedr.Profit.Verdict.capital_needed fedr.Profit.Verdict.roi_at
    fedr.Profit.Verdict.reasons_at fedr.Profit.Verdict.assess_at fedr.Profit.Verdict.assess
    fedr.Risk.stage_reasons fedr.Risk.size_reasons fedr.Risk.state_reasons fedr.Risk.request_reasons
    fedr.Risk.Score.to_int fedr.Risk.Score.of_int fedr.Risk.Score.exposure_reasons
    fedr.Risk.Score.capital_reasons fedr.Risk.Score.balance_reasons fedr.Risk.Score.reserve_reasons
    fedr.Risk.Score.all_health fedr.Risk.Score.slip_total fedr.Risk.Score.usage_score
    fedr.Risk.Score.soft_score fedr.Risk.Verdict.score_of fedr.Risk.Verdict.refusals
    fedr.Risk.Verdict.assess fedr.Breakers.initial fedr.Breakers.blocks fedr.Guards.insert_tier
    fedr.Guards.sort_tiers fedr.Guards.first_tier fedr.Guards.limit_for fedr.Guards.check_slippage
    fedr.Guards.stale_legs fedr.Guards.check_latency fedr.Decimal.cents fedr.Decimal.round_div
    fedr.Decimal.mul fedr.Decimal.div fedr.Decimal.pct fedr.Decimal.pct_of fedr.Int.◌+ℤ◌
    fedr.Int.◌-ℤ◌ fedr.Dict.lookup fedr.Models.age_ms fedr.Experience.extra_buffer_pct
    fedr.Executor.Run.plan fedr.Executor.Run.close_legs fedr.Executor.Run.legs_done
    fedr.Executor.Run.trade_legs fedr.Executor.Run.protected_legs fedr.Executor.Faults.legs_fault
    fedr.Executor.Faults.recovery_fault fedr.Executor.Run.begin fedr.Executor.Run.finish
    fedr.Executor.Run.execute fedr.Executor.Preconditions.precondition
    fedr.Executor.Preconditions.new_trade fedr.Executor.Preconditions.reestimated
    fedr.Executor.Reserving.reserve_pair fedr.Executor.Reserving.reserve_legs
    fedr.Executor.Settling.as_result fedr.Executor.Settling.count_failure
    fedr.Executor.Settling.note_dex_failures fedr.Executor.Settling.recover
    fedr.Executor.Settling.check_variances fedr.Executor.Settling.check_daily_loss
    fedr.Executor.Settling.post_trade fedr.Ledger.get fedr.Ledger.balances fedr.Ledger.put
    fedr.Ledger.acct fedr.Ledger.touched fedr.Ledger.reserve fedr.Inventory.find
    fedr.Inventory.reserved_for fedr.Inventory.available fedr.Inventory.can_reserve
    fedr.Inventory.reserve fedr.Breakers.has_scope fedr.Breakers.is_tripped fedr.Orders.quote_amount
    fedr.Orders.split_pair fedr.Paper.ledger_venue fedr.Accounting.leg_value
    fedr.Accounting.compute_outcome fedr.Accounting.apply_outcome fedr.Dict.insert fedr.Dict.sum_by
    fedr.Router.Evaluating.evaluate_sized fedr.Router.Evaluating.evaluate_at
    fedr.Router.Trades.to_opportunity fedr.Router.Trades.with_router
evaluated-traded = refl

execute-IsClearedFor_example :
    (v : Evaluation) × (evaluate_sized scene engine candidate (dec 1) ≡ some v)
    × IsClearedFor scene engine candidate v
execute-IsClearedFor_example =
    execute-IsClearedFor scene engine candidate (dec 1) good chance false evaluated-traded

pick_size-IsSized_example :
    let size = (pick_size scene engine candidate "BTC" "USDC" (dec 100)).size in
    (pos 0 ≤ℤ size)
    × IsSized scene engine candidate "BTC" "USDC"
        (dec 100)
        (target_of scene engine.settings candidate)
        size
pick_size-IsSized_example = pick_size-IsSized scene engine candidate "BTC" "USDC" (dec 100)

-- The engine holds two coins, and the target is more.
picked-noted : is_empty (pick_size scene engine candidate "BTC" "USDC" (dec 100)).notes ≡ false
unfolding pick_size fedr.Router.Sizing.caps target_of fedr.Router.Sizing.by_inventory
    fedr.Router.Sizing.capped fedr.Router.Sizing.worth fedr.Router.Sizing.sell_note
    fedr.Inventory.available fedr.Inventory.find fedr.Inventory.reserved_for fedr.Dict.sum_by
    fedr.Paper.ledger_venue fedr.Decimal.mul fedr.Decimal.div fedr.Decimal.pct_of
    fedr.Decimal.round_div fedr.Decimal.unit fedr.Decimal.cents fedr.Int.◌-ℤ◌
picked-noted = refl

abbrev picked : Evaluation
picked = or_else (evaluate_picked scene engine candidate "BTC" "USDC" (dec 100)) cleared

some_again : (o : Option Evaluation) → is_none o ≡ false → o ≡ some (or_else o cleared)
some_again none h = ground arith
some_again (some v) h = refl

picked-some : evaluate_picked scene engine candidate "BTC" "USDC" (dec 100) ≡ some picked
unfolding evaluate_picked fedr.Router.Evaluating.evaluate_at
picked-some = some_again (evaluate_picked scene engine candidate "BTC" "USDC" (dec 100)) refl

evaluate_picked-capped_example : picked.decision ≡ blocked
evaluate_picked-capped_example =
    evaluate_picked-capped scene engine candidate "BTC" "USDC" (dec 100) picked refl picked-noted
      picked-some

-- The same route twice, the second time with a smaller worst case.
abbrev earns : Decimal → Evaluation
earns x = record cleared {
  decision = safe_to_execute;
  profit = record (blocked_by cleared_inputs []) { worst_case_profit = x };
}

annotated-first :
    nth 0 (annotate_alternatives scene (earns (dec 2) ∷ earns (dec 1) ∷ [])) ≡ some (earns (dec 2))
unfolding annotate_alternatives fedr.Router.Ranking.annotate_from fedr.Router.Ranking.champion
    fedr.Router.Ranking.demoted fedr.Router.Ranking.outranks fedr.Router.Ranking.route_name
    assess_route fedr.Decimal.unit
annotated-first = refl

annotate_alternatives-best_example :
    (nth 0 (earns (dec 2) ∷ earns (dec 1) ∷ []) ≡ some (earns (dec 2)))
    × ((j : ℕ) (w : Evaluation)
        → nth j (earns (dec 2) ∷ earns (dec 1) ∷ []) ≡ some w
        → route_name w ≡ route_name (earns (dec 2))
        → outranks w (earns (dec 2)) ≡ false)
    × ((j : ℕ) (w : Evaluation)
        → nth j (annotate_alternatives scene (earns (dec 2) ∷ earns (dec 1) ∷ [])) ≡ some w
        → route_name w ≡ route_name (earns (dec 2))
        → w.decision ≡ safe_to_execute
        → j ≡ 0)
annotate_alternatives-best_example =
    annotate_alternatives-best scene (earns (dec 2) ∷ earns (dec 1) ∷ []) 0 (earns (dec 2))
      annotated-first refl

abbrev venues : ScanSetup
venues = record {
  venues = candidate.buy ∷ candidate.sell ∷ [];
  supports = λ v symbol. true;
  enabled = λ st. true;
  flash_loans = true;
  pairs = "BTC/USDC" ∷ [];
}

candidates-IsRoute_example : Each IsRoute (candidates venues)
candidates-IsRoute_example = candidates-IsRoute venues
