-- ===== src/Router/Deciding.antt =====
-- The reasons and the decision of `_assess` of engine/opportunity.py.
use fedr.Base.{
  ◌+◌, String, Bool, false, not, ◌&&◌, Option, none, some, List, [], ◌∷◌, ◌++◌, if◌then◌else◌,
  is_empty, map, when,
}
use mathlib.Core.Option
use Prim.Native.String.{◌++◌ as append}
use fedr.Int.{◌+ℤ◌, min_ℤ}
use fedr.Decimal.{Decimal, zero_dec, mul}
use fedr.Models.{ExecutionQuote, Chain, chain_value, strategy_value, safe_to_execute, blocked}
use fedr.Settings.{AppSettings}
use fedr.Guards.{check_slippage, check_latency}
use fedr.Guards.Gas.{GasAssessment, is_extreme}
use fedr.Breakers.{Block, blocks}
use fedr.Profit.{FlashLoanTerms, ProfitGuardInputs, ProfitAssessment}
use fedr.Profit.Verdict.{assess as assess_profit}
use fedr.Risk.{PortfolioState, RiskRequest}
use fedr.Risk.Verdict.{RiskAssessment, assess as assess_risk}
use fedr.Executor.{Engine}
use fedr.Router.{
  RouteCandidate, of_profit, of_slippage, of_latency, of_breaker, of_risk, stopped, paused,
  extreme_gas, Scene, Evaluation, route_key,
}
use fedr.Router.Texts.{add_new, dedup}
use fedr.Router.Gate.{flash_terms, guard_inputs, on_chain}

-- `buy_q.chain or sell_q.chain`
abbrev pub first_chain : Option Chain → Option Chain → Option Chain
first_chain none c = c
first_chain (some a) c = some a

unfoldable pub breaker_reasons :
    Engine → RouteCandidate → ExecutionQuote → ExecutionQuote → List Block
breaker_reasons e cand buy sell =
    blocks (some cand.buy.name) none (some (strategy_value cand.strategy)) (some cand.pair)
      e.breakers.active
    ++ blocks (some cand.sell.name) (Option.map chain_value (first_chain buy.chain sell.chain)) none
        none e.breakers.active

abbrev gas_usd : Option GasAssessment → Decimal
gas_usd none = zero_dec
gas_usd (some a) = a.expected_gas_cost_usd +ℤ a.priority_fee_usd

-- What the risk engine is asked.
unfoldable pub risk_request :
    RouteCandidate → String → String → ProfitGuardInputs → Decimal → ProfitAssessment → RiskRequest
risk_request cand base quote inp notional profit = record {
  strategy = cand.strategy;
  buy = inp.buy;
  sell = inp.sell;
  base = base;
  quote = quote;
  notional_usd = notional;
  capital_required_usd = profit.capital_required;
  gas_usd = gas_usd inp.gas;
  flash_loan_usd = Option.map (λ (t : FlashLoanTerms). t.loan_amount_usd) inp.flash_loan;
}

abbrev pub slippage_texts :
    Scene → AppSettings → String → Decimal → String → ExecutionQuote → List String
slippage_texts sc s route notional base q =
    map (λ r. sc.say (of_slippage r)) (check_slippage s.slippage q route notional base)

abbrev pub route_of : RouteCandidate → String
route_of cand = append cand.buy.name (append "->" cand.sell.name)

-- The tests on the legs, the breakers and the switches, in their order.
unfoldable pub guard_reasons :
    Scene
    → Engine
    → RouteCandidate
    → String
    → ProfitGuardInputs
    → Decimal
    → ProfitAssessment
    → List String
guard_reasons sc e cand base inp notional profit =
    let s = e.settings in
    map (λ r. sc.say (of_profit r)) profit.reasons
    ++ (slippage_texts sc s (route_of cand) notional base inp.buy
        ++ (slippage_texts sc s (route_of cand) notional base inp.sell
            ++ (map (λ r. sc.say (of_latency r))
                  (check_latency (min_ℤ s.trading.max_quote_age_ms s.risk.max_quote_age_ms)
                    (inp.buy ∷ inp.sell ∷ []) none sc.now_ms)
                ++ (dedup
                      (map (λ b. sc.say (of_breaker b)) (breaker_reasons e cand inp.buy inp.sell))
                    ++ (when e.emergency_stop (sc.say stopped)
                        ++ when (not s.general.bot_enabled) (sc.say paused))))))

abbrev pub is_paused_chain : Option GasAssessment → List ExecutionQuote → Bool
is_paused_chain none legs = false
is_paused_chain (some a) legs = is_extreme a.regime && not (is_empty legs)

-- All reasons: `earlier` are those before the guards.
unfoldable pub all_reasons_of :
    Scene → List String → List String → RiskAssessment → ProfitGuardInputs → List String
all_reasons_of sc earlier guards risk inp = dedup (
    add_new (earlier ++ guards) (map (λ r. sc.say (of_risk r)) risk.reasons)
    ++ when (is_paused_chain inp.gas (on_chain inp.buy inp.sell)) (sc.say extreme_gas))

unfoldable pub portfolio_with :
    Scene → Engine → RouteCandidate → ProfitGuardInputs → PortfolioState → PortfolioState
portfolio_with sc e cand inp p = record p {
  active_breakers =
      dedup (map (λ b. sc.say (of_breaker b)) (breaker_reasons e cand inp.buy inp.sell));
}

-- `_assess`, of a pair that is split into `base` and `quote`
unfoldable pub assess_route :
    Scene
    → Engine
    → PortfolioState
    → RouteCandidate
    → String
    → String
    → ExecutionQuote
    → ExecutionQuote
    → Decimal
    → Decimal
    → List String
    → Option Decimal
    → Evaluation
assess_route sc e portfolio cand base quote buy sell size px earlier funding =
    let s = e.settings in
    let notional = mul size px in
    let raised = map sc.say (flash_terms sc s cand buy sell size).1 in
    let inp = guard_inputs sc e cand quote buy sell size px funding in
    let profit = assess_profit inp sc.now_ms in
    let risk =
      assess_risk s (risk_request cand base quote inp notional profit)
        (portfolio_with sc e cand inp portfolio) sc.now_ms in
    let reasons =
      all_reasons_of sc (earlier ++ raised) (guard_reasons sc e cand base inp notional profit) risk
        inp in
    record {
      id = sc.new_id;
      strategy = cand.strategy;
      pair = cand.pair;
      buy = buy;
      sell = sell;
      size_base = size;
      profit = profit;
      gas = inp.gas;
      risk = risk;
      decision = if is_empty reasons then safe_to_execute else blocked;
      block_reasons = reasons;
      expires_at_ms = sc.now_ms + sc.ttl_ms;
      route_key =
          route_key s.general.mode cand.strategy cand.buy.name cand.sell.name cand.pair notional;
      notional_usd = notional;
    }
