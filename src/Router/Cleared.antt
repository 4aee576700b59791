-- ===== src/Router/Cleared.antt =====
-- What `_assess` of engine/opportunity.py guarantees of a route that it calls safe.
use fedr.Base.{
  ℕ, String, ◌≡◌, refl, sym, ◌∙◌, Bool, true, false, not, ◌&&◌, ◌||◌, Option, none, some, List, [],
  ◌∷◌, ◌++◌, if◌then◌else◌, arith, is_empty, empty_parts, empty_when, empty_when_append, map,
  Bool-cases, inl, inr,
}
use mathlib.Core.Option
use fedr.Int.{◌+ℤ◌, ◌≤ℤ◌, leb_ℤ, min_ℤ}
use fedr.Decimal.{Decimal, mul, zero_dec}
use fedr.Models.{age_ms, ExecutionQuote, safe_to_execute, blocked, chain_value, strategy_value}
use fedr.Guards.{limit_for, check_slippage, check_latency, stale_legs}
use fedr.Breakers.{has_scope, blocks}
use fedr.Breakers.Active.{opt_scope, blocks-eq-nil}
use fedr.Profit.{ProfitGuardInputs, Reason, ProfitAssessment}
use fedr.Profit.Assess.{decide, trade_size}
use fedr.Profit.Verdict.{assess as assess_profit, assess_at, blocked_by}
use fedr.Profit.Safety.{IsSafe, assess-IsSafe}
use fedr.Settings.{AppSettings}
use fedr.Risk.{PortfolioState, RiskRequest}
use fedr.Risk.Verdict.{RiskAssessment, assess as assess_risk}
use fedr.Risk.Safety.{IsWithinLimits, assess-IsWithinLimits}
use fedr.Executor.{Engine}
use fedr.Router.{RouteCandidate, of_breaker, of_profit, of_latency, of_risk, Scene, Evaluation}
use fedr.Router.Texts.{add_new, dedup, empty_add_new, empty_map}
use fedr.Router.Gate.{guard_inputs, on_chain}
use fedr.Router.GasPassed.{HasPassed, guard_inputs-HasPassed}
use fedr.Router.Deciding.{
  risk_request, portfolio_with, breaker_reasons, guard_reasons, all_reasons_of, slippage_texts,
  route_of, first_chain, assess_route, is_paused_chain,
}

-- No active breaker stops the route: none is global, none has the scope of one of the venues, of the
-- strategy, of the symbol or of the first chain of the legs.
pub record IsUnblocked (e : Engine) (cand : RouteCandidate) (buy sell : ExecutionQuote)
    : Type 0 where
  pub no_global : has_scope "global" e.breakers.active ≡ false
  pub buy_venue : opt_scope "venue:" (some cand.buy.name) e.breakers.active ≡ false
  pub sell_venue : opt_scope "venue:" (some cand.sell.name) e.breakers.active ≡ false
  pub strategy :
      opt_scope "strategy:" (some (strategy_value cand.strategy)) e.breakers.active ≡ false
  pub symbol : opt_scope "symbol:" (some cand.pair) e.breakers.active ≡ false
  pub chain :
      opt_scope "chain:"
        (Option.map chain_value (first_chain buy.chain sell.chain))
        e.breakers.active
      ≡ false

-- What holds of a route that is safe: `profitable` has the tests on the depth, the costs and the flash
-- loan too.
pub record IsCleared (sc : Scene) (e : Engine) (portfolio : PortfolioState) (cand : RouteCandidate)
    (base quote : String) (inp : ProfitGuardInputs) (v : Evaluation) : Type 0 where
  pub profitable : IsSafe inp sc.now_ms v.profit
  pub within :
      IsWithinLimits e.settings
        (risk_request cand base quote inp v.notional_usd v.profit)
        (portfolio_with sc e cand inp portfolio)
        v.risk.score
  pub buy_slip :
      inp.buy.slippage_pct +ℤ inp.buy.price_impact_pct
      ≤ℤ limit_for e.settings.slippage base inp.buy.venue (route_of cand) v.notional_usd
  pub sell_slip :
      inp.sell.slippage_pct +ℤ inp.sell.price_impact_pct
      ≤ℤ limit_for e.settings.slippage base inp.sell.venue (route_of cand) v.notional_usd
  pub unblocked : IsUnblocked e cand inp.buy inp.sell
  pub running : e.emergency_stop ≡ false
  pub enabled : e.settings.general.bot_enabled ≡ true
  pub buy_fresh :
      age_ms sc.now_ms inp.buy
      ≤ℤ min_ℤ e.settings.trading.max_quote_age_ms e.settings.risk.max_quote_age_ms
  pub sell_fresh :
      age_ms sc.now_ms inp.sell
      ≤ℤ min_ℤ e.settings.trading.max_quote_age_ms e.settings.risk.max_quote_age_ms
  pub gas_passed : HasPassed inp.gas
  pub normal_gas : is_paused_chain inp.gas (on_chain inp.buy inp.sell) ≡ false

check_slippage-none :
    (sc : Scene) (e : Engine) (route : String) (notional : Decimal) (base : String)
    (q : ExecutionQuote)
    → is_empty (slippage_texts sc e.settings route notional base q) ≡ true
    → q.slippage_pct +ℤ q.price_impact_pct
      ≤ℤ limit_for e.settings.slippage base q.venue route notional
unfolding check_slippage
check_slippage-none sc e route notional base q h = ground arith

check_latency-none :
    (limit : Decimal) (buy sell : ExecutionQuote) (now : ℕ)
    → is_empty (check_latency limit (buy ∷ sell ∷ []) none now) ≡ true
    → (age_ms now buy ≤ℤ limit) × (age_ms now sell ≤ℤ limit)
unfolding check_latency stale_legs age_ms
check_latency-none limit buy sell now h = (ground arith, ground arith)

none_true :
    (a b c d e : Bool)
    → not (a || b || c || d || e) ≡ true
    → (a ≡ false) × (b ≡ false) × (c ≡ false) × (d ≡ false) × (e ≡ false)
none_true a b c d e h = ground arith

breaker_reasons-none :
    (e : Engine) (cand : RouteCandidate) (buy sell : ExecutionQuote)
    → is_empty (breaker_reasons e cand buy sell) ≡ true
    → IsUnblocked e cand buy sell
unfolding breaker_reasons
breaker_reasons-none e cand buy sell h =
    let (a, b) =
      empty_parts
        (blocks (some cand.buy.name) none (some (strategy_value cand.strategy)) (some cand.pair)
          e.breakers.active)
        _ h in
    let (g, v, _, st, sy) = none_true _ _ _ _ _ (
      sym (
        blocks-eq-nil (some cand.buy.name) none (some (strategy_value cand.strategy))
          (some cand.pair) e.breakers.active)
      ∙ a) in
    let (_, w, c, _, _) = none_true _ _ _ _ _ (
      sym (
        blocks-eq-nil (some cand.sell.name)
          (Option.map chain_value (first_chain buy.chain sell.chain)) none none e.breakers.active)
      ∙ b) in
    record { no_global = g; buy_venue = v; sell_venue = w; strategy = st; symbol = sy; chain = c }

empty_and : (a b : Bool) → (a && b) ≡ true → (a ≡ true) × (b ≡ true)
empty_and a b h = ground arith

empty_mapped {ℓ} :
    {A : Type ℓ} (f : A → String) (xs : List A) → is_empty (map f xs) ≡ true → is_empty xs ≡ true
empty_mapped f xs h = sym (empty_map f xs) ∙ h

empty_dedup : (xs : List String) → is_empty (dedup xs) ≡ true → is_empty xs ≡ true
empty_dedup xs h = sym (empty_add_new [] xs) ∙ h

-- All reasons are none only if those of the guards and of the risk engine are.
all_reasons_of-none :
    (sc : Scene) (earlier guards : List String) (risk : RiskAssessment) (inp : ProfitGuardInputs)
    → is_empty (all_reasons_of sc earlier guards risk inp) ≡ true
    → (is_empty guards ≡ true)
      × (is_empty risk.reasons ≡ true)
      × (is_paused_chain inp.gas (on_chain inp.buy inp.sell) ≡ false)
unfolding all_reasons_of
all_reasons_of-none sc earlier guards risk inp h =
    let texts = map (λ r. sc.say (of_risk r)) risk.reasons in
    let (a, b) = empty_parts (add_new (earlier ++ guards) texts) _ (empty_dedup _ h) in
    let (c, d) = empty_and _ _ (sym (empty_add_new (earlier ++ guards) texts) ∙ a) in
    let (_, g) = empty_parts earlier guards c in
    (g, empty_mapped _ risk.reasons d, empty_when _ _ b)

guard_reasons-none :
    (sc : Scene) (e : Engine) (cand : RouteCandidate) (base : String) (inp : ProfitGuardInputs)
    (notional : Decimal) (profit : ProfitAssessment)
    → is_empty (guard_reasons sc e cand base inp notional profit) ≡ true
    → (is_empty profit.reasons ≡ true)
      × (is_empty (slippage_texts sc e.settings (route_of cand) notional base inp.buy) ≡ true)
      × (is_empty (slippage_texts sc e.settings (route_of cand) notional base inp.sell) ≡ true)
      × (is_empty (
            check_latency
              (min_ℤ e.settings.trading.max_quote_age_ms e.settings.risk.max_quote_age_ms)
              (inp.buy ∷ inp.sell ∷ [])
              none
              sc.now_ms)
          ≡ true)
      × (is_empty (breaker_reasons e cand inp.buy inp.sell) ≡ true)
      × (e.emergency_stop ≡ false)
      × (e.settings.general.bot_enabled ≡ true)
unfolding guard_reasons
guard_reasons-none sc e cand base inp notional profit h =
    let (p, r1) = empty_parts (map (λ r. sc.say (of_profit r)) profit.reasons) _ h in
    let (b, r2) =
      empty_parts (slippage_texts sc e.settings (route_of cand) notional base inp.buy) _ r1 in
    let (s, r3) =
      empty_parts (slippage_texts sc e.settings (route_of cand) notional base inp.sell) _ r2 in
    let late =
      check_latency (min_ℤ e.settings.trading.max_quote_age_ms e.settings.risk.max_quote_age_ms)
        (inp.buy ∷ inp.sell ∷ []) none sc.now_ms in
    let (l, r4) = empty_parts (map (λ r. sc.say (of_latency r)) late) _ r3 in
    let (k, r5) =
      empty_parts
        (dedup (map (λ b. sc.say (of_breaker b)) (breaker_reasons e cand inp.buy inp.sell))) _ r4 in
    let (st, pa) = empty_when_append _ _ _ r5 in
    (
      empty_mapped _ profit.reasons p,
      b,
      s,
      empty_mapped _ late l,
      empty_mapped _ (breaker_reasons e cand inp.buy inp.sell) (empty_dedup _ k),
      st,
      not_false _ (empty_when _ _ pa),
    )
  where
    not_false : (b : Bool) → not b ≡ false → b ≡ true
    not_false true h = refl
    not_false false h = ground arith

safe-empty :
    (reasons : List String)
    → (if is_empty reasons then safe_to_execute else blocked) ≡ safe_to_execute
    → is_empty reasons ≡ true
safe-empty [] h = refl
safe-empty (_ ∷ _) h = ground arith

decide-empty : (rs : List Reason) → is_empty rs ≡ true → decide rs ≡ safe_to_execute
decide-empty [] h = refl
decide-empty (_ ∷ _) h = ground arith

assess_profit-safe :
    (inp : ProfitGuardInputs) (now : ℕ)
    → is_empty (assess_profit inp now).reasons ≡ true
    → (assess_profit inp now).decision ≡ safe_to_execute
unfolding fedr.Profit.Verdict.assess assess_at blocked_by
assess_profit-safe inp now = elim (Bool-cases (leb_ℤ (trade_size inp) zero_dec)) [
  | inl e ↦ rw e (λ h. ground arith)
  | inr e ↦ rw e (λ h. decide-empty _ h)
]

assess_risk-passed :
    (s : AppSettings) (q : RiskRequest) (p : PortfolioState) (now : ℕ)
    → is_empty (assess_risk s q p now).reasons ≡ true
    → (assess_risk s q p now).passed ≡ true
unfolding fedr.Risk.Verdict.assess
assess_risk-passed s q p now h = h

-- A route that is called safe has a safe profit assessment, keeps the hard limits of the risk engine and
-- the slippage limits of both legs, has quotes no older than the lower of the two age limits, and where
-- the gas guard was asked, it passed. It is stopped by no breaker and by no extreme gas, and the emergency
-- stop is not active and the bot is not paused.
pub assess_route-IsCleared :
    (sc : Scene) (e : Engine) (portfolio : PortfolioState) (cand : RouteCandidate)
    (base quote : String) (buy sell : ExecutionQuote) (size px : Decimal) (earlier : List String)
    (funding : Option Decimal)
    → (assess_route sc e portfolio cand base quote buy sell size px earlier funding).decision
      ≡ safe_to_execute
    → IsCleared sc e portfolio cand base quote
        (guard_inputs sc e cand quote buy sell size px funding)
        (assess_route sc e portfolio cand base quote buy sell size px earlier funding)
unfolding assess_route
assess_route-IsCleared sc e portfolio cand base quote buy sell size px earlier funding h =
    let inp = guard_inputs sc e cand quote buy sell size px funding in
    let notional = mul size px in
    let profit = assess_profit inp sc.now_ms in
    let risk =
      assess_risk e.settings (risk_request cand base quote inp notional profit)
        (portfolio_with sc e cand inp portfolio) sc.now_ms in
    let (g, r, n) =
      all_reasons_of-none sc _ (guard_reasons sc e cand base inp notional profit) risk inp
        (safe-empty _ h) in
    let (p, b, s, l, k, st, en) = guard_reasons-none sc e cand base inp notional profit g in
    let safe = assess-IsSafe inp sc.now_ms (assess_profit-safe inp sc.now_ms p) in
    let (bl, sl) = check_latency-none _ inp.buy inp.sell sc.now_ms l in
    record {
      profitable = safe;
      within =
          assess-IsWithinLimits e.settings (risk_request cand base quote inp notional profit)
            (portfolio_with sc e cand inp portfolio) sc.now_ms
            (assess_risk-passed e.settings (risk_request cand base quote inp notional profit)
              (portfolio_with sc e cand inp portfolio) sc.now_ms r);
      buy_slip = check_slippage-none sc e (route_of cand) notional base inp.buy b;
      sell_slip = check_slippage-none sc e (route_of cand) notional base inp.sell s;
      unblocked = breaker_reasons-none e cand inp.buy inp.sell k;
      running = st;
      enabled = en;
      buy_fresh = bl;
      sell_fresh = sl;
      gas_passed = guard_inputs-HasPassed sc e cand quote buy sell size px funding safe.gas_cleared;
      normal_gas = n;
    }
