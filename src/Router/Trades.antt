-- ===== src/Router/Trades.antt =====
-- `_assess` of engine/opportunity.py, where `execute` of engine/execution/executor.py asks for it again.
use fedr.Base.{
  String, ◌≡◌, refl, ap, ◌∙◌, or_else, Bool, true, false, Option, none, some, List, [], arith, inl,
  inr, Bool-cases,
}
use mathlib.Core.Option
use fedr.Int.{leb_ℤ}
use fedr.Decimal.{Decimal, zero_dec}
use fedr.Models.{Decision, safe_to_execute, blocked, ExecutionQuote}
use fedr.Orders.{TradeRecord, split_pair}
use fedr.Executor.{Engine, Opportunity, Outside, Abort, Ended, traded, aborted}
use fedr.Executor.Preconditions.{precondition, new_trade, reestimated}
use fedr.Executor.Run.{abort, execute, admitted, revalidated, by_decision}
use fedr.Router.{RouteCandidate, Scene, Evaluation}
use fedr.Router.Gate.{guard_inputs}
use fedr.Router.Deciding.{assess_route}
use fedr.Router.Cleared.{IsCleared, assess_route-IsCleared}
use fedr.Router.Evaluating.{
  evaluate_at, evaluate_sized, split_priced, priced, on_quotes, quoted_size, earlier_reasons,
}

-- What the executor reads of an evaluation.
unfoldable pub to_opportunity : Evaluation → Opportunity
to_opportunity v = record {
  strategy = v.strategy;
  pair = v.pair;
  size_base = v.size_base;
  buy = v.buy;
  sell = v.sell;
  decision = v.decision;
  gross_profit = v.profit.gross_profit;
  expected_net_profit = v.profit.expected_net_profit;
  worst_case_profit = v.profit.worst_case_profit;
  expected_costs = v.profit.expected_costs;
  notional_usd = some v.notional_usd;
  route_key = some v.route_key;
}

-- The executor with the evaluation of this engine.
unfoldable pub with_router : Scene → Engine → RouteCandidate → Decimal → Outside → Outside
with_router sc e cand size o = record o {
  has_candidate = true;
  reevaluated = Option.map to_opportunity (evaluate_sized sc e cand size);
}

abbrev pub is_traded : Ended → Bool
is_traded (traded tr) = true
is_traded (aborted r tr) = false
is_traded Ended.raised = false

by_decision-safe :
    (o : Outside) (opp fresh : Opportunity) (tr : TradeRecord) (e : Engine) (d : Decision)
    → is_traded (by_decision o opp fresh tr e d).1 ≡ true
    → d ≡ safe_to_execute
unfolding abort
by_decision-safe o opp fresh tr e blocked h = ground arith
by_decision-safe o opp fresh tr e safe_to_execute h = refl

revalidated-safe :
    (o : Outside) (opp : Opportunity) (f : Option Opportunity) (tr : TradeRecord) (e : Engine)
    → is_traded (revalidated o opp f tr e).1 ≡ true
    → (fresh : Opportunity) × (f ≡ some fresh) × (fresh.decision ≡ safe_to_execute)
unfolding abort
revalidated-safe o opp none tr e h = ground arith
revalidated-safe o opp (some fresh) tr e h =
    (fresh, refl, by_decision-safe o opp fresh (reestimated fresh tr) e fresh.decision h)

admitted-safe :
    (o : Outside) (opp : Opportunity) (a : Option Abort) (tr : TradeRecord) (e : Engine)
    → is_traded (admitted o opp a tr e).1 ≡ true
    → (fresh : Opportunity) × (o.reevaluated ≡ some fresh) × (fresh.decision ≡ safe_to_execute)
unfolding abort
admitted-safe o opp (some r) tr e = λ h. ground arith
admitted-safe o opp none tr e = elim (Bool-cases o.has_candidate) [
  | inl x ↦ simp x (λ h. revalidated-safe o opp o.reevaluated tr e h)
  | inr x ↦ simp x (λ h. ground arith)
]

execute-safe :
    (o : Outside) (opp : Opportunity) (carry : Bool) (e : Engine)
    → is_traded (execute o opp carry e).1 ≡ true
    → (fresh : Opportunity) × (o.reevaluated ≡ some fresh) × (fresh.decision ≡ safe_to_execute)
unfolding execute
execute-safe o opp carry e h =
    admitted-safe o opp (precondition o opp carry e) (new_trade o.new_id opp e) e h

-- An evaluation that is cleared, for the pair that it splits into, at the price of its base, with the
-- quotes and the size that it states.
pub data IsClearedFor (sc : Scene) (e : Engine) (cand : RouteCandidate) : Evaluation → Type 0 where
  cleared :
      (base quote : String) (px : Decimal) (funding : Option Decimal) (v : Evaluation)
      → split_pair cand.pair ≡ some (base, quote)
      → sc.price_usd base ≡ some px
      → IsCleared sc e sc.portfolio cand base quote
          (guard_inputs sc e cand quote v.buy v.sell v.size_base px funding)
          v
      → IsClearedFor sc e cand v

abbrev IfSafe : Scene → Engine → RouteCandidate → Option Evaluation → Type 0
IfSafe sc e cand none = Unit
IfSafe sc e cand (some v) = v.decision ≡ safe_to_execute → IsClearedFor sc e cand v

module _ (sc : Scene) (e : Engine) (cand : RouteCandidate) where
  on_quotes-IfSafe :
      (base quote : String) (px : Decimal) (reasons : List String) (size : Decimal)
      (q : Option (ExecutionQuote × ExecutionQuote × Option Decimal))
      → split_pair cand.pair ≡ some (base, quote)
      → sc.price_usd base ≡ some px
      → IfSafe sc e cand (on_quotes sc e cand base quote px reasons size q)
  unfolding assess_route
  on_quotes-IfSafe base quote px reasons size none x y = tt
  on_quotes-IfSafe base quote px reasons size (some (buy, sell, funding)) x y = λ d.
      cleared base quote px funding
        (assess_route sc e sc.portfolio cand base quote buy sell size px reasons funding) x y
        (assess_route-IsCleared sc e sc.portfolio cand base quote buy sell size px reasons funding
          d)

  evaluate_at-IfSafe :
      (base quote : String) (px : Decimal) (reasons : List String) (size : Decimal)
      → split_pair cand.pair ≡ some (base, quote)
      → sc.price_usd base ≡ some px
      → IfSafe sc e cand (evaluate_at sc e cand base quote px reasons size)
  unfolding evaluate_at
  evaluate_at-IfSafe base quote px reasons size x y =
      let size' = quoted_size sc e px size in
      on_quotes-IfSafe base quote px (earlier_reasons sc e px reasons size) size'
        (sc.quotes cand size') x y

  module _ (f : String → String → Decimal → Option Evaluation) where
    priced-IfSafe :
        (base quote : String) (o : Option Decimal)
        → ((px : Decimal) → o ≡ some px → IfSafe sc e cand (f base quote px))
        → IfSafe sc e cand (priced f base quote o)
    priced-IfSafe base quote none k = tt
    priced-IfSafe base quote (some px) k = elim (Bool-cases (leb_ℤ px zero_dec)) [
      | inl x ↦ rw x tt
      | inr x ↦ rw x (k px refl)
    ]

    split_priced-IfSafe :
        (o : Option (String × String))
        → ((base quote : String) (px : Decimal)
            → o ≡ some (base, quote)
            → sc.price_usd base ≡ some px
            → IfSafe sc e cand (f base quote px))
        → IfSafe sc e cand (split_priced sc f o)
    split_priced-IfSafe none k = tt
    split_priced-IfSafe (some (base, quote)) k =
        priced-IfSafe base quote (sc.price_usd base) (λ px y. k base quote px refl y)

  evaluate_sized-IfSafe : (size : Decimal) → IfSafe sc e cand (evaluate_sized sc e cand size)
  unfolding evaluate_sized
  evaluate_sized-IfSafe size =
      split_priced-IfSafe (λ base quote px. evaluate_at sc e cand base quote px [] size)
        (split_pair cand.pair) (λ base quote px x y. evaluate_at-IfSafe base quote px [] size x y)

found :
    (sc : Scene) (e : Engine) (cand : RouteCandidate) (r : Option Evaluation) (fresh : Opportunity)
    → IfSafe sc e cand r
    → Option.map to_opportunity r ≡ some fresh
    → fresh.decision ≡ safe_to_execute
    → (v : Evaluation) × (r ≡ some v) × IsClearedFor sc e cand v
unfolding to_opportunity
found sc e cand none fresh k h d = ground arith
found sc e cand (some v) fresh k h d = (v, refl, k (ap (λ o. (or_else o fresh).decision) h ∙ d))

-- If an execution that re-evaluates its route with this engine trades, then the evaluation exists and is
-- cleared by the guards, for the quotes and the size that it states: profit, risk limits, slippage, the
-- age of the quotes, gas where it was asked for, breakers, emergency stop and pause.
pub execute-IsClearedFor :
    (sc : Scene) (e : Engine) (cand : RouteCandidate) (size : Decimal) (o : Outside)
    (opp : Opportunity) (carry : Bool)
    → is_traded (execute (with_router sc e cand size o) opp carry e).1 ≡ true
    → (v : Evaluation) × (evaluate_sized sc e cand size ≡ some v) × IsClearedFor sc e cand v
unfolding with_router
execute-IsClearedFor sc e cand size o opp carry h =
    let (fresh, r, d) = execute-safe (with_router sc e cand size o) opp carry e h in
    found sc e cand (evaluate_sized sc e cand size) fresh (evaluate_sized-IfSafe sc e cand size) r d
