-- ===== src/Router/Capped.antt =====
-- `evaluate` of engine/opportunity.py, for a size that a cap has lowered.
use fedr.Base.{
  String, ◌≡◌, refl, sym, ◌∙◌, ap, false, Option, none, some, List, [], ◌∷◌, ◌++◌, arith, is_empty,
  map, or_else,
}
use fedr.Decimal.{Decimal}
use fedr.Models.{blocked, ExecutionQuote}
use fedr.Profit.{ProfitGuardInputs}
use fedr.Risk.Verdict.{RiskAssessment}
use fedr.Executor.{Engine}
use fedr.Router.{RouteCandidate, Scene, Evaluation, of_risk}
use fedr.Router.Texts.{add_new, empty_add_new, empty_map}
use fedr.Router.Deciding.{assess_route, all_reasons_of}
use fedr.Router.Sizing.{pick_size}
use fedr.Router.Evaluating.{evaluate_at, evaluate_picked, on_quotes, quoted_size, earlier_reasons}

not_empty_append : (xs ys : List String) → is_empty xs ≡ false → is_empty (xs ++ ys) ≡ false
not_empty_append [] ys h = ground arith
not_empty_append (_ ∷ _) ys h = refl

-- Reasons before the guards stay reasons.
all_reasons_of-earlier :
    (sc : Scene) (earlier guards : List String) (risk : RiskAssessment) (inp : ProfitGuardInputs)
    → is_empty earlier ≡ false
    → is_empty (all_reasons_of sc earlier guards risk inp) ≡ false
unfolding all_reasons_of
all_reasons_of-earlier sc earlier guards risk inp h =
    let texts = map (λ r. sc.say (of_risk r)) risk.reasons in
    let some_new : is_empty (add_new (earlier ++ guards) texts) ≡ false =
      empty_add_new (earlier ++ guards) texts ∙ rw (not_empty_append earlier guards h) refl in
    empty_add_new [] _ ∙ not_empty_append (add_new (earlier ++ guards) texts) _ some_new

assess_route-earlier :
    (sc : Scene) (e : Engine) (cand : RouteCandidate) (base quote : String)
    (buy sell : ExecutionQuote) (size px : Decimal) (earlier : List String)
    (funding : Option Decimal)
    → is_empty earlier ≡ false
    → (assess_route sc e sc.portfolio cand base quote buy sell size px earlier funding).decision
      ≡ blocked
unfolding assess_route
assess_route-earlier sc e cand base quote buy sell size px earlier funding h =
    rw (all_reasons_of-earlier sc (earlier ++ _) _ _ _ (not_empty_append earlier _ h)) refl

on_quotes-earlier :
    (sc : Scene) (e : Engine) (cand : RouteCandidate) (base quote : String) (px : Decimal)
    (reasons : List String) (size : Decimal)
    (q : Option (ExecutionQuote × ExecutionQuote × Option Decimal)) (v : Evaluation)
    → is_empty reasons ≡ false
    → on_quotes sc e cand base quote px reasons size q ≡ some v
    → v.decision ≡ blocked
on_quotes-earlier sc e cand base quote px reasons size none v h k = ground arith
on_quotes-earlier sc e cand base quote px reasons size (some (buy, sell, funding)) v h k =
    sym (ap (λ o. (or_else o v).decision) k)
    ∙ assess_route-earlier sc e cand base quote buy sell size px reasons funding h

-- A route without a flash loan whose size a cap has lowered, so that there is a note, is blocked,
-- whatever the guards say.
pub evaluate_picked-capped :
    (sc : Scene) (e : Engine) (cand : RouteCandidate) (base quote : String) (px : Decimal)
    (v : Evaluation)
    → cand.flash_loan ≡ false
    → is_empty (pick_size sc e cand base quote px).notes ≡ false
    → evaluate_picked sc e cand base quote px ≡ some v
    → v.decision ≡ blocked
unfolding evaluate_picked evaluate_at
evaluate_picked-capped sc e cand base quote px v f h =
    let picked = pick_size sc e cand base quote px in
    let noted : is_empty (map sc.say picked.notes) ≡ false = empty_map sc.say picked.notes ∙ h in
    let size' = quoted_size sc e px picked.size in
    simp f (λ k.
      on_quotes-earlier sc e cand base quote px
        (earlier_reasons sc e px (map sc.say picked.notes) picked.size) size' (sc.quotes cand size')
        v (not_empty_append (map sc.say picked.notes) _ noted) k)
