-- ===== src/Router/Evaluating.antt =====
-- `evaluate` of engine/opportunity.py.
use fedr.Base.{
  String, Bool, true, false, ◌||◌, Option, none, some, List, [], ◌∷◌, ◌++◌, if◌then◌else◌, map,
  when,
}
use fedr.Int.{ltb_ℤ, leb_ℤ, max_ℤ}
use fedr.Decimal.{Decimal, zero_dec, dec, cents, mul, div, floor_to_step}
use fedr.Models.{Decision, safe_to_execute, blocked, ExecutionQuote}
use fedr.Orders.{split_pair}
use fedr.Executor.{Engine}
use fedr.Router.{RouteCandidate, Scene, Evaluation, RouteReason, below_minimum}
use fedr.Router.Texts.{add_new}
use fedr.Router.Deciding.{assess_route}
use fedr.Router.Sizing.{pick_size, micro}

abbrev pub is_small : Scene → Engine → Decimal → Decimal → Bool
is_small sc e px size =
    leb_ℤ size zero_dec || ltb_ℤ (mul size px) e.settings.trading.min_trade_size_usd

abbrev pub earlier_reasons : Scene → Engine → Decimal → List String → Decimal → List String
earlier_reasons sc e px reasons size =
    reasons ++ when (is_small sc e px size) (sc.say (below_minimum (mul size px)))

-- The size that is quoted: at least the minimum.
abbrev pub quoted_size : Scene → Engine → Decimal → Decimal → Decimal
quoted_size sc e px size =
    if is_small sc e px size
    then max_ℤ size (floor_to_step (div e.settings.trading.min_trade_size_usd px) micro)
    else size

abbrev pub on_quotes :
    Scene
    → Engine
    → RouteCandidate
    → String
    → String
    → Decimal
    → List String
    → Decimal
    → Option (ExecutionQuote × ExecutionQuote × Option Decimal)
    → Option Evaluation
on_quotes sc e cand base quote px reasons size none = none
on_quotes sc e cand base quote px reasons size (some (buy, sell, funding)) =
    some (assess_route sc e sc.portfolio cand base quote buy sell size px reasons funding)

-- The evaluation of a size, after the reasons that it was picked with.
unfoldable pub evaluate_at :
    Scene
    → Engine
    → RouteCandidate
    → String
    → String
    → Decimal
    → List String
    → Decimal
    → Option Evaluation
evaluate_at sc e cand base quote px reasons size =
    let size' = quoted_size sc e px size in
    on_quotes sc e cand base quote px (earlier_reasons sc e px reasons size) size'
      (sc.quotes cand size')

-- FLASH_LOAN_SIZE_LADDER
abbrev ladder : List Decimal
ladder = dec 1 ∷ cents 50 ∷ cents 25 ∷ cents 10 ∷ cents 4 ∷ []

abbrev pub is_safe : Decision → Bool
is_safe safe_to_execute = true
is_safe blocked = false

-- The comparison of two pairs of the decision and the worst case.
unfoldable pub beats : Evaluation → Evaluation → Bool
beats v w =
    if is_safe v.decision
    then if is_safe w.decision
      then ltb_ℤ w.profit.worst_case_profit v.profit.worst_case_profit
      else true
    else if is_safe w.decision
    then false
    else ltb_ℤ w.profit.worst_case_profit v.profit.worst_case_profit

abbrev pub better : Option Evaluation → Option Evaluation → Option Evaluation
better none best = best
better (some v) none = some v
better (some v) (some w) = if beats v w then some v else some w

abbrev try_size :
    Scene → Engine → RouteCandidate → String → String → Decimal → Decimal → Option Evaluation
try_size sc e cand base quote px size =
    if is_small sc e px size then none else evaluate_at sc e cand base quote px [] size

-- The loop over the sizes of a loan.
unfoldable pub climb :
    Scene
    → Engine
    → RouteCandidate
    → String
    → String
    → Decimal
    → Decimal
    → List Decimal
    → Option Evaluation
    → Option Evaluation
climb sc e cand base quote px max_size [] best = best
climb sc e cand base quote px max_size (frac ∷ fracs) best =
    let size = floor_to_step (mul (mul max_size frac) (cents 98)) micro in
    climb sc e cand base quote px max_size fracs
      (better (try_size sc e cand base quote px size) best)

abbrev with_notes : Scene → List RouteReason → Option Evaluation → Option Evaluation
with_notes sc notes none = none
with_notes sc notes (some v) =
    some (record v { block_reasons = add_new v.block_reasons (map sc.say notes) })

-- The evaluation of a size that is picked here.
unfoldable pub evaluate_picked :
    Scene → Engine → RouteCandidate → String → String → Decimal → Option Evaluation
evaluate_picked sc e cand base quote px =
    let picked = pick_size sc e cand base quote px in
    if cand.flash_loan
    then with_notes sc picked.notes (climb sc e cand base quote px picked.size ladder none)
    else evaluate_at sc e cand base quote px (map sc.say picked.notes) picked.size

abbrev pub priced :
    (String → String → Decimal → Option Evaluation)
    → String
    → String
    → Option Decimal
    → Option Evaluation
priced f base quote none = none
priced f base quote (some px) = if leb_ℤ px zero_dec then none else f base quote px

-- A pair that does not split raises, which is none here.
abbrev pub split_priced :
    Scene
    → (String → String → Decimal → Option Evaluation)
    → Option (String × String)
    → Option Evaluation
split_priced sc f none = none
split_priced sc f (some (base, quote)) = priced f base quote (sc.price_usd base)

-- `evaluate`, without a size and with one
unfoldable pub evaluate : Scene → Engine → RouteCandidate → Option Evaluation
evaluate sc e cand =
    split_priced sc (λ base quote px. evaluate_picked sc e cand base quote px)
      (split_pair cand.pair)

unfoldable pub evaluate_sized : Scene → Engine → RouteCandidate → Decimal → Option Evaluation
evaluate_sized sc e cand size =
    split_priced sc (λ base quote px. evaluate_at sc e cand base quote px [] size)
      (split_pair cand.pair)
