-- ===== src/Router/Gate.antt =====
-- `_merge_gas` of engine/opportunity.py, and the first half of `_assess`: what the guards are asked.
use fedr.Base.{
  ℕ, zero, suc, String, Bool, true, false, ◌&&◌, Option, none, some, List, [], ◌∷◌, ◌++◌,
  if◌then◌else◌, or_else, map, when, ltb, ◌==◌,
}
use fedr.Int.{◌+ℤ◌, ◌-ℤ◌}
use fedr.Decimal.{Decimal, zero_dec, dec, cents, mul}
use fedr.Models.{ExecutionQuote, GasRegime, normal, elevated, high, extreme, Chain, chain_value}
use fedr.Settings.{AppSettings}
use fedr.Guards.Gas.{GasAssessment, GasSnapshot, GasReason, assess as assess_gas}
use fedr.Profit.{FlashLoanTerms, ProfitGuardInputs}
use fedr.Profit.Steps.{is_dex}
use fedr.Experience.{extra_buffer_pct}
use fedr.Executor.{Engine}
use fedr.Router.{RouteCandidate, is_carry, RouteReason, simulation_raised, Scene, route_key}

abbrev rank : GasRegime → ℕ
rank normal = 0
rank elevated = 1
rank high = 2
rank extreme = 3

-- `max(..., key=order.index)`: the first of the worst
abbrev worst_regime : GasRegime → List GasAssessment → GasRegime
worst_regime r [] = r
worst_regime r (a ∷ items) =
    worst_regime (if ltb (rank r) (rank a.regime) then a.regime else r) items

abbrev add_up : (GasAssessment → Decimal) → List GasAssessment → Decimal
add_up f [] = zero_dec
add_up f (a ∷ items) = f a +ℤ add_up f items

abbrev pub all_passed : List GasAssessment → Bool
all_passed [] = true
all_passed (a ∷ items) = a.passed && all_passed items

abbrev pub all_reasons : List GasAssessment → List GasReason
all_reasons [] = []
all_reasons (a ∷ items) = a.reasons ++ all_reasons items

-- `_merge_gas`, of a first item and the others
unfoldable pub merge_gas : GasAssessment → List GasAssessment → GasAssessment
merge_gas a [] = a
merge_gas a (b ∷ items) =
    let all = a ∷ b ∷ items in
    record {
      chain = a.chain;
      regime = worst_regime a.regime (b ∷ items);
      current_gas_cost_usd = add_up (λ i. i.current_gas_cost_usd) all;
      expected_gas_cost_usd = add_up (λ i. i.expected_gas_cost_usd) all;
      stress_gas_cost_usd = add_up (λ i. i.stress_gas_cost_usd) all;
      gas_pct_of_gross = add_up (λ i. i.gas_pct_of_gross) all;
      passed = all_passed all;
      reasons = all_reasons all;
      gas_price_native = none;
      priority_fee_usd = add_up (λ i. i.priority_fee_usd) all;
    }

-- `q.gas_limit or 300_000`
abbrev limit_or_default : Option ℕ → ℕ
limit_or_default none = 300000
limit_or_default (some zero) = 300000
limit_or_default (some (suc n)) = suc n

abbrev snapshot_of : Scene → Option Chain → Option GasSnapshot
snapshot_of sc none = none
snapshot_of sc (some c) = sc.snapshot c

-- The gas of a leg on a chain.
abbrev pub leg_gas : Scene → AppSettings → Decimal → ExecutionQuote → GasAssessment
leg_gas sc s gross q =
    assess_gas s.gas sc.gas_baseline sc.now_ms (snapshot_of sc q.chain)
      (limit_or_default q.gas_limit) gross none none 1

abbrev pub on_chain : ExecutionQuote → ExecutionQuote → List ExecutionQuote
on_chain buy sell = when (is_dex buy.kind) buy ++ when (is_dex sell.kind) sell

abbrev pub legs_gas : Scene → AppSettings → Decimal → List ExecutionQuote → Option GasAssessment
legs_gas sc s gross [] = none
legs_gas sc s gross (q ∷ qs) = some (merge_gas (leg_gas sc s gross q) (map (leg_gas sc s gross) qs))

-- FLASH_LOAN_GAS_LIMIT
abbrev flash_loan_gas_limit : ℕ
flash_loan_gas_limit = 450000

abbrev pub flash_gas : Scene → AppSettings → Decimal → Chain → GasAssessment
flash_gas sc s gross c =
    assess_gas s.gas sc.gas_baseline sc.now_ms (sc.snapshot c) flash_loan_gas_limit gross none
      (some s.flash_loan.max_gas_usd) 1

abbrev pub gas_on :
    Scene → AppSettings → Decimal → Bool → Option Chain → List ExecutionQuote → Option GasAssessment
gas_on sc s gross true (some c) legs = some (flash_gas sc s gross c)
gas_on sc s gross true none legs = legs_gas sc s gross legs
gas_on sc s gross false c legs = legs_gas sc s gross legs

unfoldable pub gas_of :
    Scene
    → AppSettings
    → RouteCandidate
    → ExecutionQuote
    → ExecutionQuote
    → Decimal
    → Option GasAssessment
gas_of sc s cand buy sell size =
    let gross = mul (sell.reference_price -ℤ buy.reference_price) size in
    gas_on sc s gross cand.flash_loan buy.chain (on_chain buy sell)

-- FLASH_LOAN_FEE_PCT, with its default
abbrev loan_fee_pct : String → Decimal
loan_fee_pct provider =
    if provider == "aave_v3"
    then cents 5
    else if provider == "balancer_v2"
    then zero_dec
    else if provider == "morpho_blue"
    then zero_dec
    else cents 9

abbrev pub same_chain : Option Chain → Option Chain → Bool
same_chain (some a) (some b) = chain_value a == chain_value b
same_chain (some a) none = false
same_chain none c = false

-- The simulation: None without a simulator, False after an exception, which is also a reason.
abbrev simulated :
    RouteCandidate
    → ExecutionQuote
    → ExecutionQuote
    → Decimal
    → Option (RouteCandidate → ExecutionQuote → ExecutionQuote → Decimal → Option Bool)
    → Option Bool × List RouteReason
simulated cand buy sell size none = (none, [])
simulated cand buy sell size (some f) = elim (f cand buy sell size) [
  | none ↦ (some false, simulation_raised ∷ [])
  | some ok ↦ (some ok, [])
]

unfoldable pub flash_terms :
    Scene
    → AppSettings
    → RouteCandidate
    → ExecutionQuote
    → ExecutionQuote
    → Decimal
    → Option FlashLoanTerms × List RouteReason
flash_terms sc s cand buy sell size =
    let provider = if s.flash_loan.provider == "auto" then "aave_v3" else s.flash_loan.provider in
    let (ok, raised) = simulated cand buy sell size sc.simulator in
    if cand.flash_loan
    then (
      some (record {
        provider = provider;
        loan_amount_usd = buy.quote_amount;
        fee_pct = loan_fee_pct provider;
        simulation_passed = ok;
        atomic = same_chain buy.chain sell.chain;
      }),
      raised,
    )
    else (none, [])

-- The inputs of the profit guard; `funding` is the cost that a carry quote gives.
unfoldable pub guard_inputs :
    Scene
    → Engine
    → RouteCandidate
    → String
    → ExecutionQuote
    → ExecutionQuote
    → Decimal
    → Decimal
    → Option Decimal
    → ProfitGuardInputs
guard_inputs sc e cand quote buy sell size px funding = record {
  buy = buy;
  sell = sell;
  settings = e.settings;
  gas = gas_of sc e.settings cand buy sell size;
  quote_usd_rate = or_else (sc.price_usd quote) (dec 1);
  experience_extra_pct = extra_buffer_pct e.experience (
      route_key e.settings.general.mode cand.strategy cand.buy.name cand.sell.name cand.pair
        (mul size px));
  flash_loan = (flash_terms sc e.settings cand buy sell size).0;
  funding_cost_usd = or_else funding zero_dec;
  bridge_fee_usd = some zero_dec;
  withdrawal_fee_usd = some zero_dec;
  deposit_fee_usd = some zero_dec;
  stablecoin_haircut_pct = zero_dec;
  round_trips = if is_carry cand.strategy then 2 else 1;
}
