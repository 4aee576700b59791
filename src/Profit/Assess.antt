-- ===== src/Profit/Assess.antt =====
-- `assess` of engine/profit_guard.py, at the time `now`.
use fedr.Base.{
  ℕ, Bool, true, false, not, ◌&&◌, ◌||◌, Option, none, some, List, [], ◌∷◌, ◌++◌, if◌then◌else◌,
  when, is_none, is_empty, eqb,
}
use fedr.Int.{◌-ℤ◌, ltb_ℤ, eqb_ℤ, min_ℤ, max_ℤ}
use fedr.Decimal.{Decimal, zero_dec, dec, mul, div, pct}
use fedr.Models.{age_ms, Decision, safe_to_execute, blocked, normal, elevated, high, extreme}
use fedr.Settings.{AppSettings}
use fedr.Guards.Gas.{GasAssessment}
use fedr.Profit.{
  CostName, no_costs, Costs, FlashLoanTerms, ProfitGuardInputs, Reason, sizes_differ,
  no_depth_to_buy, no_depth_to_sell, stale_quote, not_simulated, not_atomic, loan_too_large,
  above_risk_maximum, extreme_gas, unknown_costs, below_min_profit, below_min_worst_case,
  below_min_roi, gas_share_too_high, below_min_after_gas, below_gas_ratio,
}
use fedr.Profit.Steps.{
  is_dex, attribute_leg, charge_gas, charge_transfers, charge_funding, charge_round_trips,
  charge_atomic, charge_allowances, charge_buffer, charge_flash_loan,
}

unfoldable pub trade_size : ProfitGuardInputs → Decimal
trade_size inp = min_ℤ inp.buy.base_amount inp.sell.base_amount

unfoldable pub is_on_chain : ProfitGuardInputs → Bool
is_on_chain inp = is_dex inp.buy.kind || is_dex inp.sell.kind || not (is_none inp.flash_loan)

-- ---- the economics of a size
unfoldable pub notional_at : ProfitGuardInputs → Decimal → Decimal → Decimal
notional_at inp size price = mul (mul size price) inp.quote_usd_rate

abbrev pub buy_ref : ProfitGuardInputs → Decimal → Decimal
buy_ref inp size = notional_at inp size inp.buy.reference_price

abbrev pub sell_ref : ProfitGuardInputs → Decimal → Decimal
sell_ref inp size = notional_at inp size inp.sell.reference_price

abbrev pub buy_exec : ProfitGuardInputs → Decimal → Decimal
buy_exec inp size = notional_at inp size inp.buy.avg_price

abbrev pub sell_exec : ProfitGuardInputs → Decimal → Decimal
sell_exec inp size = notional_at inp size inp.sell.avg_price

-- The deviations of the two legs, attributed.
unfoldable pub leg_costs : ProfitGuardInputs → Decimal → Costs
leg_costs inp size =
    let t = inp.settings.trading in
    let b = buy_ref inp size in
    let s = sell_ref inp size in
    let buy_dev = max_ℤ zero_dec (buy_exec inp size -ℤ b) in
    let sell_dev = max_ℤ zero_dec (s -ℤ sell_exec inp size) in
    let none_yet : Costs = record { exp = no_costs; wc = no_costs; unknown = [] } in
    attribute_leg t inp.sell s sell_dev false (attribute_leg t inp.buy b buy_dev true none_yet)

abbrev pub charge_risks : ProfitGuardInputs → Decimal → Costs → Costs
charge_risks inp notional c =
    if is_none inp.flash_loan
    then charge_allowances inp.settings.trading notional (is_on_chain inp) c
    else charge_atomic inp.settings notional c

-- All costs, in the order in which the guard charges them.
unfoldable pub all_costs : ProfitGuardInputs → Decimal → Costs
all_costs inp size =
    let s = inp.settings in
    let notional = buy_ref inp size in
    let gas = charge_gas s inp.gas (is_on_chain inp) (leg_costs inp size) in
    let transfers =
      charge_transfers inp.bridge_fee_usd inp.withdrawal_fee_usd inp.deposit_fee_usd gas in
    let funding = charge_funding s.trading inp.funding_cost_usd transfers in
    let trips = charge_round_trips inp.round_trips funding in
    let risks = charge_risks inp notional trips in
    let buffer =
      charge_buffer s.trading notional inp.experience_extra_pct inp.stablecoin_haircut_pct risks in
    charge_flash_loan s notional inp.flash_loan buffer

-- ---- `dict.fromkeys`: each name once, where it stands first
unfoldable pub code : CostName → ℕ
code CostName.gas = 0
code CostName.bridge_fee = 1
code CostName.withdrawal_fee = 2
code CostName.deposit_fee = 3
code CostName.dex_swap_fee = 4
code CostName.buy_trading_fee = 5
code CostName.sell_trading_fee = 6

abbrev pub without_name : CostName → List CostName → List CostName
without_name n [] = []
without_name n (m ∷ ms) =
    let rest = without_name n ms in if eqb (code n) (code m) then rest else m ∷ rest

unfoldable pub from_keys : List CostName → List CostName
from_keys [] = []
from_keys (n ∷ ns) = n ∷ without_name n (from_keys ns)

-- ---- thresholds
abbrev pub with_flash_min : AppSettings → Option FlashLoanTerms → Decimal → Decimal
with_flash_min s none x = x
with_flash_min s (some _) x = max_ℤ x s.flash_loan.min_net_profit_usd

unfoldable pub by_regime : AppSettings → Option GasAssessment → Bool → Decimal → Decimal
by_regime s none on_chain x = x
by_regime s (some g) on_chain x = elim g.regime [
  | normal ↦ x
  | elevated ↦ mul x s.gas.elevated_profit_multiplier
  | high ↦ if on_chain then mul x (dec 2) else x
  | extreme ↦ x
]

unfoldable pub min_profit : ProfitGuardInputs → Decimal
min_profit inp =
    let s = inp.settings in
    by_regime s inp.gas (is_on_chain inp) (with_flash_min s inp.flash_loan s.trading.min_profit_usd)

unfoldable pub min_worst : ProfitGuardInputs → Decimal
min_worst inp =
    let s = inp.settings in
    by_regime s inp.gas (is_on_chain inp) s.trading.min_worst_case_profit_usd

-- ---- the reasons, in the order in which they are given
unfoldable pub depth_reasons : ProfitGuardInputs → Decimal → List Reason
depth_reasons inp size =
    let b = inp.buy.base_amount in
    let s = inp.sell.base_amount in
    when (not (eqb_ℤ b s)) (sizes_differ b s size)
    ++ (when (not inp.buy.fully_fillable) (no_depth_to_buy size inp.buy.depth_available_base)
        ++ when (not inp.sell.fully_fillable) (no_depth_to_sell size inp.sell.depth_available_base))

unfoldable pub age_reasons : ProfitGuardInputs → ℕ → List Reason
age_reasons inp now =
    let s = inp.settings in
    let max_age = min_ℤ s.trading.max_quote_age_ms s.risk.max_quote_age_ms in
    let age = max_ℤ (age_ms now inp.buy) (age_ms now inp.sell) in
    when (ltb_ℤ max_age age) (stale_quote age max_age)

abbrev pub has_passed : Option Bool → Bool
has_passed (some true) = true
has_passed _ = false

unfoldable pub flash_reasons : AppSettings → Option FlashLoanTerms → List Reason
flash_reasons s none = []
flash_reasons s (some fl) =
    when (s.flash_loan.require_simulation && not (has_passed fl.simulation_passed)) not_simulated
    ++ (when (s.flash_loan.require_atomic && not fl.atomic) not_atomic
        ++ (when (ltb_ℤ s.flash_loan.max_loan_usd fl.loan_amount_usd)
              (loan_too_large fl.loan_amount_usd s.flash_loan.max_loan_usd)
            ++ when (ltb_ℤ s.risk.max_flash_loan_usd fl.loan_amount_usd) above_risk_maximum))

unfoldable pub extreme_reasons : Option GasAssessment → Bool → List Reason
extreme_reasons none on_chain = []
extreme_reasons (some g) on_chain = elim g.regime [ extreme ↦ when on_chain extreme_gas | _ ↦ [] ]

unfoldable pub unknown_reasons : List CostName → List Reason
unknown_reasons names = when (not (is_empty names)) (unknown_costs names)

unfoldable pub min_reasons : Decimal → Decimal → Decimal → Decimal → Decimal → Decimal → List Reason
min_reasons expected least worst least_worst roi least_roi =
    when (ltb_ℤ expected least) (below_min_profit expected least)
    ++ (when (ltb_ℤ worst least_worst) (below_min_worst_case worst least_worst)
        ++ when (ltb_ℤ roi least_roi) (below_min_roi roi least_roi))

unfoldable pub gas_share_reasons :
    AppSettings → Option GasAssessment → Bool → Decimal → Decimal → Decimal → List Reason
gas_share_reasons s gas on_chain gross gas_cost expected =
    let gas_pct = pct gas_cost gross in
    if on_chain && not (is_none gas) && ltb_ℤ zero_dec gross
    then when (ltb_ℤ s.gas.max_gas_pct_of_gross gas_pct)
        (gas_share_too_high gas_pct s.gas.max_gas_pct_of_gross)
      ++ when (ltb_ℤ expected s.gas.min_profit_after_gas_usd)
          (below_min_after_gas expected s.gas.min_profit_after_gas_usd)
    else []

unfoldable pub ratio_reasons : AppSettings → Option FlashLoanTerms → Decimal → Decimal → List Reason
ratio_reasons s none gas_cost expected = []
ratio_reasons s (some _) gas_cost expected =
    let ratio = div expected gas_cost in
    when (ltb_ℤ zero_dec gas_cost && ltb_ℤ ratio s.flash_loan.min_profit_gas_ratio)
      (below_gas_ratio ratio s.flash_loan.min_profit_gas_ratio)

abbrev pub decide : List Reason → Decision
decide [] = safe_to_execute
decide (_ ∷ _) = blocked
