-- ===== src/Profit/Unknown.antt =====
-- Unknown costs in engine/profit_guard.py.
use fedr.Base.{
  ℕ, ◌≡◌, refl, ◌⊎◌, inl, inr, Bool, true, false, Option, none, some, List, [], ◌∷◌, ◌++◌, arith,
  is_empty, empty_parts, Bool-cases, sym, ◌∙◌, ◌==◌,
}
use fedr.Int.{leb_ℤ}
use fedr.Decimal.{Decimal, zero_dec}
use fedr.Models.{ExecutionQuote, Decision, safe_to_execute, blocked}
use fedr.Settings.{AppSettings, TradingSettings}
use fedr.Guards.Gas.{GasAssessment}
use fedr.Profit.{CostName, Costs, FlashLoanTerms, ProfitGuardInputs}
use fedr.Profit.Steps.{
  is_dex, attribute_dex_leg, attribute_cex_leg, attribute_leg, charge_gas, charge_transfers,
  charge_funding, charge_round_trips, charge_atomic, charge_allowances, charge_buffer,
  charge_flash_loan,
}
use fedr.Profit.Assess.{
  trade_size, is_on_chain, buy_ref, leg_costs, charge_risks, all_costs, from_keys,
}
use fedr.Profit.Verdict.{assess, assess_at, blocked_by}
use fedr.Profit.Safety.{assess_at-IsSafe}

-- No cost is unknown so far.
abbrev KnowsAll : Costs → Type 0
KnowsAll c = is_empty c.unknown ≡ true

attribute_leg-KnowsAll :
    (t : TradingSettings) (leg : ExecutionQuote) (n d : Decimal) (is_buy : Bool) (c : Costs)
    → KnowsAll (attribute_leg t leg n d is_buy c)
    → KnowsAll c
unfolding attribute_leg attribute_dex_leg attribute_cex_leg
attribute_leg-KnowsAll t leg n d is_buy c = elim (Bool-cases (is_dex leg.kind)) [
  | inl e ↦ rw e (λ h. (empty_parts c.unknown _ h).0)
  | inr e ↦ rw e (λ h. (empty_parts c.unknown _ h).0)
]

charge_gas-none-KnowsAll :
    (s : AppSettings) (c : Costs) → KnowsAll (charge_gas s none true c) → KnowsAll c
unfolding charge_gas
charge_gas-none-KnowsAll s c =
    elim (Bool-cases (s.gas.unknown_gas_policy == "conservative_fallback")) [
      | inl e ↦ rw e (λ h. h)
      | inr e ↦ rw e (λ h. (empty_parts c.unknown _ h).0)
    ]

charge_gas-KnowsAll :
    (s : AppSettings) (g : Option GasAssessment) (on_chain : Bool) (c : Costs)
    → KnowsAll (charge_gas s g on_chain c)
    → KnowsAll c
unfolding charge_gas
charge_gas-KnowsAll s g false c h = h
charge_gas-KnowsAll s (some g) true c h = h
charge_gas-KnowsAll s none true c h = charge_gas-none-KnowsAll s c h

charge_transfers-KnowsAll :
    (b w d : Option Decimal) (c : Costs) → KnowsAll (charge_transfers b w d c) → KnowsAll c
unfolding charge_transfers
charge_transfers-KnowsAll b w d c h = (empty_parts c.unknown _ h).0

charge_round_trips-unknown : (n : ℕ) (c : Costs) → (charge_round_trips n c).unknown ≡ c.unknown
unfolding charge_round_trips
charge_round_trips-unknown n c = ground arith

charge_risks-unknown :
    (inp : ProfitGuardInputs) (n : Decimal) (c : Costs) → (charge_risks inp n c).unknown ≡ c.unknown
unfolding charge_allowances charge_atomic
charge_risks-unknown inp n c = ground arith

charge_flash_loan-unknown :
    (s : AppSettings) (n : Decimal) (o : Option FlashLoanTerms) (c : Costs)
    → (charge_flash_loan s n o c).unknown ≡ c.unknown
unfolding charge_flash_loan
charge_flash_loan-unknown s n none c = refl
charge_flash_loan-unknown s n (some _) c = refl

all_costs-KnowsAll :
    (inp : ProfitGuardInputs) (size : Decimal)
    → KnowsAll (all_costs inp size)
    → KnowsAll (leg_costs inp size)
unfolding all_costs charge_buffer charge_funding
all_costs-KnowsAll inp size =
    let s = inp.settings in
    let n = buy_ref inp size in
    let gas = charge_gas s inp.gas (is_on_chain inp) (leg_costs inp size) in
    let transfers =
      charge_transfers inp.bridge_fee_usd inp.withdrawal_fee_usd inp.deposit_fee_usd gas in
    let funding = charge_funding s.trading inp.funding_cost_usd transfers in
    let trips = charge_round_trips inp.round_trips funding in
    let buffer =
      charge_buffer s.trading n inp.experience_extra_pct inp.stablecoin_haircut_pct
        (charge_risks inp n trips) in
    rw
      (
        charge_flash_loan-unknown s n inp.flash_loan buffer,
        charge_risks-unknown inp n trips,
        charge_round_trips-unknown inp.round_trips funding,
      )
      (λ h. charge_gas-KnowsAll s inp.gas (is_on_chain inp) (leg_costs inp size) (
        charge_transfers-KnowsAll inp.bridge_fee_usd inp.withdrawal_fee_usd inp.deposit_fee_usd gas
          h))

-- An exchange's leg whose fee nothing tells.
pub record HasUnknownFee (t : TradingSettings) (leg : ExecutionQuote) : Type 0 where
  pub off_chain : is_dex leg.kind ≡ false
  pub not_stated : leg.fee_in_quote ≡ none
  pub no_rate : leg.fee_pct ≡ none
  pub no_fallback : t.unknown_fee_fallback_pct ≡ none

not_empty_append : (ns : List CostName) (n : CostName) → is_empty (ns ++ n ∷ []) ≡ false
not_empty_append [] n = refl
not_empty_append (_ ∷ _) n = refl

attribute_leg-unknown_fee :
    (t : TradingSettings) (leg : ExecutionQuote) (n d : Decimal) (is_buy : Bool) (c : Costs)
    → HasUnknownFee t leg
    → is_empty (attribute_leg t leg n d is_buy c).unknown ≡ false
unfolding attribute_leg attribute_cex_leg
attribute_leg-unknown_fee t leg n d is_buy c u =
    rw (u.off_chain, u.not_stated, u.no_rate, u.no_fallback) (not_empty_append c.unknown _)

leg_costs-unknown_fee :
    (inp : ProfitGuardInputs) (size : Decimal)
    → HasUnknownFee inp.settings.trading inp.buy ⊎ HasUnknownFee inp.settings.trading inp.sell
    → KnowsAll (leg_costs inp size)
    → true ≡ false
unfolding leg_costs
leg_costs-unknown_fee inp size (inr u) h =
    sym h ∙ attribute_leg-unknown_fee inp.settings.trading inp.sell _ _ false _ u
leg_costs-unknown_fee inp size (inl u) h =
    sym (attribute_leg-KnowsAll inp.settings.trading inp.sell _ _ false _ h)
    ∙ attribute_leg-unknown_fee inp.settings.trading inp.buy _ _ true _ u

from_keys-none : (ns : List CostName) → from_keys ns ≡ [] → is_empty ns ≡ true
unfolding from_keys
from_keys-none [] h = refl
from_keys-none (n ∷ ns) h = ground arith

Decision-cases : (d : Decision) → (d ≡ safe_to_execute) ⊎ (d ≡ blocked)
Decision-cases safe_to_execute = inl refl
Decision-cases blocked = inr refl

assess_at-no_unknown :
    (inp : ProfitGuardInputs) (now : ℕ) (size : Decimal)
    → (assess_at inp now size).unknown ≡ []
    → KnowsAll (leg_costs inp size)
unfolding assess_at
assess_at-no_unknown inp now size h =
    all_costs-KnowsAll inp size (from_keys-none (all_costs inp size).unknown h)

assess_at-unknown_fee :
    (inp : ProfitGuardInputs) (now : ℕ)
    → leb_ℤ (trade_size inp) zero_dec ≡ false
    → HasUnknownFee inp.settings.trading inp.buy ⊎ HasUnknownFee inp.settings.trading inp.sell
    → (assess_at inp now (trade_size inp)).decision ≡ blocked
assess_at-unknown_fee inp now p u =
    elim (Decision-cases (assess_at inp now (trade_size inp)).decision) [
      | inr e ↦ e
      | inl e ↦
          let safe = assess_at-IsSafe inp now p e in
          let known = assess_at-no_unknown inp now (trade_size inp) safe.nothing_unknown in
          let contradiction = leg_costs-unknown_fee inp (trade_size inp) u known in ground arith
    ]

-- If the fee of a leg on an exchange is neither stated nor given by a rate, and no fallback rate is
-- set, then the guard blocks the trade.
pub assess-unknown_fee :
    (inp : ProfitGuardInputs) (now : ℕ)
    → HasUnknownFee inp.settings.trading inp.buy ⊎ HasUnknownFee inp.settings.trading inp.sell
    → (assess inp now).decision ≡ blocked
unfolding assess blocked_by
assess-unknown_fee inp now u = elim (Bool-cases (leb_ℤ (trade_size inp) zero_dec)) [
  | inl e ↦ rw e refl
  | inr e ↦ rw e (assess_at-unknown_fee inp now e u)
]
