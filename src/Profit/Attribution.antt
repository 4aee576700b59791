-- ===== src/Profit/Attribution.antt =====
-- What `_attribute_leg` of engine/profit_guard.py does with a leg's deviation.
use fedr.Base.{◌≡◌, sym, Bool, true, false, Option, none, some, arith, Bool-cases, inl, inr}
use fedr.Int.{pos, ◌+ℤ◌, ◌-ℤ◌, ◌≤ℤ◌, max_ℤ, int_laws, +ℤ_assoc}
use fedr.Decimal.{Decimal, zero_dec}
use fedr.Models.{ExecutionQuote}
use fedr.Settings.{TradingSettings}
use fedr.Profit.{CostBreakdown, Costs}
use fedr.Profit.Steps.{
  is_dex, dex_fee_part, impact_part, attribute_dex_leg, attribute_cex_leg, attribute_leg,
}

-- What a quote's distance from the reference price has cost.
unfoldable pub execution_cost : CostBreakdown → Decimal
execution_cost b = b.dex_swap_fee +ℤ b.price_impact +ℤ b.slippage

dex_fee_part-le : (o : Option Decimal) (n d : Decimal) → pos 0 ≤ℤ d → dex_fee_part o n d ≤ℤ d
dex_fee_part-le none n d h = omega arith
dex_fee_part-le (some x) n d h = ground arith

impact_part-le : (p n left : Decimal) → pos 0 ≤ℤ left → impact_part p n left ≤ℤ left
impact_part-le p n left h = ground arith

max-rest : (x y : Decimal) → y ≤ℤ x → max_ℤ zero_dec (x -ℤ y) ≡ x -ℤ y
max-rest x y h = grind int_laws

three_parts :
    (a b s d fee impact : Decimal)
    → impact ≤ℤ d -ℤ fee
    → (a +ℤ fee) +ℤ (b +ℤ impact) +ℤ (s +ℤ max_ℤ zero_dec (d -ℤ fee -ℤ impact)) ≡ a +ℤ b +ℤ s +ℤ d
three_parts a b s d fee impact h = rw (max-rest (d -ℤ fee) impact h) (omega int_laws)

attribute_dex_leg-cost :
    (t : TradingSettings) (leg : ExecutionQuote) (n d : Decimal) (c : Costs)
    → pos 0 ≤ℤ d
    → execution_cost (attribute_dex_leg t leg n d c).exp ≡ execution_cost c.exp +ℤ d
unfolding execution_cost attribute_dex_leg
attribute_dex_leg-cost t leg n d c h =
    let fee = dex_fee_part leg.fee_pct n d in
    let le = dex_fee_part-le leg.fee_pct n d h in
    three_parts c.exp.dex_swap_fee c.exp.price_impact c.exp.slippage d fee
      (impact_part leg.price_impact_pct n (d -ℤ fee))
      (impact_part-le leg.price_impact_pct n (d -ℤ fee) (grind int_laws))

attribute_cex_leg-cost :
    (t : TradingSettings) (leg : ExecutionQuote) (n d : Decimal) (is_buy : Bool) (c : Costs)
    → execution_cost (attribute_cex_leg t leg n d is_buy c).exp ≡ execution_cost c.exp +ℤ d
unfolding execution_cost attribute_cex_leg
attribute_cex_leg-cost t leg n d true c =
    sym (+ℤ_assoc (c.exp.dex_swap_fee +ℤ c.exp.price_impact) c.exp.slippage d)
attribute_cex_leg-cost t leg n d false c =
    sym (+ℤ_assoc (c.exp.dex_swap_fee +ℤ c.exp.price_impact) c.exp.slippage d)

-- The cost of a leg's execution, that is its pool fee, price impact and slippage, grows by exactly
-- the leg's deviation, which is nothing below zero: no part of it is lost or counted twice.
pub attribute_leg-cost :
    (t : TradingSettings) (leg : ExecutionQuote) (notional_ref deviation : Decimal) (is_buy : Bool)
    (c : Costs)
    → pos 0 ≤ℤ deviation
    → execution_cost (attribute_leg t leg notional_ref deviation is_buy c).exp
      ≡ execution_cost c.exp +ℤ deviation
unfolding attribute_leg
attribute_leg-cost t leg n d is_buy c h = elim (Bool-cases (is_dex leg.kind)) [
  | inl e ↦ rw e (attribute_dex_leg-cost t leg n d c h)
  | inr e ↦ rw e (attribute_cex_leg-cost t leg n d is_buy c)
]
