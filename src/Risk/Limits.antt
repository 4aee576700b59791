-- ===== src/Risk/Limits.antt =====
-- What passing the tests of engine/risk_engine.py on capital, exposures, balances, gas reserves and
-- the health of the venues means.
use fedr.Base.{
  ◌≡◌, refl, ◌⊎◌, inl, inr, String, Bool, true, false, ◌&&◌, Option, none, some, arith, when,
  is_none, is_empty, empty_parts, ◌==◌, eq_iff, Bool-cases, if◌then◌else◌,
}
use mathlib.Core.Path.{subst}
use fedr.Int.{◌≤ℤ◌, ltb_ℤ}
use fedr.Decimal.{Decimal, zero_dec, pct}
use fedr.Models.{Chain, chain_value}
use fedr.Settings.{AppSettings, RiskSettings}
use fedr.Risk.{PortfolioState, RiskRequest, loan_reasons, capital_usage, no_capital}
use fedr.Risk.Score.{
  capital_reasons, exposure_reasons, venue_reasons, chain_reasons, venues, exposed, is_carry,
}

-- The limits of a flash loan.
abbrev pub IsLoanBounded : AppSettings → Decimal → Option Decimal → Type 0
IsLoanBounded s gas none = Unit
IsLoanBounded s gas (some loan) =
    (loan ≤ℤ s.risk.max_flash_loan_usd) × (gas ≤ℤ s.risk.max_flash_loan_gas_usd)

pub loan_reasons-none :
    (s : AppSettings) (gas : Decimal) (loan : Option Decimal)
    → is_empty (loan_reasons s gas loan) ≡ true
    → IsLoanBounded s gas loan
loan_reasons-none s gas none h = tt
loan_reasons-none s gas (some loan) h = (ground arith, ground arith)

-- The exposure to a chain, if the leg is on one.
abbrev pub IsChainBounded : RiskSettings → RiskRequest → PortfolioState → Option Chain → Type 0
IsChainBounded r q p none = Unit
IsChainBounded r q p (some c) =
    pct (exposed p.exposure_by_chain_usd (chain_value c) q.notional_usd) p.total_capital_usd
    ≤ℤ r.max_chain_exposure_pct

abbrev pub IsVenueBounded : RiskSettings → RiskRequest → PortfolioState → String → Type 0
IsVenueBounded r q p v =
    pct (exposed p.exposure_by_venue_usd v q.notional_usd) p.total_capital_usd
    ≤ℤ r.max_exchange_exposure_pct

-- The capital that the trade uses and the exposures with it, in percent of the capital.
pub record IsExposureBounded (r : RiskSettings) (q : RiskRequest) (p : PortfolioState)
    : Type 0 where
  pub usage : pct q.capital_required_usd p.total_capital_usd ≤ℤ r.max_capital_usage_pct
  pub buy_venue : IsVenueBounded r q p q.buy.venue
  pub sell_venue : IsVenueBounded r q p q.sell.venue
  pub buy_chain : IsChainBounded r q p q.buy.chain
  pub sell_chain : IsChainBounded r q p q.sell.chain
  pub asset :
      pct
        (exposed p.exposure_by_asset_usd q.base
          (if is_carry q.strategy then q.notional_usd else zero_dec))
        p.total_capital_usd
      ≤ℤ r.max_asset_exposure_pct

chain_reasons-none :
    (r : RiskSettings) (q : RiskRequest) (p : PortfolioState) (c : Option Chain)
    → is_empty (chain_reasons r p.exposure_by_chain_usd p.total_capital_usd q.notional_usd c) ≡ true
    → IsChainBounded r q p c
chain_reasons-none r q p none h = tt
chain_reasons-none r q p (some c) h = ground arith

venue_reasons-none :
    (r : RiskSettings) (q : RiskRequest) (p : PortfolioState)
    → is_empty
        (venue_reasons r p.exposure_by_venue_usd p.total_capital_usd q.notional_usd (venues q))
      ≡ true
    → IsVenueBounded r q p q.buy.venue × IsVenueBounded r q p q.sell.venue
venue_reasons-none r q p = elim (Bool-cases (q.buy.venue == q.sell.venue)) [
  | inl x ↦ rw x (λ h. same ((eq_iff q.buy.venue q.sell.venue).0 x) (ground arith))
  | inr x ↦ rw x (λ h. (ground arith, ground arith))
]
  where
    same :
        q.buy.venue ≡ q.sell.venue
        → IsVenueBounded r q p q.buy.venue
        → IsVenueBounded r q p q.buy.venue × IsVenueBounded r q p q.sell.venue
    same x h = (h, subst (IsVenueBounded r q p) x h)

exposure_reasons-none :
    (r : RiskSettings) (q : RiskRequest) (p : PortfolioState)
    → is_empty (exposure_reasons r q p) ≡ true
    → IsExposureBounded r q p
unfolding exposure_reasons
exposure_reasons-none r q p h =
    let total = p.total_capital_usd in
    let n = q.notional_usd in
    let usage = pct q.capital_required_usd total in
    let (u, r1) =
      empty_parts
        (when (ltb_ℤ r.max_capital_usage_pct usage) (capital_usage usage r.max_capital_usage_pct)) _
        h in
    let (v, r2) = empty_parts (venue_reasons r p.exposure_by_venue_usd total n (venues q)) _ r1 in
    let (b, r3) = empty_parts (chain_reasons r p.exposure_by_chain_usd total n q.buy.chain) _ r2 in
    let (s, a) = empty_parts (chain_reasons r p.exposure_by_chain_usd total n q.sell.chain) _ r3 in
    let (bv, sv) = venue_reasons-none r q p v in
    record {
      usage = ground arith;
      buy_venue = bv;
      sell_venue = sv;
      buy_chain = chain_reasons-none r q p q.buy.chain b;
      sell_chain = chain_reasons-none r q p q.sell.chain s;
      asset = ground arith;
    }

-- With capital the exposures are bounded; without any, nothing is required or it is borrowed.
abbrev pub IsCapitalBounded : RiskSettings → RiskRequest → PortfolioState → Type 0
IsCapitalBounded r q p =
    IsExposureBounded r q p
    ⊎ ((p.total_capital_usd ≤ℤ zero_dec)
        × ((q.capital_required_usd ≤ℤ zero_dec) ⊎ (is_none q.flash_loan_usd ≡ false)))

pub capital_reasons-none :
    (r : RiskSettings) (q : RiskRequest) (p : PortfolioState)
    → is_empty (capital_reasons r q p) ≡ true
    → IsCapitalBounded r q p
unfolding capital_reasons
capital_reasons-none r q p = elim (Bool-cases (ltb_ℤ zero_dec p.total_capital_usd)) [
  | inl x ↦ rw x (λ h. inl (exposure_reasons-none r q p h))
  | inr x ↦ rw x (λ h. inr (ground arith, unfunded (is_none q.flash_loan_usd) refl h))
]
  where
    unfunded :
        (b : Bool)
        → is_none q.flash_loan_usd ≡ b
        → is_empty (when (ltb_ℤ zero_dec q.capital_required_usd && b) no_capital) ≡ true
        → (q.capital_required_usd ≤ℤ zero_dec) ⊎ (is_none q.flash_loan_usd ≡ false)
    unfunded false e h = inr e
    unfunded true e h = inl (ground arith)
