-- ===== src/Risk/Score.antt =====
-- engine/risk_engine.py: exposures, balances, the venues' health and the score.
use fedr.Base.{
  ℕ, ◌*◌, ◌/◌, String, Bool, true, false, not, ◌&&◌, ◌||◌, Option, none, some, List, [], ◌∷◌, ◌++◌,
  if◌then◌else◌, when, is_none, or_else, ◌==◌,
}
use fedr.Int.{ℤ, pos, ◌+ℤ◌, ltb_ℤ, min_ℤ, max_ℤ}
use fedr.Decimal.{Decimal, zero_dec, dec, cents, mul, div, pct, unit, magnitude, with_sign}
use fedr.Dict.{Dict, lookup}
use fedr.Models.{
  Strategy, VenueHealth, VenueKind, Chain, chain_value, perp, dex, cex, age_ms, healthy, degraded,
  unhealthy, blocked, unknown,
}
use fedr.Settings.{RiskSettings}
use fedr.Risk.{
  PortfolioState, RiskRequest, Refusal, capital_usage, venue_exposure, chain_exposure,
  asset_exposure, no_capital, unknown_balance, insufficient_balance, gas_reserve_low, bad_health,
}

-- `int(x)`, towards zero
unfoldable pub to_int : Decimal → ℤ
to_int x = with_sign x (dec 1) (magnitude x / unit)

-- `Decimal(n)` of a signed number
unfoldable pub of_int : ℤ → Decimal
of_int n = with_sign n (dec 1) (magnitude n * unit)

-- the set of the two venues
abbrev pub venues : RiskRequest → List String
venues q = if q.buy.venue == q.sell.venue then q.buy.venue ∷ [] else q.buy.venue ∷ q.sell.venue ∷ []

-- ---- capital usage and exposures
abbrev pub exposed : Dict Decimal → String → Decimal → Decimal
exposed d k more = or_else (lookup k d) zero_dec +ℤ more

abbrev pub venue_reasons :
    RiskSettings → Dict Decimal → Decimal → Decimal → List String → List Refusal
venue_reasons r d total notional [] = []
venue_reasons r d total notional (v ∷ vs) =
    let p = pct (exposed d v notional) total in
    when (ltb_ℤ r.max_exchange_exposure_pct p) (venue_exposure v p)
    ++ venue_reasons r d total notional vs

abbrev pub chain_reasons :
    RiskSettings → Dict Decimal → Decimal → Decimal → Option Chain → List Refusal
chain_reasons r d total notional none = []
chain_reasons r d total notional (some c) =
    when (ltb_ℤ r.max_chain_exposure_pct (pct (exposed d (chain_value c) notional) total))
      (chain_exposure c)

abbrev pub is_carry : Strategy → Bool
is_carry Strategy.spot_perp = true
is_carry Strategy.funding = true
is_carry Strategy.basis = true
is_carry _ = false

unfoldable pub exposure_reasons : RiskSettings → RiskRequest → PortfolioState → List Refusal
exposure_reasons r q p =
    let total = p.total_capital_usd in
    let n = q.notional_usd in
    let usage = pct q.capital_required_usd total in
    let added = if is_carry q.strategy then n else zero_dec in
    when (ltb_ℤ r.max_capital_usage_pct usage) (capital_usage usage r.max_capital_usage_pct)
    ++ (venue_reasons r p.exposure_by_venue_usd total n (venues q)
        ++ (chain_reasons r p.exposure_by_chain_usd total n q.buy.chain
            ++ (chain_reasons r p.exposure_by_chain_usd total n q.sell.chain
                ++ when
                    (ltb_ℤ r.max_asset_exposure_pct
                      (pct (exposed p.exposure_by_asset_usd q.base added) total))
                    (asset_exposure q.base))))

unfoldable pub capital_reasons : RiskSettings → RiskRequest → PortfolioState → List Refusal
capital_reasons r q p =
    if ltb_ℤ zero_dec p.total_capital_usd
    then exposure_reasons r q p
    else when (ltb_ℤ zero_dec q.capital_required_usd && is_none q.flash_loan_usd) no_capital

-- ---- prefunded balances
abbrev pub need_reasons : String → String → Decimal → Option Decimal → List Refusal
need_reasons venue asset need none = unknown_balance venue asset ∷ []
need_reasons venue asset need (some have) =
    when (ltb_ℤ have need) (insufficient_balance venue asset need have)

abbrev pub sell_need : RiskSettings → RiskRequest → VenueKind → String × Decimal
sell_need r q perp =
    (q.quote, if r.leverage_allowed then div q.sell.quote_amount (dec 2) else q.sell.quote_amount)
sell_need r q cex = (q.base, q.sell.base_amount)
sell_need r q dex = (q.base, q.sell.base_amount)

unfoldable pub balance_reasons : RiskSettings → RiskRequest → PortfolioState → List Refusal
balance_reasons r q p =
    let need = mul q.buy.quote_amount (dec 1 +ℤ div (or_else q.buy.fee_pct zero_dec) (dec 100)) in
    let (asset, amount) = sell_need r q q.sell.kind in
    if is_none q.flash_loan_usd
    then need_reasons q.buy.venue q.quote need (p.available_balances q.buy.venue q.quote)
      ++ need_reasons q.sell.venue asset amount (p.available_balances q.sell.venue asset)
    else []

-- `ok is False`
abbrev pub reserve_low : Option Bool → Bool
reserve_low (some false) = true
reserve_low _ = false

abbrev pub leg_reserve : Dict Bool → VenueKind → Option Chain → List Refusal
leg_reserve d dex (some c) = when (reserve_low (lookup (chain_value c) d)) (gas_reserve_low c)
leg_reserve d dex none = []
leg_reserve d cex c = []
leg_reserve d perp c = []

unfoldable pub reserve_reasons : RiskRequest → PortfolioState → List Refusal
reserve_reasons q p =
    leg_reserve p.gas_reserve_ok q.buy.kind q.buy.chain
    ++ leg_reserve p.gas_reserve_ok q.sell.kind q.sell.chain

-- ---- venue health: the score and the reasons
abbrev pub health : PortfolioState → String → VenueHealth
health p v = or_else (lookup v p.venue_health) unknown

abbrev pub one_health : Bool → String → VenueHealth → ℤ × List Refusal
one_health allowed v healthy = (pos 0, [])
one_health allowed v degraded =
    if allowed then (pos 15, []) else (pos 0, bad_health v degraded ∷ [])
one_health allowed v unhealthy = (pos 0, bad_health v unhealthy ∷ [])
one_health allowed v blocked = (pos 0, bad_health v blocked ∷ [])
one_health allowed v unknown = (pos 0, bad_health v unknown ∷ [])

unfoldable pub all_health : Bool → PortfolioState → List String → ℤ × List Refusal
all_health allowed p [] = (pos 0, [])
all_health allowed p (v ∷ vs) =
    let (n, r) = one_health allowed v (health p v) in
    let (m, rs) = all_health allowed p vs in (n +ℤ m, r ++ rs)

-- ---- the score
unfoldable pub slip_total : RiskRequest → Decimal
slip_total q =
    q.buy.slippage_pct +ℤ q.sell.slippage_pct +ℤ q.buy.price_impact_pct +ℤ q.sell.price_impact_pct

-- A share of the weight, up to the weight.
abbrev pub weighted : ℕ → Decimal → Decimal → ℤ
weighted w x most = to_int (min_ℤ (dec w) (mul (div x most) (dec w)))

unfoldable pub usage_score : RiskSettings → RiskRequest → PortfolioState → ℤ
usage_score r q p =
    let usage = pct q.capital_required_usd p.total_capital_usd in
    if ltb_ℤ zero_dec p.total_capital_usd && ltb_ℤ zero_dec r.max_capital_usage_pct
    then weighted 30 usage r.max_capital_usage_pct
    else pos 0

abbrev strategy_score : Strategy → ℤ
strategy_score Strategy.cex_cex = pos 0
strategy_score Strategy.dex_dex = pos 15
strategy_score Strategy.flash_loan = pos 15
strategy_score Strategy.cex_dex = pos 8
strategy_score Strategy.spot_perp = pos 8
strategy_score Strategy.funding = pos 8
strategy_score Strategy.basis = pos 8

unfoldable pub soft_score : RiskSettings → RiskRequest → ℕ → ℤ
soft_score r q now =
    let age = max_ℤ (age_ms now q.buy) (age_ms now q.sell) in
    let depth_score =
      if not q.buy.fully_fillable || not q.sell.fully_fillable then pos 15 else pos 0 in
    weighted 25 (slip_total q) (max_ℤ r.max_slippage_pct (cents 1))
    +ℤ weighted 15 (of_int age) (of_int (max_ℤ r.max_quote_age_ms (pos 1)))
    +ℤ strategy_score q.strategy
    +ℤ depth_score
