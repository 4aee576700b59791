-- ===== src/Guards.antt =====
-- engine/slippage_guard.py and engine/latency_guard.py; GasGuard has engine/gas_guard.py.
pub mod Gas
pub mod GasLaws
pub mod Limits
mod Tests
use fedr.Base.{
  ℕ, zero, suc, String, Bool, true, false, not, ◌&&◌, ◌||◌, Option, none, some, List, [], ◌∷◌, ◌++◌,
  if◌then◌else◌, when, is_none, is_empty,
}
use fedr.Int.{ℤ, pos, ◌+ℤ◌, ◌-ℤ◌, ltb_ℤ, leb_ℤ, min_ℤ}
use fedr.Decimal.{Decimal}
use fedr.Dict.{lookup}
use fedr.Models.{ExecutionQuote, oldest_ms}
use fedr.Settings.{SlippageSettings}

-- `if k in limits: limit = min(limit, limits[k])`
abbrev pub cap_by : Option Decimal → Decimal → Decimal
cap_by none limit = limit
cap_by (some x) limit = min_ℤ limit x

-- `sorted` by threshold, and stable
unfoldable pub insert_tier : Decimal × Decimal → List (Decimal × Decimal) → List (Decimal × Decimal)
insert_tier t [] = t ∷ []
insert_tier t (u ∷ us) = if leb_ℤ t.0 u.0 then t ∷ u ∷ us else u ∷ insert_tier t us

unfoldable pub sort_tiers : List (Decimal × Decimal) → List (Decimal × Decimal)
sort_tiers [] = []
sort_tiers (t ∷ ts) = insert_tier t (sort_tiers ts)

-- The limit of the first tier whose threshold is not below the notional.
unfoldable pub first_tier : Decimal → List (Decimal × Decimal) → Option Decimal
first_tier notional_usd [] = none
first_tier notional_usd (t ∷ ts) =
    let rest = first_tier notional_usd ts in if leb_ℤ notional_usd t.0 then some t.1 else rest

-- `min(D(t[1]) for t in s.size_tiers)`, where there is a tier
unfoldable pub least_tier : Decimal → List (Decimal × Decimal) → Decimal
least_tier x [] = x
least_tier x (t ∷ ts) = min_ℤ x (least_tier t.1 ts)

abbrev pub tier_or_least : Option Decimal → List (Decimal × Decimal) → Option Decimal
tier_or_least (some x) tiers = some x
tier_or_least none [] = none
tier_or_least none (t ∷ ts) = some (least_tier t.1 ts)

unfoldable pub limit_for : SlippageSettings → String → String → String → Decimal → Decimal
limit_for s asset venue route notional_usd =
    let limit = cap_by (lookup asset s.per_asset_max_pct) s.default_max_pct in
    let limit' = cap_by (lookup venue s.per_venue_max_pct) limit in
    let limit'' = cap_by (lookup route s.per_route_max_pct) limit' in
    cap_by (tier_or_least (first_tier notional_usd (sort_tiers s.size_tiers)) s.size_tiers) limit''

-- The message of a refusal is built from the leg, what it would slip, and the limit.
pub record SlippageReason : Type 0 where
  pub leg : ExecutionQuote
  pub effective : Decimal
  pub limit : Decimal

unfoldable pub check_slippage :
    SlippageSettings → ExecutionQuote → String → Decimal → String → List SlippageReason
check_slippage s leg route notional_usd asset =
    let limit = limit_for s asset leg.venue route notional_usd in
    let effective = leg.slippage_pct +ℤ leg.price_impact_pct in
    when (ltb_ℤ limit effective) (record { leg = leg; effective = effective; limit = limit })

-- The venue, the age and the limit of `LatencyGuard.check`.
pub record LatencyReason : Type 0 where
  pub venue : String
  pub age : ℤ

-- `at_ms or now_ms()`: 0 counts as none
abbrev pub at_or_now : Option ℕ → ℕ → ℕ
at_or_now none now = now
at_or_now (some zero) now = now
at_or_now (some (suc t)) now = suc t

unfoldable pub stale_legs : ℤ → ℕ → List ExecutionQuote → List LatencyReason
stale_legs max_quote_age_ms at_ms [] = []
stale_legs max_quote_age_ms at_ms (leg ∷ legs) =
    let age = pos at_ms -ℤ pos (oldest_ms leg) in
    when (ltb_ℤ max_quote_age_ms age) (record { venue = leg.venue; age = age })
    ++ stale_legs max_quote_age_ms at_ms legs

unfoldable pub check_latency : ℤ → List ExecutionQuote → Option ℕ → ℕ → List LatencyReason
check_latency max_quote_age_ms legs at_ms now =
    stale_legs max_quote_age_ms (at_or_now at_ms now) legs
