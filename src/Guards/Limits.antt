-- ===== src/Guards/Limits.antt =====
-- The limits of engine/slippage_guard.py and engine/latency_guard.py.
use fedr.Base.{
  ℕ, ◌≡◌, refl, String, true, Option, none, some, List, [], ◌∷◌, arith, when, is_empty, ◌↔◌,
  empty_parts, empty_when,
}
use fedr.Int.{ℤ, pos, ◌+ℤ◌, ◌-ℤ◌, ◌≤ℤ◌}
use fedr.Decimal.{Decimal}
use fedr.Dict.{lookup}
use fedr.Models.{ExecutionQuote, oldest_ms}
use fedr.Settings.{SlippageSettings}
use fedr.Guards.{
  cap_by, limit_for, check_slippage, stale_legs, at_or_now, check_latency, first_tier, sort_tiers,
  tier_or_least,
}

-- A cap that is set holds.
abbrev pub IsCappedBy : Decimal → Option Decimal → Type 0
IsCappedBy x none = Unit
IsCappedBy x (some c) = x ≤ℤ c

cap_by-le : (o : Option Decimal) (x : Decimal) → (cap_by o x ≤ℤ x) × IsCappedBy (cap_by o x) o
cap_by-le none x = ground arith
cap_by-le (some c) x = ground arith

IsCappedBy-trans : (o : Option Decimal) (x y : Decimal) → y ≤ℤ x → IsCappedBy x o → IsCappedBy y o
IsCappedBy-trans none x y h k = tt
IsCappedBy-trans (some c) x y h k = omega arith

IsCappedBy-tier :
    (o : Option Decimal) (tiers : List (Decimal × Decimal)) (x : Decimal)
    → IsCappedBy x (tier_or_least o tiers)
    → IsCappedBy x o
IsCappedBy-tier none tiers x h = tt
IsCappedBy-tier (some c) tiers x h = h

-- The limit is never above the default, nor above a limit that is set for the asset, the venue or
-- the route, nor above that of the size tier that applies.
pub limit_for-IsCappedBy :
    (s : SlippageSettings) (asset venue route : String) (notional : Decimal)
    → let limit = limit_for s asset venue route notional in
      (limit ≤ℤ s.default_max_pct)
      × IsCappedBy limit (lookup asset s.per_asset_max_pct)
      × IsCappedBy limit (lookup venue s.per_venue_max_pct)
      × IsCappedBy limit (lookup route s.per_route_max_pct)
      × IsCappedBy limit (first_tier notional (sort_tiers s.size_tiers))
unfolding limit_for
limit_for-IsCappedBy s asset venue route notional =
    let oa = lookup asset s.per_asset_max_pct in
    let ov = lookup venue s.per_venue_max_pct in
    let or = lookup route s.per_route_max_pct in
    let tier = first_tier notional (sort_tiers s.size_tiers) in
    let ot = tier_or_least tier s.size_tiers in
    let a = cap_by oa s.default_max_pct in
    let v = cap_by ov a in
    let r = cap_by or v in
    let (la, ca) = cap_by-le oa s.default_max_pct in
    let (lv, cv) = cap_by-le ov a in
    let (lr, cr) = cap_by-le or v in
    let (lt, ct) = cap_by-le ot r in
    let t = cap_by ot r in
    (
      omega arith,
      IsCappedBy-trans oa a t (omega arith) ca,
      IsCappedBy-trans ov v t (omega arith) cv,
      IsCappedBy-trans or r t lt cr,
      IsCappedBy-tier tier s.size_tiers t ct,
    )

-- The guard lets a leg pass exactly if its slippage and price impact are together within the limit.
pub check_slippage_iff :
    (s : SlippageSettings) (leg : ExecutionQuote) (route : String) (notional : Decimal)
    (asset : String)
    → (is_empty (check_slippage s leg route notional asset) ≡ true)
      ↔ (leg.slippage_pct +ℤ leg.price_impact_pct ≤ℤ limit_for s asset leg.venue route notional)
unfolding check_slippage
check_slippage_iff s leg route notional asset = (λ h. ground arith, λ h. ground arith)

abbrev pub AllFresh : ℤ → ℕ → List ExecutionQuote → Type 0
AllFresh limit at [] = Unit
AllFresh limit at (leg ∷ legs) = (pos at -ℤ pos (oldest_ms leg) ≤ℤ limit) × AllFresh limit at legs

stale_legs_iff :
    (limit : ℤ) (at : ℕ) (legs : List ExecutionQuote)
    → (is_empty (stale_legs limit at legs) ≡ true) ↔ AllFresh limit at legs
unfolding stale_legs
stale_legs_iff limit at [] = (λ _. tt, λ _. refl)
stale_legs_iff limit at (leg ∷ legs) =
    let (f, g) = stale_legs_iff limit at legs in
    (
      λ h.
          let (a, b) = empty_parts (when _ _) (stale_legs limit at legs) h in
          let a' = empty_when _ _ a in (ground arith, f b),
      λ h. let r = g h.1 in ground arith,
    )

-- The latency guard finds nothing exactly if no leg is older than the limit.
pub check_latency_iff :
    (limit : ℤ) (legs : List ExecutionQuote) (at_ms : Option ℕ) (now : ℕ)
    → (is_empty (check_latency limit legs at_ms now) ≡ true)
      ↔ AllFresh limit (at_or_now at_ms now) legs
unfolding check_latency
check_latency_iff limit legs at_ms now = stale_legs_iff limit (at_or_now at_ms now) legs
