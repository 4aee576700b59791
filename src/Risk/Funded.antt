-- ===== src/Risk/Funded.antt =====
-- What passing the tests of engine/risk_engine.py on the balances, the gas reserves and the health of
-- the venues means.
use fedr.Base.{
  ◌≡◌, ◌⊎◌, inl, inr, String, Bool, true, false, Option, none, some, List, [], ◌∷◌, arith, ◌++◌,
  is_none, is_empty, or_else, empty_parts, ◌==◌, eq_iff, Bool-cases,
}
use mathlib.Core.Path.{subst}
use fedr.Int.{◌+ℤ◌, ◌≤ℤ◌}
use fedr.Decimal.{Decimal, dec, mul, div, zero_dec}
use fedr.Dict.{lookup}
use fedr.Models.{
  VenueHealth, VenueKind, Chain, chain_value, dex, cex, perp, healthy, degraded, unhealthy, blocked,
  unknown,
}
use fedr.Settings.{RiskSettings}
use fedr.Risk.{PortfolioState, RiskRequest}
use fedr.Risk.Score.{
  balance_reasons, need_reasons, sell_need, reserve_reasons, leg_reserve, reserve_low, all_health,
  one_health, health, venues,
}

-- The balance is known and covers the need.
abbrev pub Covers : Option Decimal → Decimal → Type 0
Covers none need = ⊥
Covers (some have) need = need ≤ℤ have

-- Without a flash loan the balances of both venues cover what the legs need.
abbrev pub IsFunded : RiskSettings → RiskRequest → PortfolioState → Type 0
IsFunded r q p =
    let need = mul q.buy.quote_amount (dec 1 +ℤ div (or_else q.buy.fee_pct zero_dec) (dec 100)) in
    let (asset, amount) = sell_need r q q.sell.kind in
    Covers (p.available_balances q.buy.venue q.quote) need
    × Covers (p.available_balances q.sell.venue asset) amount

need_reasons-none :
    (v a : String) (need : Decimal) (o : Option Decimal)
    → is_empty (need_reasons v a need o) ≡ true
    → Covers o need
need_reasons-none v a need none h = ground arith
need_reasons-none v a need (some have) h = ground arith

pub balance_reasons-none :
    (r : RiskSettings) (q : RiskRequest) (p : PortfolioState)
    → is_empty (balance_reasons r q p) ≡ true
    → (is_none q.flash_loan_usd ≡ false) ⊎ IsFunded r q p
unfolding balance_reasons
balance_reasons-none r q p = elim (Bool-cases (is_none q.flash_loan_usd)) [
  | inr x ↦ λ h. inl x
  | inl x ↦ rw x (λ h. inr (funded h))
]
  where
    need : Decimal
    need = mul q.buy.quote_amount (dec 1 +ℤ div (or_else q.buy.fee_pct zero_dec) (dec 100))

    funded :
        let (asset, amount) = sell_need r q q.sell.kind in
        is_empty (
            need_reasons q.buy.venue q.quote need (p.available_balances q.buy.venue q.quote)
            ++ need_reasons q.sell.venue asset amount (p.available_balances q.sell.venue asset))
          ≡ true
        → IsFunded r q p
    funded h =
        let (b, s) =
          empty_parts
            (need_reasons q.buy.venue q.quote need (p.available_balances q.buy.venue q.quote)) _
            h in
        (need_reasons-none _ _ _ _ b, need_reasons-none _ _ _ _ s)

-- A leg on a chain has a gas reserve that is not known to be low.
abbrev pub HasGas : PortfolioState → VenueKind → Option Chain → Type 0
HasGas p dex (some c) = reserve_low (lookup (chain_value c) p.gas_reserve_ok) ≡ false
HasGas p _ _ = Unit

leg_reserve-none :
    (p : PortfolioState) (k : VenueKind) (c : Option Chain)
    → is_empty (leg_reserve p.gas_reserve_ok k c) ≡ true
    → HasGas p k c
leg_reserve-none p dex (some c) h = ground arith
leg_reserve-none p dex none h = tt
leg_reserve-none p cex c h = tt
leg_reserve-none p perp c h = tt

pub reserve_reasons-none :
    (q : RiskRequest) (p : PortfolioState)
    → is_empty (reserve_reasons q p) ≡ true
    → HasGas p q.buy.kind q.buy.chain × HasGas p q.sell.kind q.sell.chain
unfolding reserve_reasons
reserve_reasons-none q p h =
    let (b, s) = empty_parts (leg_reserve p.gas_reserve_ok q.buy.kind q.buy.chain) _ h in
    (leg_reserve-none p q.buy.kind q.buy.chain b, leg_reserve-none p q.sell.kind q.sell.chain s)

-- The venue is healthy, or degraded where that is allowed.
abbrev pub IsFit : Bool → VenueHealth → Type 0
IsFit allowed healthy = Unit
IsFit allowed degraded = allowed ≡ true
IsFit allowed unhealthy = ⊥
IsFit allowed blocked = ⊥
IsFit allowed unknown = ⊥

one_health-none :
    (allowed : Bool) (v : String) (h : VenueHealth)
    → is_empty (one_health allowed v h).1 ≡ true
    → IsFit allowed h
one_health-none allowed v healthy e = tt
one_health-none allowed v degraded e = ground arith
one_health-none allowed v unhealthy e = ground arith
one_health-none allowed v blocked e = ground arith
one_health-none allowed v unknown e = ground arith

abbrev AllFit : Bool → PortfolioState → List String → Type 0
AllFit allowed p [] = Unit
AllFit allowed p (v ∷ vs) = IsFit allowed (health p v) × AllFit allowed p vs

all_health-AllFit :
    (allowed : Bool) (p : PortfolioState) (vs : List String)
    → is_empty (all_health allowed p vs).1 ≡ true
    → AllFit allowed p vs
unfolding all_health
all_health-AllFit allowed p [] h = tt
all_health-AllFit allowed p (v ∷ vs) h =
    let (a, b) = empty_parts (one_health allowed v (health p v)).1 _ h in
    (one_health-none allowed v (health p v) a, all_health-AllFit allowed p vs b)

pub all_health-none :
    (allowed : Bool) (q : RiskRequest) (p : PortfolioState)
    → is_empty (all_health allowed p (venues q)).1 ≡ true
    → IsFit allowed (health p q.buy.venue) × IsFit allowed (health p q.sell.venue)
all_health-none allowed q p h = both (all_health-AllFit allowed p (venues q) h)
  where
    both :
        AllFit allowed p (venues q)
        → IsFit allowed (health p q.buy.venue) × IsFit allowed (health p q.sell.venue)
    both = elim (Bool-cases (q.buy.venue == q.sell.venue)) [
      | inl x ↦ rw x (λ k. (
        k.0,
        subst (λ v. IsFit allowed (health p v)) ((eq_iff q.buy.venue q.sell.venue).0 x) k.0,
      ))
      | inr x ↦ rw x (λ k. (k.0, k.1.0))
    ]
