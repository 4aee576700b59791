-- ===== src/Guards/GasLaws.antt =====
-- The regimes and the verdict of engine/gas_guard.py.
use fedr.Base.{
  ℕ, ◌≤◌, ◌≡◌, ◌≢◌, refl, true, Option, none, some, ◌++◌, arith, if◌then◌else◌, is_empty,
  empty_parts, empty_when_append, or_else, Bool-cases, inl, inr,
}
use fedr.Int.{pos, ◌-ℤ◌, ◌≤ℤ◌, ◌<ℤ◌, ltb_ℤ, leb_ℤ}
use fedr.Decimal.{Decimal, zero_dec, dec, mul, div}
use fedr.Decimal.Laws.{div_mono_left}
use fedr.Dict.{lookup}
use fedr.Models.{Chain, chain_value, GasRegime, normal, elevated, high, extreme}
use fedr.Settings.{GasSettings}
use fedr.Guards.Gas.{
  GasSnapshot, GasBaseline, GasAssessment, stale, regime, regime_of, regime_above, is_solana,
  units_or_limit, price_reasons, cost_reasons, assess, assess_snapshot,
}

-- The regimes in order.
abbrev pub severity : GasRegime → ℕ
severity normal = 0
severity elevated = 1
severity high = 2
severity extreme = 3

regime_of_mono :
    (s : GasSettings) (a b : Decimal) → a ≤ℤ b → severity (regime_of s a) ≤ severity (regime_of s b)
unfolding regime_of
regime_of_mono s a b h = ground arith

regime_above_mono :
    (s : GasSettings) (o : Option Decimal) (a b : Decimal)
    → pos 0 ≤ℤ a
    → a ≤ℤ b
    → severity (regime_above s o a) ≤ severity (regime_above s o b)
regime_above_mono s none a b p h = omega arith
regime_above_mono s (some base) a b p h = elim (Bool-cases (leb_ℤ base zero_dec)) [
  | inl e ↦ rw e (omega arith)
  | inr e ↦
      rw e (regime_of_mono s (div a base) (div b base) (div_mono_left a b base p h (ground arith)))
]

-- A higher gas price never gives a milder regime.
pub regime_mono :
    (s : GasSettings) (g : GasBaseline) (chain : Chain) (a b : Decimal)
    → pos 0 ≤ℤ a
    → a ≤ℤ b
    → severity (regime s g chain a) ≤ severity (regime s g chain b)
unfolding regime
regime_mono s g chain a b p h = regime_above_mono s (lookup (chain_value chain) g.baseline) a b p h

-- The limits on the price of gas: on Solana on the priority fee in lamports, elsewhere on the
-- priority fee and on the price.
abbrev pub IsPriced : GasSettings → GasSnapshot → ℕ → Option ℕ → Type 0
IsPriced s snap gas_limit units =
    if is_solana snap.chain
    then mul snap.priority_fee_native (dec (units_or_limit units gas_limit))
      ≤ℤ dec s.max_priority_fee_lamports
    else (snap.priority_fee_native ≤ℤ s.max_priority_fee_gwei)
      × (snap.gas_price_native ≤ℤ s.max_gas_price_gwei)

price_reasons-IsPriced :
    (s : GasSettings) (snap : GasSnapshot) (gas_limit : ℕ) (units : Option ℕ)
    → is_empty (price_reasons s snap gas_limit units) ≡ true
    → IsPriced s snap gas_limit units
unfolding price_reasons
price_reasons-IsPriced s snap gas_limit units h = elim (Bool-cases (is_solana snap.chain)) [
  | inl e ↦ rw e (ground arith)
  | inr e ↦ rw e (ground arith)
]

-- What passes the guard, of a snapshot that is known.
pub record IsAffordable (s : GasSettings) (now : ℕ) (snap : GasSnapshot) (gas_limit : ℕ)
    (gross : Decimal) (units : Option ℕ) (cap : Option Decimal) (r : GasAssessment) : Type 0 where
  pub fresh : pos now -ℤ pos snap.ts_ms ≤ℤ pos 60000
  pub priced : IsPriced s snap gas_limit units
  pub within : r.expected_gas_cost_usd ≤ℤ or_else cap s.max_gas_per_trade_usd
  pub stressed :
      r.stress_gas_cost_usd ≤ℤ mul (or_else cap s.max_gas_per_trade_usd) s.stress_multiplier
  pub share : pos 0 <ℤ gross → r.gas_pct_of_gross ≤ℤ s.max_gas_pct_of_gross
  pub mild : r.regime ≢ extreme

IsEmpty-cost_reasons :
    (s : GasSettings) (expected stress max_gas gross share : Decimal) (r : GasRegime)
    → is_empty (cost_reasons s expected stress max_gas gross share r) ≡ true
    → (expected ≤ℤ max_gas)
      × (stress ≤ℤ mul max_gas s.stress_multiplier)
      × (pos 0 <ℤ gross → share ≤ℤ s.max_gas_pct_of_gross)
      × (r ≢ extreme)
unfolding cost_reasons
IsEmpty-cost_reasons s expected stress max_gas gross share r h =
    (ground arith, ground arith, λ p. ground arith, λ e. absurd (ground arith))

assess_snapshot-IsAffordable :
    (s : GasSettings) (g : GasBaseline) (now : ℕ) (snap : GasSnapshot) (gas_limit : ℕ)
    (gross : Decimal) (units : Option ℕ) (cap : Option Decimal) (legs : ℕ)
    → (assess_snapshot s g now snap gas_limit gross units cap legs).passed ≡ true
    → IsAffordable s now snap gas_limit gross units cap
        (assess_snapshot s g now snap gas_limit gross units cap legs)
unfolding assess_snapshot
assess_snapshot-IsAffordable s g now snap gas_limit gross units cap legs h =
    let r = assess_snapshot s g now snap gas_limit gross units cap legs in
    let prices = price_reasons s snap gas_limit units in
    let costs =
      cost_reasons s r.expected_gas_cost_usd r.stress_gas_cost_usd
        (or_else cap s.max_gas_per_trade_usd) gross r.gas_pct_of_gross r.regime in
    let (fresh, rest) =
      empty_when_append (ltb_ℤ (pos 60000) (pos now -ℤ pos snap.ts_ms))
        (stale (pos now -ℤ pos snap.ts_ms)) (prices ++ costs) h in
    let (b, c) = empty_parts prices costs rest in
    let (within, stressed, share, mild) =
      IsEmpty-cost_reasons s r.expected_gas_cost_usd r.stress_gas_cost_usd
        (or_else cap s.max_gas_per_trade_usd) gross r.gas_pct_of_gross r.regime c in
    record {
      fresh = ground arith;
      priced = price_reasons-IsPriced s snap gas_limit units b;
      within = within;
      stressed = stressed;
      share = share;
      mild = mild;
    }

-- The guard passes only a known, fresh snapshot whose prices, cost, stressed cost and share of the
-- gross profit are within their limits, and never in the extreme regime.
pub assess-IsAffordable :
    (s : GasSettings) (g : GasBaseline) (now : ℕ) (o : Option GasSnapshot) (gas_limit : ℕ)
    (gross : Decimal) (units : Option ℕ) (cap : Option Decimal) (legs : ℕ)
    → (assess s g now o gas_limit gross units cap legs).passed ≡ true
    → (snap : GasSnapshot) × (o ≡ some snap)
      × IsAffordable s now snap gas_limit gross units cap
          (assess s g now o gas_limit gross units cap legs)
unfolding assess
assess-IsAffordable s g now none gas_limit gross units cap legs h = absurd (ground arith)
assess-IsAffordable s g now (some snap) gas_limit gross units cap legs h =
    (snap, refl, assess_snapshot-IsAffordable s g now snap gas_limit gross units cap legs h)
