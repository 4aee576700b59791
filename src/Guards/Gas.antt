-- ===== src/Guards/Gas.antt =====
-- engine/gas_guard.py: the cost of a transaction, the regime of the gas price, and the guard.
use fedr.Base.{
  ℕ, zero, suc, ◌+◌, Bool, true, false, ◌&&◌, Option, none, some, List, [], ◌∷◌, ◌++◌,
  if◌then◌else◌, when, is_empty, or_else, ltb,
}
use fedr.Int.{ℤ, pos, ◌+ℤ◌, ◌-ℤ◌, ltb_ℤ, leb_ℤ}
use fedr.Decimal.{Decimal, zero_dec, dec, mul, div, pct}
use fedr.Dict.{Dict, lookup, insert}
use fedr.Models.{Chain, chain_value, GasRegime, normal, elevated, high, extreme}
use fedr.Settings.{GasSettings}

pub record GasSnapshot : Type 0 where
  pub chain : Chain
  pub gas_price_native : Decimal
  pub priority_fee_native : Decimal
  pub native_usd : Decimal
  pub l1_data_fee_usd : Decimal
  pub base_fee_lamports : ℕ
  pub ts_ms : ℕ

pub record GasBaseline : Type 0 where
  pub alpha : Decimal
  pub baseline : Dict Decimal
  pub samples : Dict ℕ

abbrev next_baseline : Decimal → Option Decimal → Decimal → Decimal
next_baseline alpha none gas_price = gas_price
next_baseline alpha (some prev) gas_price = mul prev (dec 1 -ℤ alpha) +ℤ mul gas_price alpha

abbrev next_samples : Option Decimal → Option ℕ → ℕ
next_samples none n = 1
next_samples (some _) n = or_else n 0 + 1

-- `update`; the new baseline is also the result
unfoldable pub update : Chain → Decimal → GasBaseline → GasBaseline × Decimal
update chain gas_price g =
    let k = chain_value chain in
    let prev = lookup k g.baseline in
    let x = next_baseline g.alpha prev gas_price in
    (
      record g {
        baseline = insert k x g.baseline;
        samples = insert k (next_samples prev (lookup k g.samples)) g.samples;
      },
      x,
    )

unfoldable pub seed : Chain → Decimal → GasBaseline → GasBaseline
seed chain x g =
    let k = chain_value chain in
    let n = or_else (lookup k g.samples) 0 in
    record g {
      baseline = insert k x g.baseline;
      samples = insert k (if ltb n 1 then 1 else n) g.samples;
    }

-- `compute_units or gas_limit or 200_000`
abbrev pub units_or_limit : Option ℕ → ℕ → ℕ
units_or_limit (some (suc n)) gas_limit = suc n
units_or_limit (some zero) (suc m) = suc m
units_or_limit (some zero) zero = 200000
units_or_limit none (suc m) = suc m
units_or_limit none zero = 200000

abbrev pub is_solana : Chain → Bool
is_solana Chain.solana = true
is_solana _ = false

-- GWEI and LAMPORTS
abbrev billion : Decimal
billion = dec 1000000000

unfoldable pub estimate_cost_usd : GasSnapshot → ℕ → Option ℕ → Decimal
estimate_cost_usd snap gas_limit compute_units =
    let cu = dec (units_or_limit compute_units gas_limit) in
    let total_lamports = dec snap.base_fee_lamports +ℤ mul snap.priority_fee_native cu in
    let gas_cost_eth = div (mul snap.gas_price_native (dec gas_limit)) billion in
    if is_solana snap.chain
    then mul (div total_lamports billion) snap.native_usd
    else mul gas_cost_eth snap.native_usd +ℤ snap.l1_data_fee_usd

unfoldable pub regime_of : GasSettings → Decimal → GasRegime
regime_of s ratio =
    if leb_ℤ s.extreme_multiple ratio
    then extreme
    else if leb_ℤ s.high_multiple ratio
    then high
    else if leb_ℤ s.elevated_multiple ratio
    then elevated
    else normal

abbrev pub regime_above : GasSettings → Option Decimal → Decimal → GasRegime
regime_above s none gas_price = normal
regime_above s (some base) gas_price =
    if leb_ℤ base zero_dec then normal else regime_of s (div gas_price base)

unfoldable pub regime : GasSettings → GasBaseline → Chain → Decimal → GasRegime
regime s g chain gas_price = regime_above s (lookup (chain_value chain) g.baseline) gas_price

pub data GasReason : Type 0 where
  unknown_conditions : GasReason
  stale : ℤ → GasReason
  priority_too_high : Decimal → GasReason
  price_too_high : Decimal → GasReason
  too_expensive : Decimal → Decimal → GasReason
  stress_too_high : Decimal → GasReason
  share_too_high : Decimal → GasReason
  extreme_regime : GasReason

pub record GasAssessment : Type 0 where
  pub chain : Option Chain
  pub regime : GasRegime
  pub current_gas_cost_usd : Decimal
  pub expected_gas_cost_usd : Decimal
  pub stress_gas_cost_usd : Decimal
  pub gas_pct_of_gross : Decimal
  pub passed : Bool
  pub reasons : List GasReason
  pub gas_price_native : Option Decimal
  pub priority_fee_usd : Decimal

abbrev pub is_extreme : GasRegime → Bool
is_extreme extreme = true
is_extreme _ = false

-- The two branches on the chain: the priority fee in USD, and its reasons.
unfoldable pub priority_usd : GasSnapshot → ℕ → Option ℕ → ℕ → Decimal
priority_usd snap gas_limit compute_units legs =
    let units =
      if is_solana snap.chain then units_or_limit compute_units gas_limit else gas_limit in
    mul (mul (div (mul snap.priority_fee_native (dec units)) billion) snap.native_usd) (dec legs)

unfoldable pub price_reasons : GasSettings → GasSnapshot → ℕ → Option ℕ → List GasReason
price_reasons s snap gas_limit compute_units =
    let lamports = mul snap.priority_fee_native (dec (units_or_limit compute_units gas_limit)) in
    if is_solana snap.chain
    then when (ltb_ℤ (dec s.max_priority_fee_lamports) lamports) (priority_too_high lamports)
    else when (ltb_ℤ s.max_priority_fee_gwei snap.priority_fee_native)
        (priority_too_high snap.priority_fee_native)
      ++ when (ltb_ℤ s.max_gas_price_gwei snap.gas_price_native)
          (price_too_high snap.gas_price_native)

-- The reasons that follow on the costs.
unfoldable pub cost_reasons :
    GasSettings → Decimal → Decimal → Decimal → Decimal → Decimal → GasRegime → List GasReason
cost_reasons s expected stress max_gas gross gas_pct r =
    when (ltb_ℤ max_gas expected) (too_expensive expected max_gas)
    ++ when (ltb_ℤ (mul max_gas s.stress_multiplier) stress) (stress_too_high stress)
    ++ when (ltb_ℤ zero_dec gross && ltb_ℤ s.max_gas_pct_of_gross gas_pct) (share_too_high gas_pct)
    ++ when (is_extreme r) extreme_regime

abbrev unknown_assessment : GasAssessment
unknown_assessment = record {
  chain = none;
  regime = normal;
  current_gas_cost_usd = zero_dec;
  expected_gas_cost_usd = zero_dec;
  stress_gas_cost_usd = zero_dec;
  gas_pct_of_gross = zero_dec;
  passed = false;
  reasons = unknown_conditions ∷ [];
  gas_price_native = none;
  priority_fee_usd = zero_dec;
}

-- `assess` on a snapshot, at the time `now`
unfoldable pub assess_snapshot :
    GasSettings
    → GasBaseline
    → ℕ
    → GasSnapshot
    → ℕ
    → Decimal
    → Option ℕ
    → Option Decimal
    → ℕ
    → GasAssessment
assess_snapshot s g now snap gas_limit gross compute_units max_gas_override legs =
    let age = pos now -ℤ pos snap.ts_ms in
    let current = mul (estimate_cost_usd snap gas_limit compute_units) (dec legs) in
    let stress = mul current s.stress_multiplier in
    let r = regime s g snap.chain snap.gas_price_native in
    let max_gas = or_else max_gas_override s.max_gas_per_trade_usd in
    let gas_pct = if ltb_ℤ zero_dec gross then pct current gross else dec 100 in
    let reasons =
      when (ltb_ℤ (pos 60000) age) (stale age)
      ++ (price_reasons s snap gas_limit compute_units
          ++ cost_reasons s current stress max_gas gross gas_pct r) in
    record {
      chain = some snap.chain;
      regime = r;
      current_gas_cost_usd = current;
      expected_gas_cost_usd = current;
      stress_gas_cost_usd = stress;
      gas_pct_of_gross = gas_pct;
      passed = is_empty reasons;
      reasons = reasons;
      gas_price_native = some snap.gas_price_native;
      priority_fee_usd = priority_usd snap gas_limit compute_units legs;
    }

unfoldable pub assess :
    GasSettings
    → GasBaseline
    → ℕ
    → Option GasSnapshot
    → ℕ
    → Decimal
    → Option ℕ
    → Option Decimal
    → ℕ
    → GasAssessment
assess s g now none gas_limit gross compute_units max_gas_override legs = unknown_assessment
assess s g now (some snap) gas_limit gross compute_units max_gas_override legs =
    assess_snapshot s g now snap gas_limit gross compute_units max_gas_override legs
