-- ===== src/Experience.antt =====
-- engine/experience.py: what past trades of a route have taught, as an extra safety buffer. Decimals
-- that the source keeps as texts are kept as Decimals.
pub mod Buffer
use fedr.Base.{
  ℕ, zero, suc, ◌+◌, String, Bool, true, false, not, ◌||◌, Option, none, some, if◌then◌else◌,
  or_else, ltb,
}
use fedr.Int.{ℤ, ◌+ℤ◌, ◌-ℤ◌, ltb_ℤ, leb_ℤ, max_ℤ}
use fedr.Decimal.{Decimal, zero_dec, dec, cents, mul, div, clamp}
use fedr.Dict.{Dict, lookup, insert}

pub record ExperienceStat : Type 0 where
  pub samples : ℕ
  pub error_pct_ewma : Decimal
  pub slippage_bias_pct : Decimal
  pub fee_variance_pct : Decimal
  pub gas_variance_pct : Decimal
  pub fill_reliability : Decimal
  pub latency_ms_ewma : Decimal
  pub extra_buffer_pct : Decimal

pub record ExperienceEngine : Type 0 where
  pub max_extra : Decimal
  pub enabled : Bool
  pub cache : Dict ExperienceStat

-- The arguments of `record`.
pub record Sample : Type 0 where
  pub notional_usd : Decimal
  pub prediction_error_usd : Decimal
  pub slippage_variance_usd : Decimal
  pub fee_variance_usd : Decimal
  pub gas_variance_usd : Decimal
  pub filled : Bool
  pub latency_ms : ℕ

-- ALPHA
abbrev pub alpha : Decimal
alpha = cents 20

unfoldable pub size_bucket : Decimal → String
size_bucket notional_usd =
    if leb_ℤ notional_usd (dec 100)
    then "xs"
    else if leb_ℤ notional_usd (dec 500)
    then "s"
    else if leb_ℤ notional_usd (dec 2000)
    then "m"
    else if leb_ℤ notional_usd (dec 10000)
    then "l"
    else "xl"

abbrev new_stat : ExperienceStat
new_stat = record {
  samples = 0;
  error_pct_ewma = zero_dec;
  slippage_bias_pct = zero_dec;
  fee_variance_pct = zero_dec;
  gas_variance_pct = zero_dec;
  fill_reliability = dec 1;
  latency_ms_ewma = zero_dec;
  extra_buffer_pct = zero_dec;
}

-- The first sample is taken as it is, and a later one with the weight ALPHA.
unfoldable pub average : ℕ → Decimal → Decimal → Decimal
average zero old new = new
average (suc _) old new = mul old (dec 1 -ℤ alpha) +ℤ mul new alpha

abbrev pub known_buffer : ExperienceEngine → Option ExperienceStat → Decimal
known_buffer e none = zero_dec
known_buffer e (some s) =
    if ltb s.samples 3 then zero_dec else clamp s.extra_buffer_pct zero_dec e.max_extra

unfoldable pub extra_buffer_pct : ExperienceEngine → String → Decimal
extra_buffer_pct e key = if e.enabled then known_buffer e (lookup key e.cache) else zero_dec

unfoldable pub updated : ExperienceEngine → ExperienceStat → Sample → ExperienceStat
updated e s x =
    let notional = if leb_ℤ x.notional_usd zero_dec then dec 1 else x.notional_usd in
    let share = λ (y : Decimal). mul (div y notional) (dec 100) in
    let error = average s.samples s.error_pct_ewma (share x.prediction_error_usd) in
    let reliability = average s.samples s.fill_reliability (if x.filled then dec 1 else zero_dec) in
    let unreliability = mul (dec 1 -ℤ reliability) (cents 10) in
    record {
      samples = s.samples + 1;
      error_pct_ewma = error;
      slippage_bias_pct = average s.samples s.slippage_bias_pct (share x.slippage_variance_usd);
      fee_variance_pct = average s.samples s.fee_variance_pct (share x.fee_variance_usd);
      gas_variance_pct = average s.samples s.gas_variance_pct (share x.gas_variance_usd);
      fill_reliability = reliability;
      latency_ms_ewma = average s.samples s.latency_ms_ewma (dec x.latency_ms);
      extra_buffer_pct = clamp (max_ℤ zero_dec error +ℤ unreliability) zero_dec e.max_extra;
    }

-- `record`
unfoldable pub record_sample : String → Sample → ExperienceEngine → ExperienceEngine
record_sample key x e = record e {
  cache = insert key (updated e (or_else (lookup key e.cache) new_stat) x) e.cache;
}
