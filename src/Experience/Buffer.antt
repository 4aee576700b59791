-- ===== src/Experience/Buffer.antt =====
-- The extra buffer of engine/experience.py.
use fedr.Base.{String, none, some, arith}
use fedr.Int.{pos, ◌≤ℤ◌}
use fedr.Decimal.{Decimal, zero_dec, clamp}
use fedr.Dict.{lookup}
use fedr.Experience.{ExperienceEngine, extra_buffer_pct, known_buffer}

clamp_bounds :
    (x hi : Decimal) → pos 0 ≤ℤ hi → (pos 0 ≤ℤ clamp x zero_dec hi) × (clamp x zero_dec hi ≤ℤ hi)
unfolding clamp
clamp_bounds x hi h = (grind arith, grind arith)

known_buffer_bounds :
    (e : ExperienceEngine) (key : String)
    → pos 0 ≤ℤ e.max_extra
    → let b = known_buffer e (lookup key e.cache) in (pos 0 ≤ℤ b) × (b ≤ℤ e.max_extra)
known_buffer_bounds e key h =
    elim (lookup key e.cache)
      as (λ o. (pos 0 ≤ℤ known_buffer e o) × (known_buffer e o ≤ℤ e.max_extra)) [
        | none ↦ (omega arith, h)
        | some s ↦
            let c = clamp_bounds s.extra_buffer_pct e.max_extra h in (ground arith, ground arith)
      ]

-- What has been learned can only add to the safety buffer, and never more than the maximum, if
-- that is not negative.
pub extra_buffer_pct_bounds :
    (e : ExperienceEngine) (key : String)
    → pos 0 ≤ℤ e.max_extra
    → (pos 0 ≤ℤ extra_buffer_pct e key) × (extra_buffer_pct e key ≤ℤ e.max_extra)
unfolding extra_buffer_pct
extra_buffer_pct_bounds e key h = let k = known_buffer_bounds e key h in ground arith
