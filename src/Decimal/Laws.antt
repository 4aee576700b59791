-- ===== src/Decimal/Laws.antt =====
-- Signs, order and units of the rounded product and quotient of core/money.py's Decimals.
use native.Mathlib.Nat.{mul-div_cancel, mod-eq-sub-mul-div, one-mul, zero-mul, mul_assoc}
use fedr.Base.{ℕ, suc, ◌*◌, ◌/◌, ◌%◌, ◌≤◌, ◌<◌, ◌≡◌, arith, ap, refl}
use fedr.Int.{pos, negsuc, ◌≤ℤ◌, ◌<ℤ◌, ◌+ℤ◌}
use fedr.Decimal.{Decimal, unit, dec, round_div, mul, div, pct_of}

pub unit_pos : 0 < unit
unfolding unit
unit_pos = omega arith

div_mono : (n m d : ℕ) → 0 < d → n ≤ m → n / d ≤ m / d
div_mono n m d p h = grind arith

round_div_mono : (n m d : ℕ) → 0 < d → n ≤ m → round_div n d ≤ round_div m d
unfolding round_div
round_div_mono n m d p h = grind (arith, div_mono n m d p h)

pub round_div-mul : (n d : ℕ) → 0 < d → round_div (n * d) d ≡ n
unfolding round_div
round_div-mul n d p =
    let k : n * d / d ≡ n = mul-div_cancel n p in
    let r : n * d % d ≡ 0 = rw (mod-eq-sub-mul-div (n * d) d, k) (omega arith) in
    ground (arith, k, r)

pub mul_nonneg : (a b : Decimal) → pos 0 ≤ℤ a → pos 0 ≤ℤ b → pos 0 ≤ℤ mul a b
unfolding mul
mul_nonneg (pos a) (pos b) h k = omega arith
mul_nonneg (pos a) (negsuc b) h k = absurd (omega arith)
mul_nonneg (negsuc a) b h k = absurd (omega arith)

pub div_nonneg : (a b : Decimal) → pos 0 ≤ℤ a → pos 0 ≤ℤ b → pos 0 ≤ℤ div a b
unfolding div
div_nonneg (pos a) (pos b) h k = omega arith
div_nonneg (pos a) (negsuc b) h k = absurd (omega arith)
div_nonneg (negsuc a) b h k = absurd (omega arith)

pub mul_mono : (a b c : Decimal) → pos 0 ≤ℤ a → a ≤ℤ b → pos 0 ≤ℤ c → mul a c ≤ℤ mul b c
unfolding mul
mul_mono (pos a) (pos b) (pos c) h k l =
    omega (arith, round_div_mono (a * c) (b * c) unit unit_pos (grind arith))
mul_mono (pos a) (pos b) (negsuc c) h k l = absurd (omega arith)
mul_mono (pos a) (negsuc b) c h k l = absurd (omega arith)
mul_mono (negsuc a) b c h k l = absurd (omega arith)

pub mul_mono_right : (c a b : Decimal) → pos 0 ≤ℤ c → pos 0 ≤ℤ a → a ≤ℤ b → mul c a ≤ℤ mul c b
unfolding mul
mul_mono_right (pos c) (pos a) (pos b) h k l =
    omega (arith, round_div_mono (c * a) (c * b) unit unit_pos (grind arith))
mul_mono_right (pos c) (pos a) (negsuc b) h k l = absurd (omega arith)
mul_mono_right (pos c) (negsuc a) b h k l = absurd (omega arith)
mul_mono_right (negsuc c) a b h k l = absurd (omega arith)

pub div_mono_left : (a b c : Decimal) → pos 0 ≤ℤ a → a ≤ℤ b → pos 0 <ℤ c → div a c ≤ℤ div b c
unfolding div
div_mono_left (pos a) (pos b) (pos c) h k l =
    omega (arith, round_div_mono (a * unit) (b * unit) c (omega arith) (grind arith))
div_mono_left (pos a) (pos b) (negsuc c) h k l = absurd (omega arith)
div_mono_left (pos a) (negsuc b) c h k l = absurd (omega arith)
div_mono_left (negsuc a) b c h k l = absurd (omega arith)

round_div-zero : (n : ℕ) → n ≡ 0 → round_div n unit ≡ 0
unfolding unit
round_div-zero n e = rw (e, ← zero-mul unit) (round_div-mul 0 unit unit_pos)

-- A product by the whole number 1, and by 0.
pub mul-one : (a : Decimal) → mul a (dec 1) ≡ a
unfolding mul
mul-one (pos a) = ap pos (rw (one-mul unit) (round_div-mul a unit unit_pos))
mul-one (negsuc a) = rw (one-mul unit, round_div-mul (suc a) unit unit_pos) (ground arith)

pub mul-zero : (a : Decimal) → mul a (pos 0) ≡ pos 0
unfolding mul
mul-zero (pos a) = ap pos (round_div-zero (a * 0) (omega arith))
mul-zero (negsuc a) = rw (round_div-zero (suc a * 0) (omega arith)) (ground arith)

pub zero-mul_dec : (a : Decimal) → mul (pos 0 +ℤ pos 0) a ≡ pos 0
unfolding mul ◌+ℤ◌
zero-mul_dec (pos a) = ap pos (round_div-zero (0 * a) (omega arith))
zero-mul_dec (negsuc a) = rw (round_div-zero (0 * suc a) (omega arith)) (ground arith)

hundred_times : (n : ℕ) → n * (100 * unit) ≡ n * 100 * unit
hundred_times n = simp (mul_assoc) (refl)

-- A percentage of 100 is the whole.
mul-div_hundred : (a : Decimal) → pos 0 ≤ℤ a → div (mul a (dec 100)) (dec 100) ≡ a
unfolding mul div
mul-div_hundred (pos n) h =
    let e : round_div (n * (100 * unit)) unit ≡ n * 100 =
      rw (hundred_times n) (round_div-mul (n * 100) unit unit_pos) in
    ap pos (rw (e, ← hundred_times n) (round_div-mul n (100 * unit) hundred_pos))
  where
    hundred_pos : 0 < 100 * unit
    hundred_pos = let u = unit_pos in omega arith
mul-div_hundred (negsuc n) h = absurd (omega arith)

-- A percentage from 0 to 100 of an amount is from 0 to the amount.
pub pct_of_bounds :
    (a p : Decimal)
    → pos 0 ≤ℤ a
    → pos 0 ≤ℤ p
    → p ≤ℤ dec 100
    → (pos 0 ≤ℤ pct_of a p) × (pct_of a p ≤ℤ a)
unfolding pct_of
pct_of_bounds a p h k l =
    let hundred : pos 0 <ℤ dec 100 = let u = unit_pos in omega arith in
    let m = mul_mono_right a p (dec 100) h k l in
    let lo = div_nonneg (mul a p) (dec 100) (mul_nonneg a p h k) (omega arith) in
    let hi = div_mono_left (mul a p) (mul a (dec 100)) (dec 100) (mul_nonneg a p h k) m hundred in
    (lo, rw (mul-div_hundred a h) at hi)
