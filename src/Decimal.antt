-- ===== src/Decimal.antt =====
-- core/money.py. A Decimal is a whole number of units of 10⁻¹⁸. Sums, differences and comparisons
-- are exact, and products and quotients round half to even at that unit.
pub mod Laws
use fedr.Base.{
  ℕ, zero, suc, ◌+◌, ◌-◌, ◌*◌, ◌/◌, ◌%◌, ◌≤◌, ◌<◌, ◌≡◌, Bool, true, false, ltb, leb, eqb,
  if◌then◌else◌, refl, List, [], ◌∷◌,
}
use fedr.Int.{
  ℤ, pos, negsuc, pos_part, neg_part, sub_ℕ, ◌+ℤ◌, ◌-ℤ◌, ltb_ℤ, leb_ℤ, eqb_ℤ, min_ℤ, max_ℤ,
}

abbrev pub Decimal : Type 0
Decimal = ℤ

unfoldable pub unit : ℕ
unit = 1000000000000000000

-- `Decimal(n)`
abbrev pub dec : ℕ → Decimal
dec n = pos (n * unit)

abbrev pub zero_dec : Decimal
zero_dec = pos 0

-- `Decimal(n) / 100`, for a literal with two decimals
unfoldable pub cents : ℕ → Decimal
unfolding unit
cents n = pos (n * (unit / 100))

-- n / d to the nearest whole number, a tie to the even one
unfoldable pub round_div : ℕ → ℕ → ℕ
round_div n d =
    let k = n / d in
    let r = n % d in if ltb (r + r) d then k else if ltb d (r + r) then k + 1 else k + k % 2

abbrev pub magnitude : ℤ → ℕ
magnitude (pos n) = n
magnitude (negsuc n) = suc n

-- The number of this magnitude, negative if the signs of `a` and `b` differ.
abbrev pub with_sign : ℤ → ℤ → ℕ → ℤ
with_sign (pos _) (pos _) m = pos m
with_sign (pos _) (negsuc _) m = sub_ℕ 0 m
with_sign (negsuc _) (pos _) m = sub_ℕ 0 m
with_sign (negsuc _) (negsuc _) m = pos m

-- `a * b`
unfoldable pub mul : Decimal → Decimal → Decimal
mul a b = with_sign a b (round_div (magnitude a * magnitude b) unit)

-- `a / b`, for a divisor that the caller has found to be other than zero
unfoldable pub div : Decimal → Decimal → Decimal
div a b = with_sign a b (round_div (magnitude a * unit) (magnitude b))

-- `pct`: 0 where the whole is 0
unfoldable pub pct : Decimal → Decimal → Decimal
pct part whole = if eqb_ℤ whole zero_dec then zero_dec else mul (div part whole) (dec 100)

-- `value * percent / HUNDRED`, the body of `pct_of`
unfoldable pub pct_of : Decimal → Decimal → Decimal
pct_of value percent = div (mul value percent) (dec 100)

unfoldable pub clamp : Decimal → Decimal → Decimal → Decimal
clamp value lo hi = max_ℤ lo (min_ℤ hi value)

-- `sum(xs, ZERO)`
unfoldable pub sum : List Decimal → Decimal
sum [] = zero_dec
sum (x ∷ xs) = x +ℤ sum xs

-- `abs`
abbrev pub abs : Decimal → Decimal
abs x = pos (magnitude x)

-- `quantize(Decimal("0.00000001"))`
unfoldable pub quantize_8 : Decimal → Decimal
unfolding unit
quantize_8 x =
    let step = unit / 100000000 in with_sign x (dec 1) (round_div (magnitude x) step * step)

-- `floor_to_step`: the whole steps that fit
unfoldable pub floor_to_step : Decimal → Decimal → Decimal
floor_to_step value step =
    if leb_ℤ step zero_dec
    then value
    else with_sign value (dec 1) (magnitude value / magnitude step * magnitude step)
