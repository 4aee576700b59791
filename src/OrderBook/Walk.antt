-- ===== src/OrderBook/Walk.antt =====
-- What `walk` of marketdata/orderbook.py fills.
use fedr.Base.{
  ◌≤◌, ◌+◌, ◌≡◌, refl, true, List, [], ◌∷◌, arith, if◌then◌else◌, length, ◌∙◌, Bool-cases, inl, inr,
}
use mathlib.Core.Path.{subst}
use fedr.Int.{pos, ◌+ℤ◌, ◌-ℤ◌, ◌≤ℤ◌, ◌<ℤ◌, leb_ℤ, min_ℤ, int_laws, +ℤ_assoc}
use fedr.Decimal.{Decimal, zero_dec}
use fedr.Decimal.Laws.{mul_nonneg}
use fedr.Ledger.{OrderSide}
use fedr.OrderBook.{Level, WalkResult, OrderBook, ok, err, not_positive, taken, depth}
use fedr.OrderBook.Walking.{Progress, take_level, walk_levels, walk_result, start, walk_book, walk}

-- Every level has an amount above 0 and a price that is not negative.
abbrev pub AreLevels : List Level → Type 0
AreLevels [] = Unit
AreLevels (x ∷ xs) = (pos 0 <ℤ x.amount) × (pos 0 ≤ℤ x.price) × AreLevels xs

pub depth_nonneg : (xs : List Level) → AreLevels xs → pos 0 ≤ℤ depth xs
unfolding depth
depth_nonneg [] h = omega arith
depth_nonneg (x ∷ xs) h = omega (int_laws, depth_nonneg xs h.2)

pub min_stop :
    (r d : Decimal) → pos 0 ≤ℤ r → pos 0 ≤ℤ d → leb_ℤ r (pos 0) ≡ true → min_ℤ r d ≡ pos 0
min_stop r d h k e = grind int_laws

pub min_step :
    (a r d : Decimal)
    → pos 0 ≤ℤ a
    → pos 0 ≤ℤ d
    → min_ℤ a r +ℤ min_ℤ (r -ℤ min_ℤ a r) d ≡ min_ℤ r (a +ℤ d)
min_step a r d h k = grind int_laws

remaining_nonneg :
    (x : Level) (s : Progress) → pos 0 ≤ℤ s.remaining → pos 0 ≤ℤ (take_level x s).remaining
unfolding take_level
remaining_nonneg x s p = grind int_laws

take_level-filled :
    (x : Level) (s : Progress) (d : Decimal)
    → let a = min_ℤ x.amount s.remaining in
      (take_level x s).filled +ℤ min_ℤ (take_level x s).remaining d
      ≡ s.filled +ℤ (a +ℤ min_ℤ (s.remaining -ℤ a) d)
unfolding take_level
take_level-filled x s d = +ℤ_assoc _ _ _

take_level-remaining :
    (x : Level) (s : Progress) (d : Decimal)
    → let a = min_ℤ x.amount s.remaining in
      (take_level x s).remaining -ℤ min_ℤ (take_level x s).remaining d
      ≡ s.remaining -ℤ (a +ℤ min_ℤ (s.remaining -ℤ a) d)
unfolding take_level
take_level-remaining x s d = omega int_laws

-- The loop takes what is asked for, or all that there is if that is less.
walk_levels-filled :
    (xs : List Level) (s : Progress)
    → AreLevels xs
    → pos 0 ≤ℤ s.remaining
    → let t = walk_levels xs s in
      (t.filled ≡ s.filled +ℤ min_ℤ s.remaining (depth xs))
      × (t.remaining ≡ s.remaining -ℤ min_ℤ s.remaining (depth xs))
unfolding walk_levels depth
walk_levels-filled [] s h p = (grind int_laws, grind int_laws)
walk_levels-filled (x ∷ xs) s h p = elim (Bool-cases (leb_ℤ s.remaining zero_dec)) [
  | inl e ↦
      rw
        (e, min_stop s.remaining (x.amount +ℤ depth xs) p (omega (int_laws, depth_nonneg xs h.2)) e)
        (omega int_laws, omega int_laws)
  | inr e ↦
      let (f, r) = walk_levels-filled xs (take_level x s) h.2 (remaining_nonneg x s p) in
      rw (e, ← min_step x.amount s.remaining (depth xs) (omega arith) (depth_nonneg xs h.2))
        (f ∙ take_level-filled x s (depth xs), r ∙ take_level-remaining x s (depth xs))
]

walk_levels-quote :
    (xs : List Level) (s : Progress)
    → AreLevels xs
    → pos 0 ≤ℤ s.quote
    → pos 0 ≤ℤ (walk_levels xs s).quote
unfolding walk_levels take_level
walk_levels-quote [] s h p = p
walk_levels-quote (x ∷ xs) s h p = grind (
  int_laws,
  mul_nonneg (min_ℤ x.amount s.remaining) x.price,
  walk_levels-quote xs (take_level x s) h.2,
)

walk_levels-levels :
    (xs : List Level) (s : Progress) → (walk_levels xs s).levels ≤ s.levels + length xs
unfolding walk_levels take_level
walk_levels-levels [] s = omega arith
walk_levels-levels (x ∷ xs) s = ground (arith, walk_levels-levels xs (take_level x s))

filled_start : (x d : Decimal) → pos 0 +ℤ min_ℤ x d ≡ min_ℤ x d
filled_start x d = omega int_laws

pub fully_filled_start : (x d : Decimal) → leb_ℤ (x -ℤ min_ℤ x d) (pos 0) ≡ leb_ℤ x d
fully_filled_start x d = grind int_laws

-- What a walk for a positive amount reports: it fills the amount, or all the depth if that is
-- less, and says that it is filled exactly in the first case; it reports the whole depth, a quote
-- amount and a slippage that are not negative, and no more levels than there are.
abbrev pub IsFillOf : Decimal → List Level → WalkResult → Type 0
IsFillOf amount xs r =
    (r.requested_base ≡ amount)
    × (r.filled_base ≡ min_ℤ amount (depth xs))
    × (r.fully_filled ≡ leb_ℤ amount (depth xs))
    × (r.depth_available_base ≡ depth xs)
    × (pos 0 ≤ℤ r.quote_amount)
    × (pos 0 ≤ℤ r.slippage_pct)
    × (r.levels_consumed ≤ length xs)

walk_book-IsFillOf :
    (side : OrderSide) (amount : Decimal) (xs : List Level)
    → AreLevels xs
    → pos 0 <ℤ amount
    → IsFillOf amount xs (walk_book side amount xs)
unfolding walk_result depth
walk_book-IsFillOf side amount [] h p = ground arith
walk_book-IsFillOf side amount (x ∷ xs) h p =
    let s = start amount x.price in
    let book = x ∷ xs in
    let (f, r) = walk_levels-filled book s h (omega arith) in
    (
      refl,
      f ∙ filled_start amount (depth book),
      rw r (fully_filled_start amount (depth book)),
      refl,
      walk_levels-quote book s h (omega arith),
      ground arith,
      omega (arith, walk_levels-levels book s),
    )

-- A walk for an amount that is not positive raises, and any other returns a fill of the side that
-- the order takes from.
pub walk-IsFillOf :
    (side : OrderSide) (amount : Decimal) (b : OrderBook)
    → AreLevels (taken side b)
    → if leb_ℤ amount (pos 0)
      then walk side amount b ≡ err not_positive
      else (r : WalkResult) × (walk side amount b ≡ ok r) × IsFillOf amount (taken side b) r
unfolding walk
walk-IsFillOf side amount b h = elim (Bool-cases (leb_ℤ amount (pos 0))) [
  | inl e ↦ rw e refl
  | inr e ↦ rw e (
    walk_book side amount (taken side b),
    refl,
    walk_book-IsFillOf side amount (taken side b) h (ground arith),
  )
]

-- A walk that returns was for a positive amount, and returns its fill.
pub walk-ok :
    (side : OrderSide) (amount : Decimal) (b : OrderBook) {r : WalkResult}
    → AreLevels (taken side b)
    → walk side amount b ≡ ok r
    → (pos 0 <ℤ amount) × IsFillOf amount (taken side b) r
unfolding walk
walk-ok side amount b {r} h e = elim (Bool-cases (leb_ℤ amount (pos 0))) [
  | inl t ↦ absurd (cc (rw t at e))
  | inr t ↦
      let p : pos 0 <ℤ amount = ground arith in
      let same : walk_book side amount (taken side b) ≡ r = cc (rw t at e) in
      (
        p,
        subst (IsFillOf amount (taken side b)) same
            (walk_book-IsFillOf side amount (taken side b) h p),
      )
]
