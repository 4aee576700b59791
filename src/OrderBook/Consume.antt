-- ===== src/OrderBook/Consume.antt =====
-- What `consume` of marketdata/orderbook.py leaves.
use fedr.Base.{◌≡◌, refl, List, [], ◌∷◌, arith, Bool-cases, inl, inr}
use fedr.Int.{pos, ◌+ℤ◌, ◌-ℤ◌, ◌≤ℤ◌, leb_ℤ, min_ℤ, int_laws}
use fedr.Decimal.{Decimal, zero_dec}
use fedr.Ledger.{OrderSide, buy, sell}
use fedr.OrderBook.{Level, WalkResult, OrderBook, ok, taken, depth}
use fedr.OrderBook.Walking.{walk}
use fedr.OrderBook.Sizing.{consume_levels, consume}
use fedr.OrderBook.Walk.{AreLevels, depth_nonneg, walk-ok}

-- What is taken and what is left are together what was there.
depth-consume_levels :
    (r : Decimal) (xs : List Level)
    → AreLevels xs
    → pos 0 ≤ℤ r
    → depth (consume_levels r xs) +ℤ min_ℤ r (depth xs) ≡ depth xs
unfolding depth consume_levels
depth-consume_levels r [] h p = grind int_laws
depth-consume_levels r (x ∷ xs) h p = elim (Bool-cases (leb_ℤ r zero_dec)) [
  | inl e ↦ rw e (grind (int_laws, depth_nonneg xs h.2))
  | inr e ↦ elim (Bool-cases (leb_ℤ x.amount r)) [
    | inl k ↦
        rw (e, k)
          (grind (int_laws, depth_nonneg xs h.2, depth-consume_levels (r -ℤ x.amount) xs h.2))
    | inr k ↦ rw (e, k) (grind (int_laws, depth_nonneg xs h.2))
  ]
]

consume_levels-AreLevels :
    (r : Decimal) (xs : List Level) → AreLevels xs → AreLevels (consume_levels r xs)
unfolding consume_levels
consume_levels-AreLevels r [] h = tt
consume_levels-AreLevels r (x ∷ xs) h = elim (Bool-cases (leb_ℤ r zero_dec)) [
  | inl e ↦ rw e h
  | inr e ↦ elim (Bool-cases (leb_ℤ x.amount r)) [
    | inl k ↦ rw (e, k) (consume_levels-AreLevels (r -ℤ x.amount) xs h.2)
    | inr k ↦ rw (e, k) (grind int_laws, h.1, h.2)
  ]
]

-- No level's price is before the given one in the order of the side.
abbrev pub AllFrom : OrderSide → Decimal → List Level → Type 0
AllFrom side p [] = Unit
AllFrom buy p (x ∷ xs) = (p ≤ℤ x.price) × AllFrom buy p xs
AllFrom sell p (x ∷ xs) = (x.price ≤ℤ p) × AllFrom sell p xs

-- The levels that an order of the side takes from stand in its order, the best price first.
abbrev pub IsSorted : OrderSide → List Level → Type 0
IsSorted side [] = Unit
IsSorted side (x ∷ xs) = AllFrom side x.price xs × IsSorted side xs

consume_levels-AllFrom :
    (side : OrderSide) (p r : Decimal) (xs : List Level)
    → AllFrom side p xs
    → AllFrom side p (consume_levels r xs)
unfolding consume_levels
consume_levels-AllFrom side p r [] h = h
consume_levels-AllFrom buy p r (x ∷ xs) h =
    ground (arith, consume_levels-AllFrom buy p (r -ℤ x.amount) xs h.1)
consume_levels-AllFrom sell p r (x ∷ xs) h =
    ground (arith, consume_levels-AllFrom sell p (r -ℤ x.amount) xs h.1)

consume_levels-IsSorted :
    (side : OrderSide) (r : Decimal) (xs : List Level)
    → IsSorted side xs
    → IsSorted side (consume_levels r xs)
unfolding consume_levels
consume_levels-IsSorted side r [] h = tt
consume_levels-IsSorted side r (x ∷ xs) h = elim (Bool-cases (leb_ℤ r zero_dec)) [
  | inl e ↦ rw e h
  | inr e ↦ elim (Bool-cases (leb_ℤ x.amount r)) [
    | inl k ↦ rw (e, k) (consume_levels-IsSorted side (r -ℤ x.amount) xs h.1)
    | inr k ↦ rw (e, k) h
  ]
]

taken-consume :
    (side : OrderSide) (amount : Decimal) (b : OrderBook)
    → taken side (consume side amount b) ≡ consume_levels amount (taken side b)
unfolding consume
taken-consume buy amount b = refl
taken-consume sell amount b = refl

-- To consume an amount takes from the book what a walk for the amount fills: the depth that is left
-- and the fill are the depth before. The levels that are left are levels, in order.
pub consume-walk :
    (side : OrderSide) (amount : Decimal) (b : OrderBook) {r : WalkResult}
    → AreLevels (taken side b)
    → IsSorted side (taken side b)
    → walk side amount b ≡ ok r
    → let b' = consume side amount b in
      (depth (taken side b') +ℤ r.filled_base ≡ depth (taken side b))
      × AreLevels (taken side b')
      × IsSorted side (taken side b')
consume-walk side amount b {r} h s e =
    let xs = taken side b in
    let (p, fill) = walk-ok side amount b h e in
    rw (taken-consume side amount b, fill.1)
      (
        depth-consume_levels amount xs h (omega arith),
        consume_levels-AreLevels amount xs h,
        consume_levels-IsSorted side amount xs s,
      )
