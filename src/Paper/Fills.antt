-- ===== src/Paper/Fills.antt =====
-- What a simulated leg fills: the loop over the book and the bounds of a result.
use fedr.Base.{
  ◌≡◌, refl, inl, inr, true, Option, List, [], ◌∷◌, arith, if◌then◌else◌, ◌∙◌, Bool-cases,
}
use fedr.Int.{pos, ◌+ℤ◌, ◌≤ℤ◌, leb_ℤ, min_ℤ, int_laws, +ℤ_assoc}
use fedr.Decimal.{Decimal, zero_dec, mul}
use fedr.Ledger.{OrderSide}
use fedr.OrderBook.{Level, OrderBook, depth}
use fedr.OrderBook.Sizing.{apply_stress}
use fedr.OrderBook.Walk.{min_step}
use fedr.Orders.{OrderRequest}
use fedr.Paper.Filling.{
  is_beyond, adverse, Progress, take_level, fill_levels, side_levels, start, fill_from_book,
}

-- No amount and no price is negative.
abbrev pub AreOffers : List Level → Type 0
AreOffers [] = Unit
AreOffers (x ∷ xs) = (pos 0 ≤ℤ x.amount) × (pos 0 ≤ℤ x.price) × AreOffers xs

-- The levels before the first one beyond the limit.
abbrev pub within : OrderSide → Option Decimal → Decimal → List Level → List Level
within side limit factor [] = []
within side limit factor (x ∷ xs) =
    let rest = within side limit factor xs in
    if is_beyond side limit (mul x.price factor) then [] else x ∷ rest

depth-within_nonneg :
    (side : OrderSide) (limit : Option Decimal) (factor : Decimal) (xs : List Level)
    → AreOffers xs
    → pos 0 ≤ℤ depth (within side limit factor xs)
unfolding depth
depth-within_nonneg side limit factor [] h = omega arith
depth-within_nonneg side limit factor (x ∷ xs) h =
    elim (Bool-cases (is_beyond side limit (mul x.price factor))) [
      | inl e ↦ rw e (omega arith)
      | inr e ↦ rw e (omega (int_laws, depth-within_nonneg side limit factor xs h.2))
    ]

min-pos : (r d : Decimal) → pos 0 ≤ℤ r → pos 0 ≤ℤ d → r ≤ℤ pos 0 → min_ℤ r d ≡ pos 0
min-pos r d h k l = grind int_laws

remaining_nonneg :
    (factor : Decimal) (x : Level) (s : Progress)
    → pos 0 ≤ℤ s.remaining
    → pos 0 ≤ℤ (take_level factor x s).remaining
unfolding take_level
remaining_nonneg factor x s p = grind int_laws

add-step : (f a m t : Decimal) → a +ℤ m ≡ t → (f +ℤ a) +ℤ m ≡ f +ℤ t
add-step f a m t e = +ℤ_assoc f a m ∙ rw e refl

-- Stopping when nothing remains takes what going on would take.
taken_last :
    (factor : Decimal) (x : Level) (s : Progress) (d : Decimal)
    → pos 0 ≤ℤ s.remaining
    → pos 0 ≤ℤ d
    → leb_ℤ (take_level factor x s).remaining zero_dec ≡ true
    → (take_level factor x s).filled
      ≡ (take_level factor x s).filled +ℤ min_ℤ (take_level factor x s).remaining d
taken_last factor x s d p h e =
    let r = remaining_nonneg factor x s p in
    rw (min-pos (take_level factor x s).remaining d r h (ground arith)) (omega int_laws)

take_level-filled :
    (factor : Decimal) (x : Level) (s : Progress) (d : Decimal)
    → pos 0 ≤ℤ x.amount
    → pos 0 ≤ℤ d
    → (take_level factor x s).filled +ℤ min_ℤ (take_level factor x s).remaining d
      ≡ s.filled +ℤ min_ℤ s.remaining (x.amount +ℤ d)
unfolding take_level
take_level-filled factor x s d h k =
    add-step s.filled (min_ℤ x.amount s.remaining) _ _ (min_step x.amount s.remaining d h k)

fill_levels-filled :
    (side : OrderSide) (limit : Option Decimal) (factor : Decimal) (xs : List Level) (s : Progress)
    → AreOffers xs
    → pos 0 ≤ℤ s.remaining
    → (fill_levels side limit factor xs s).filled
      ≡ s.filled +ℤ min_ℤ s.remaining (depth (within side limit factor xs))
unfolding fill_levels depth
fill_levels-filled side limit factor [] s h p = grind int_laws
fill_levels-filled side limit factor (x ∷ xs) s h p =
    let d = depth (within side limit factor xs) in
    let dn = depth-within_nonneg side limit factor xs h.2 in
    let step = take_level-filled factor x s d h.0 dn in
    elim (Bool-cases (is_beyond side limit (mul x.price factor))) [
      | inl e ↦ rw e (grind int_laws)
      | inr e ↦ elim (Bool-cases (leb_ℤ (take_level factor x s).remaining zero_dec)) [
        | inl r ↦ rw (e, r) (taken_last factor x s d p dn r ∙ step)
        | inr r ↦
            rw (e, r)
              (fill_levels-filled side limit factor xs (take_level factor x s) h.2
                  (remaining_nonneg factor x s p)
                ∙ step)
      ]
    ]

-- A simulated order on an exchange, with an amount that is not negative and a book without
-- negative prices or amounts, fills the amount that is asked for, or all that the stressed book
-- offers before the first price beyond the limit, drift included, if that is less.
pub fill_from_book-base :
    (req : OrderRequest) (stress drift : Decimal) (book : OrderBook)
    → pos 0 ≤ℤ req.amount
    → AreOffers (side_levels req.side (apply_stress stress book))
    → (fill_from_book req stress drift book).base
      ≡ min_ℤ req.amount (
          depth (
            within req.side req.limit_price
              (adverse req.side drift)
              (side_levels req.side (apply_stress stress book))))
unfolding fill_from_book
fill_from_book-base req stress drift book p h =
    let levels = side_levels req.side (apply_stress stress book) in
    let factor = adverse req.side drift in
    let t = fill_levels req.side req.limit_price factor levels (start req.amount) in
    let d = depth (within req.side req.limit_price factor levels) in
    let dn = depth-within_nonneg req.side req.limit_price factor levels h in
    let f = fill_levels-filled req.side req.limit_price factor levels (start req.amount) h p in
    let f' : t.filled ≡ min_ℤ req.amount d = f ∙ omega int_laws in
    elim (Bool-cases (leb_ℤ t.filled zero_dec)) [
      | inl e ↦ rw e (none_left t.filled req.amount d p dn f' e)
      | inr e ↦ rw e f'
    ]
  where
    none_left :
        (x r d : Decimal)
        → pos 0 ≤ℤ r
        → pos 0 ≤ℤ d
        → x ≡ min_ℤ r d
        → leb_ℤ x zero_dec ≡ true
        → zero_dec ≡ min_ℤ r d
    none_left x r d p q e l = grind int_laws
