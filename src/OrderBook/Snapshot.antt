-- ===== src/OrderBook/Snapshot.antt =====
-- The books that `from_raw` of marketdata/orderbook.py builds, and which of them are valid.
use fedr.Base.{ℕ, ◌≡◌, refl, Bool, true, List, [], ◌∷◌, arith, String, Bool-cases, inl, inr, Option}
use fedr.Int.{pos, ◌+ℤ◌, ◌≤ℤ◌, ltb_ℤ, int_laws}
use fedr.Decimal.{Decimal, zero_dec}
use fedr.Ledger.{OrderSide, buy, sell}
use fedr.OrderBook.{
  Level, depth, insert_level, sort_levels, ascending, descending, nonempty_levels, from_raw,
}
use fedr.OrderBook.Walk.{AreLevels}
use fedr.OrderBook.Consume.{AllFrom, IsSorted}

-- The test by which `from_raw` sorts the levels that orders of a side take from.
abbrev pub order : OrderSide → Level → Level → Bool
order buy = ascending
order sell = descending

-- No price is negative.
abbrev pub ArePriced : List Level → Type 0
ArePriced [] = Unit
ArePriced (x ∷ xs) = (pos 0 ≤ℤ x.price) × ArePriced xs

AllFrom-trans :
    (side : OrderSide) (x y : Level) (xs : List Level)
    → order side x y ≡ true
    → AllFrom side y.price xs
    → AllFrom side x.price xs
AllFrom-trans side x y [] e h = tt
AllFrom-trans buy x y (z ∷ xs) e h = (ground arith, AllFrom-trans buy x y xs e h.1)
AllFrom-trans sell x y (z ∷ xs) e h = (ground arith, AllFrom-trans sell x y xs e h.1)

insert_level-AllFrom :
    (side : OrderSide) (p : Decimal) (x : Level) (xs : List Level)
    → AllFrom side p (x ∷ xs)
    → AllFrom side p (insert_level (order side) x xs)
unfolding insert_level
insert_level-AllFrom side p x [] h = h
insert_level-AllFrom buy p x (y ∷ xs) h = ground (arith, insert_level-AllFrom buy p x xs)
insert_level-AllFrom sell p x (y ∷ xs) h = ground (arith, insert_level-AllFrom sell p x xs)

insert_level-IsSorted :
    (side : OrderSide) (x : Level) (xs : List Level)
    → IsSorted side xs
    → IsSorted side (insert_level (order side) x xs)
unfolding insert_level
insert_level-IsSorted side x [] h = (tt, tt)
insert_level-IsSorted buy x (y ∷ xs) h = elim (Bool-cases (ascending x y)) [
  | inl e ↦ rw e ((ground arith, AllFrom-trans buy x y xs e h.0), h)
  | inr e ↦ rw e (
    insert_level-AllFrom buy y.price x xs (ground arith, h.0),
    insert_level-IsSorted buy x xs h.1,
  )
]
insert_level-IsSorted sell x (y ∷ xs) h = elim (Bool-cases (descending x y)) [
  | inl e ↦ rw e ((ground arith, AllFrom-trans sell x y xs e h.0), h)
  | inr e ↦ rw e (
    insert_level-AllFrom sell y.price x xs (ground arith, h.0),
    insert_level-IsSorted sell x xs h.1,
  )
]

sort_levels-IsSorted :
    (side : OrderSide) (xs : List Level) → IsSorted side (sort_levels (order side) xs)
unfolding sort_levels
sort_levels-IsSorted side [] = tt
sort_levels-IsSorted side (x ∷ xs) =
    insert_level-IsSorted side x (sort_levels (order side) xs) (sort_levels-IsSorted side xs)

insert_level-AreLevels :
    (le : Level → Level → Bool) (x : Level) (xs : List Level)
    → AreLevels (x ∷ xs)
    → AreLevels (insert_level le x xs)
unfolding insert_level
insert_level-AreLevels le x [] h = h
insert_level-AreLevels le x (y ∷ xs) h = ground (arith, insert_level-AreLevels le x xs)

depth-insert_level :
    (le : Level → Level → Bool) (x : Level) (xs : List Level)
    → depth (insert_level le x xs) ≡ x.amount +ℤ depth xs
unfolding insert_level depth
depth-insert_level le x [] = refl
depth-insert_level le x (y ∷ xs) = grind (int_laws, depth-insert_level le x xs)

sort_nonempty-AreLevels :
    (le : Level → Level → Bool) (xs : List Level)
    → ArePriced xs
    → AreLevels (sort_levels le (nonempty_levels xs))
unfolding sort_levels nonempty_levels
sort_nonempty-AreLevels le [] h = tt
sort_nonempty-AreLevels le (x ∷ xs) h = elim (Bool-cases (ltb_ℤ zero_dec x.amount)) [
  | inl e ↦ rw e (
      insert_level-AreLevels le x (sort_levels le (nonempty_levels xs))
        (ground arith, h.0, sort_nonempty-AreLevels le xs h.1))
  | inr e ↦ rw e (sort_nonempty-AreLevels le xs h.1)
]

depth-sort_levels :
    (le : Level → Level → Bool) (xs : List Level) → depth (sort_levels le xs) ≡ depth xs
unfolding sort_levels depth
depth-sort_levels le [] = refl
depth-sort_levels le (x ∷ xs) = rw (depth-insert_level, depth-sort_levels le xs)

-- From levels in any order, with prices that are not negative, `from_raw` builds a book whose sides
-- are in order, have no empty level, and hold the depth of the levels given that are not empty.
pub from_raw-sides :
    (venue symbol : String) (bids asks : List Level) (ts : Option ℕ) (source : String)
    (sequence : Option ℕ) (now : ℕ)
    → ArePriced bids
    → ArePriced asks
    → let b = from_raw venue symbol bids asks ts source sequence now in
      (IsSorted sell b.bids × AreLevels b.bids × (depth b.bids ≡ depth (nonempty_levels bids)))
      × (IsSorted buy b.asks × AreLevels b.asks × (depth b.asks ≡ depth (nonempty_levels asks)))
unfolding from_raw
from_raw-sides venue symbol bids asks ts source sequence now h k = (
  (
    sort_levels-IsSorted sell (nonempty_levels bids),
    sort_nonempty-AreLevels descending bids h,
    depth-sort_levels descending (nonempty_levels bids),
  ),
  (
    sort_levels-IsSorted buy (nonempty_levels asks),
    sort_nonempty-AreLevels ascending asks k,
    depth-sort_levels ascending (nonempty_levels asks),
  ),
)
