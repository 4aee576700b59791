-- ===== src/OrderBook/MaxSize.antt =====
-- What `max_size_within_slippage` of marketdata/orderbook.py returns.
use fedr.Base.{ℕ, ◌≡◌, refl, List, [], ◌∷◌, arith, ◌∙◌, Bool-cases, inl, inr, ◌⊎◌, take, suc, sym}
use mathlib.Core.Path.{subst}
use fedr.Int.{pos, ◌+ℤ◌, ◌≤ℤ◌, ltb_ℤ, +ℤ_assoc, +ℤ_zero}
use fedr.Decimal.{Decimal, zero_dec, mul, div}
use fedr.Ledger.{OrderSide}
use fedr.OrderBook.{Level, OrderBook, taken, depth}
use fedr.OrderBook.Sizing.{widen, max_size_within_slippage}
use fedr.OrderBook.WalkQuote.{worth}
use fedr.OrderBook.{adverse_pct}

-- A size that the first levels hold, at an average price whose slippage is within the limit.
abbrev pub IsWithin :
    OrderSide → Decimal → Decimal → List Level → Decimal → Decimal → Decimal → Type 0
IsWithin side limit reference xs base quote size =
    (n : ℕ) × (size ≡ base +ℤ depth (take n xs))
    × (adverse_pct side (div (quote +ℤ worth (take n xs)) size) reference ≤ℤ limit)

IsWithin-cons :
    (side : OrderSide) (limit reference : Decimal) (x : Level) (xs : List Level)
    (base quote size : Decimal)
    → IsWithin side limit reference xs (base +ℤ x.amount) (quote +ℤ mul x.amount x.price) size
    → IsWithin side limit reference (x ∷ xs) base quote size
unfolding depth worth
IsWithin-cons side limit reference x xs base quote size (n, e, w) = (
  suc n,
  e ∙ +ℤ_assoc base x.amount (depth (take n xs)),
  rw (← +ℤ_assoc quote (mul x.amount x.price) (worth (take n xs))) w,
)

first-IsWithin :
    (side : OrderSide) (limit reference : Decimal) (x : Level) (xs : List Level)
    (base quote : Decimal)
    → let size = base +ℤ x.amount in
      adverse_pct side (div (quote +ℤ mul x.amount x.price) size) reference ≤ℤ limit
      → IsWithin side limit reference (x ∷ xs) base quote size
unfolding depth worth
first-IsWithin side limit reference x xs base quote h = (1, rw +ℤ_zero refl, rw +ℤ_zero h)

widen_next :
    (side : OrderSide) (limit reference : Decimal) (x : Level) (xs : List Level)
    (base quote : Decimal) {r : Decimal}
    → IsWithin side limit reference (x ∷ xs) base quote (base +ℤ x.amount)
    → (r ≡ base +ℤ x.amount)
      ⊎ IsWithin side limit reference xs (base +ℤ x.amount) (quote +ℤ mul x.amount x.price) r
    → IsWithin side limit reference (x ∷ xs) base quote r
widen_next side limit reference x xs base quote {r} h (inl e) =
    subst (IsWithin side limit reference (x ∷ xs) base quote) (sym e) h
widen_next side limit reference x xs base quote {r} h (inr w) =
    IsWithin-cons side limit reference x xs base quote r w

widen-IsWithin :
    (side : OrderSide) (limit reference : Decimal) (xs : List Level) (base quote size : Decimal)
    → let r = widen side limit reference xs base quote size in
      (r ≡ size) ⊎ IsWithin side limit reference xs base quote r
unfolding widen
widen-IsWithin side limit reference [] base quote size = inl refl
widen-IsWithin side limit reference (x ∷ xs) base quote size =
    let b = base +ℤ x.amount in
    let q = quote +ℤ mul x.amount x.price in
    elim (Bool-cases (ltb_ℤ limit (adverse_pct side (div q b) reference))) [
      | inl e ↦ rw e (inl refl)
      | inr e ↦ rw e (
          inr (
            widen_next side limit reference x xs base quote
              (first-IsWithin side limit reference x xs base quote (ground arith))
              (widen-IsWithin side limit reference xs b q b)))
    ]

-- The size is 0, or it is what the first levels hold, and the average price over them is within the
-- limit of the best price.
pub max_size_within_slippage-IsWithin :
    (side : OrderSide) (limit : Decimal) (b : OrderBook) (x : Level) (xs : List Level)
    → taken side b ≡ x ∷ xs
    → let r = max_size_within_slippage side limit b in
      (r ≡ pos 0) ⊎ IsWithin side limit x.price (x ∷ xs) (pos 0) (pos 0) r
unfolding max_size_within_slippage
max_size_within_slippage-IsWithin side limit b x xs e =
    rw e (widen-IsWithin side limit x.price (x ∷ xs) zero_dec zero_dec zero_dec)
