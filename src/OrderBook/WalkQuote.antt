-- ===== src/OrderBook/WalkQuote.antt =====
-- What `walk_quote` and `max_size_within_slippage` of marketdata/orderbook.py report.
use fedr.Base.{◌≡◌, refl, false, List, [], ◌∷◌, arith, if◌then◌else◌, ◌∙◌, Bool-cases, inl, inr, ap}
use fedr.Int.{pos, ◌+ℤ◌, ◌-ℤ◌, ◌≤ℤ◌, ◌<ℤ◌, leb_ℤ, eqb_ℤ, min_ℤ, int_laws, +ℤ_assoc}
use fedr.Decimal.{Decimal, zero_dec, mul}
use fedr.Decimal.Laws.{mul_nonneg}
use fedr.Ledger.{OrderSide}
use fedr.OrderBook.{Level, WalkResult, OrderBook, ok, err, not_positive, taken, depth}
use fedr.OrderBook.Walking.{
  QuoteProgress, empty_walk, take_quote, walk_quote_levels, walk_quote_result, walk_quote_book,
  walk_quote,
}
use fedr.OrderBook.Walk.{min_stop, min_step, fully_filled_start}

-- What all levels are worth in the quote asset.
unfoldable pub worth : List Level → Decimal
worth [] = zero_dec
worth (x ∷ xs) = mul x.amount x.price +ℤ worth xs

-- Amounts are not negative and prices are above 0.
abbrev pub ArePositive : List Level → Type 0
ArePositive [] = Unit
ArePositive (x ∷ xs) = (pos 0 ≤ℤ x.amount) × (pos 0 <ℤ x.price) × ArePositive xs

worth_nonneg : (xs : List Level) → ArePositive xs → pos 0 ≤ℤ worth xs
unfolding worth
worth_nonneg [] h = omega arith
worth_nonneg (x ∷ xs) h =
    omega (int_laws, worth_nonneg xs h.2, mul_nonneg x.amount x.price h.0 (omega arith))

take_quote-nonneg :
    (x : Level) (s : QuoteProgress) → pos 0 ≤ℤ s.remaining → pos 0 ≤ℤ (take_quote x s).remaining
unfolding take_quote
take_quote-nonneg x s p = grind int_laws

take_quote-spent :
    (x : Level) (s : QuoteProgress) (d : Decimal)
    → let a = min_ℤ (mul x.amount x.price) s.remaining in
      ((take_quote x s).spent +ℤ min_ℤ (take_quote x s).remaining d
        ≡ s.spent +ℤ (a +ℤ min_ℤ (s.remaining -ℤ a) d))
      × ((take_quote x s).remaining -ℤ min_ℤ (take_quote x s).remaining d
          ≡ s.remaining -ℤ (a +ℤ min_ℤ (s.remaining -ℤ a) d))
unfolding take_quote
take_quote-spent x s d = (+ℤ_assoc _ _ _, omega int_laws)

zero-add_min : (x d : Decimal) → pos 0 +ℤ min_ℤ x d ≡ min_ℤ x d
zero-add_min x d = omega int_laws

price_nonzero : (p : Decimal) → pos 0 <ℤ p → eqb_ℤ p zero_dec ≡ false
price_nonzero p h = ground arith

-- With prices above 0 the loop never divides by 0, and it spends what is asked for, or what all
-- levels are worth if that is less.
walk_quote_levels-spent :
    (xs : List Level) (s : QuoteProgress)
    → ArePositive xs
    → pos 0 ≤ℤ s.remaining
    → (t : QuoteProgress) × (walk_quote_levels xs s ≡ ok t)
      × (t.spent ≡ s.spent +ℤ min_ℤ s.remaining (worth xs))
      × (t.remaining ≡ s.remaining -ℤ min_ℤ s.remaining (worth xs))
unfolding walk_quote_levels worth
walk_quote_levels-spent [] s h p = (s, refl, grind int_laws, grind int_laws)
walk_quote_levels-spent (x ∷ xs) s h p = elim (Bool-cases (leb_ℤ s.remaining zero_dec)) [
  | inl e ↦
      let z = min_stop s.remaining (worth (x ∷ xs)) p (worth_nonneg (x ∷ xs) h) e in
      (s, rw e refl, rw z (omega int_laws), rw z (omega int_laws))
  | inr e ↦
      let (t, o, f, r) =
        walk_quote_levels-spent xs (take_quote x s) h.2 (take_quote-nonneg x s p) in
      let (f', r') = take_quote-spent x s (worth xs) in
      let m =
        min_step (mul x.amount x.price) s.remaining (worth xs)
          (mul_nonneg x.amount x.price h.0 (omega arith)) (worth_nonneg xs h.2) in
      (
        t,
        rw (e, price_nonzero x.price h.1) o,
        f ∙ f' ∙ ap (λ k. s.spent +ℤ k) m,
        r ∙ r' ∙ ap (λ k. s.remaining -ℤ k) m,
      )
]

walk_quote_book-spends :
    (side : OrderSide) (amount : Decimal) (xs : List Level)
    → ArePositive xs
    → pos 0 <ℤ amount
    → (r : WalkResult) × (walk_quote_book side amount xs ≡ ok r)
      × (r.quote_amount ≡ min_ℤ amount (worth xs))
      × (r.fully_filled ≡ leb_ℤ amount (worth xs))
unfolding walk_quote_result worth
walk_quote_book-spends side amount [] h p =
    (empty_walk side zero_dec, refl, ground arith, ground arith)
walk_quote_book-spends side amount (x ∷ xs) h p =
    let book = x ∷ xs in
    let s : QuoteProgress = record {
      remaining = amount;
      base = zero_dec;
      spent = zero_dec;
      levels = 0;
      last = x.price;
    } in
    let (t, o, f, r) = walk_quote_levels-spent book s h (omega arith) in
    (
      walk_quote_result side x.price (depth book) t,
      rw o refl,
      f ∙ zero-add_min amount (worth book),
      rw r (fully_filled_start amount (worth book)),
    )

-- A walk by quote amount raises for an amount that is not positive. Otherwise, on levels with prices
-- above 0, it returns: it spends the amount, or what the levels are worth if that is less, and says
-- that it is filled exactly in the first case.
pub walk_quote-spends :
    (side : OrderSide) (amount : Decimal) (b : OrderBook)
    → ArePositive (taken side b)
    → if leb_ℤ amount (pos 0)
      then walk_quote side amount b ≡ err not_positive
      else (r : WalkResult) × (walk_quote side amount b ≡ ok r)
        × (r.quote_amount ≡ min_ℤ amount (worth (taken side b)))
        × (r.fully_filled ≡ leb_ℤ amount (worth (taken side b)))
unfolding walk_quote
walk_quote-spends side amount b h = elim (Bool-cases (leb_ℤ amount (pos 0))) [
  | inl e ↦ rw e refl
  | inr e ↦ rw e (walk_quote_book-spends side amount (taken side b) h (ground arith))
]
