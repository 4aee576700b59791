-- ===== src/OrderBook/Tests.antt =====
-- The order book of marketdata/orderbook.py on three levels.
use fedr.Base.{ℕ, ◌≡◌, refl, none, List, [], ◌∷◌, arith}
use fedr.Int.{pos, ◌+ℤ◌, min_ℤ, leb_ℤ}
use fedr.Decimal.{unit, dec}
use fedr.Ledger.{buy}
use fedr.OrderBook.{Level, OrderBook, WalkResult, ok, taken, depth}
use fedr.OrderBook.Walking.{walk, walk_quote, walk_levels, walk_result, take_level}
use fedr.OrderBook.Sizing.{consume}
use fedr.OrderBook.Walk.{IsFillOf, AreLevels, walk-IsFillOf}
use fedr.OrderBook.WalkQuote.{worth, walk_quote-spends}
use fedr.OrderBook.Consume.{IsSorted, consume-walk}

abbrev level : ℕ → ℕ → Level
level p a = record { price = dec p; amount = dec a }

abbrev book : OrderBook
book = record {
  venue = "kraken";
  symbol = "ETH/USDC";
  bids = level 99 4 ∷ [];
  asks = level 100 2 ∷ level 102 3 ∷ level 110 5 ∷ [];
  ts_ms = 1;
  received_ms = 1;
  sequence = none;
  source = "rest";
}

walk-IsFillOf_example :
    (r : WalkResult) × (walk buy (dec 4) book ≡ ok r) × IsFillOf (dec 4) book.asks r
unfolding unit
walk-IsFillOf_example = walk-IsFillOf buy (dec 4) book (omega arith)

walk_quote-spends_example :
    (r : WalkResult) × (walk_quote buy (dec 300) book ≡ ok r)
    × (r.quote_amount ≡ min_ℤ (dec 300) (worth book.asks))
    × (r.fully_filled ≡ leb_ℤ (dec 300) (worth book.asks))
unfolding unit
walk_quote-spends_example = walk_quote-spends buy (dec 300) book (omega arith)

abbrev walked : WalkResult
walked = walk_result buy (dec 4) (dec 100) (depth book.asks) (
    walk_levels book.asks
      (record { remaining = dec 4; quote = pos 0; filled = pos 0; levels = 0; last = dec 100 }))

walk-book : walk buy (dec 4) book ≡ ok walked
unfolding walk depth unit walk_result walk_levels take_level
walk-book = refl

consume-walk_example :
    let b' = consume buy (dec 4) book in
    (depth (taken buy b') +ℤ walked.filled_base ≡ depth (taken buy book))
    × AreLevels (taken buy b')
    × IsSorted buy (taken buy b')
unfolding unit
consume-walk_example = consume-walk buy (dec 4) book (omega arith) (omega arith) walk-book

abbrev raw_bids : List Level
raw_bids = level 98 1 ∷ level 99 4 ∷ []

abbrev raw_asks : List Level
raw_asks = level 102 3 ∷ level 100 0 ∷ []
