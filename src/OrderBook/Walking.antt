-- ===== src/OrderBook/Walking.antt =====
-- `walk` and `walk_quote` of marketdata/orderbook.py.
use fedr.Base.{ℕ, ◌+◌, false, List, [], ◌∷◌, if◌then◌else◌}
use fedr.Int.{◌+ℤ◌, ◌-ℤ◌, ltb_ℤ, leb_ℤ, eqb_ℤ, min_ℤ, max_ℤ}
use fedr.Decimal.{Decimal, zero_dec, mul, div}
use fedr.Ledger.{OrderSide}
use fedr.OrderBook.{
  Level, WalkResult, OrderBook, not_positive, division_by_zero, Result, ok, err, taken, depth,
  adverse_pct,
}

-- The variables of the loop of `walk`.
pub record Progress : Type 0 where
  pub remaining : Decimal
  pub quote : Decimal
  pub filled : Decimal
  pub levels : ℕ
  pub last : Decimal

-- one round
unfoldable pub take_level : Level → Progress → Progress
take_level lv s =
    let amount = min_ℤ lv.amount s.remaining in
    record {
      remaining = s.remaining -ℤ amount;
      quote = s.quote +ℤ mul amount lv.price;
      filled = s.filled +ℤ amount;
      levels = s.levels + 1;
      last = lv.price;
    }

unfoldable pub walk_levels : List Level → Progress → Progress
walk_levels [] s = s
walk_levels (lv ∷ book) s =
    let rest = walk_levels book (take_level lv s) in if leb_ℤ s.remaining zero_dec then s else rest

abbrev pub empty_walk : OrderSide → Decimal → WalkResult
empty_walk side requested = record {
  side = side;
  requested_base = requested;
  filled_base = zero_dec;
  quote_amount = zero_dec;
  avg_price = zero_dec;
  reference_price = zero_dec;
  slippage_pct = zero_dec;
  levels_consumed = 0;
  fully_filled = false;
  last_price = zero_dec;
  depth_available_base = zero_dec;
}

unfoldable pub walk_result : OrderSide → Decimal → Decimal → Decimal → Progress → WalkResult
walk_result side base_amount reference available s =
    let avg = if ltb_ℤ zero_dec s.filled then div s.quote s.filled else zero_dec in
    let slip = if ltb_ℤ zero_dec s.filled then adverse_pct side avg reference else zero_dec in
    record {
      side = side;
      requested_base = base_amount;
      filled_base = s.filled;
      quote_amount = s.quote;
      avg_price = avg;
      reference_price = reference;
      slippage_pct = max_ℤ zero_dec slip;
      levels_consumed = s.levels;
      fully_filled = leb_ℤ s.remaining zero_dec;
      last_price = s.last;
      depth_available_base = available;
    }

abbrev pub start : Decimal → Decimal → Progress
start amount reference = record {
  remaining = amount;
  quote = zero_dec;
  filled = zero_dec;
  levels = 0;
  last = reference;
}

abbrev pub walk_book : OrderSide → Decimal → List Level → WalkResult
walk_book side base_amount [] = empty_walk side base_amount
walk_book side base_amount (lv ∷ book) =
    walk_result side base_amount lv.price (depth (lv ∷ book))
      (walk_levels (lv ∷ book) (start base_amount lv.price))

unfoldable pub walk : OrderSide → Decimal → OrderBook → Result WalkResult
walk side base_amount b =
    if leb_ℤ base_amount zero_dec
    then err not_positive
    else ok (walk_book side base_amount (taken side b))

-- The variables of the loop of `walk_quote`.
pub record QuoteProgress : Type 0 where
  pub remaining : Decimal
  pub base : Decimal
  pub spent : Decimal
  pub levels : ℕ
  pub last : Decimal

unfoldable pub take_quote : Level → QuoteProgress → QuoteProgress
take_quote lv s =
    let amount = min_ℤ (mul lv.amount lv.price) s.remaining in
    record {
      remaining = s.remaining -ℤ amount;
      base = s.base +ℤ div amount lv.price;
      spent = s.spent +ℤ amount;
      levels = s.levels + 1;
      last = lv.price;
    }

-- A price of 0 makes the division raise.
unfoldable pub walk_quote_levels : List Level → QuoteProgress → Result QuoteProgress
walk_quote_levels [] s = ok s
walk_quote_levels (lv ∷ book) s =
    let rest = walk_quote_levels book (take_quote lv s) in
    if leb_ℤ s.remaining zero_dec
    then ok s
    else if eqb_ℤ lv.price zero_dec
    then err division_by_zero
    else rest

unfoldable pub walk_quote_result : OrderSide → Decimal → Decimal → QuoteProgress → WalkResult
walk_quote_result side reference available s =
    let avg = if ltb_ℤ zero_dec s.base then div s.spent s.base else zero_dec in
    let slip = adverse_pct side avg reference in
    record {
      side = side;
      requested_base = s.base;
      filled_base = s.base;
      quote_amount = s.spent;
      avg_price = avg;
      reference_price = reference;
      slippage_pct = if ltb_ℤ zero_dec s.base then max_ℤ zero_dec slip else zero_dec;
      levels_consumed = s.levels;
      fully_filled = leb_ℤ s.remaining zero_dec;
      last_price = s.last;
      depth_available_base = available;
    }

abbrev pub map_ok : {A B : Type 0} → (A → B) → Result A → Result B
map_ok f (ok a) = ok (f a)
map_ok f (err e) = err e

abbrev pub walk_quote_book : OrderSide → Decimal → List Level → Result WalkResult
walk_quote_book side quote_amount [] = ok (empty_walk side zero_dec)
walk_quote_book side quote_amount (lv ∷ book) =
    map_ok (walk_quote_result side lv.price (depth (lv ∷ book))) (
      walk_quote_levels (lv ∷ book) (record {
        remaining = quote_amount;
        base = zero_dec;
        spent = zero_dec;
        levels = 0;
        last = lv.price;
      }))

unfoldable pub walk_quote : OrderSide → Decimal → OrderBook → Result WalkResult
walk_quote side quote_amount b =
    if leb_ℤ quote_amount zero_dec
    then err not_positive
    else walk_quote_book side quote_amount (taken side b)
