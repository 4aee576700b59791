-- ===== src/OrderBook.antt =====
-- marketdata/orderbook.py: an order book, and what an order of a given size would take from it.
pub mod Walking
pub mod Sizing
pub mod Walk
pub mod WalkQuote
pub mod MaxSize
pub mod Consume
pub mod Snapshot
mod Tests
use fedr.Base.{
  ℕ, zero, suc, ◌+◌, String, Bool, true, false, not, ◌&&◌, ◌||◌, Option, none, some, List, [], ◌∷◌,
  map, if◌then◌else◌, is_empty, take,
}
use fedr.Int.{ℤ, pos, ◌+ℤ◌, ◌-ℤ◌, ltb_ℤ, leb_ℤ, eqb_ℤ, min_ℤ, max_ℤ}
use fedr.Decimal.{Decimal, zero_dec, dec, mul, div, pct}
use fedr.Ledger.{OrderSide, buy, sell}

pub record Level : Type 0 where
  pub price : Decimal
  pub amount : Decimal

pub record WalkResult : Type 0 where
  pub side : OrderSide
  pub requested_base : Decimal
  pub filled_base : Decimal
  pub quote_amount : Decimal
  pub avg_price : Decimal
  pub reference_price : Decimal
  pub slippage_pct : Decimal
  pub levels_consumed : ℕ
  pub fully_filled : Bool
  pub last_price : Decimal
  pub depth_available_base : Decimal

pub record OrderBook : Type 0 where
  pub venue : String
  pub symbol : String
  pub bids : List Level
  pub asks : List Level
  pub ts_ms : ℕ
  pub received_ms : ℕ
  pub sequence : Option ℕ
  pub source : String

pub data Error : Type 0 where
  not_positive division_by_zero : Error

pub data Result (A : Type 0) : Type 0 where
  ok : A → Result A
  err : Error → Result A

-- `sorted` by a test for "no later than", and stable
unfoldable pub insert_level : (Level → Level → Bool) → Level → List Level → List Level
insert_level le x [] = x ∷ []
insert_level le x (y ∷ ys) = if le x y then x ∷ y ∷ ys else y ∷ insert_level le x ys

unfoldable pub sort_levels : (Level → Level → Bool) → List Level → List Level
sort_levels le [] = []
sort_levels le (x ∷ xs) = insert_level le x (sort_levels le xs)

abbrev pub ascending : Level → Level → Bool
ascending x y = leb_ℤ x.price y.price

abbrev pub descending : Level → Level → Bool
descending x y = leb_ℤ y.price x.price

-- the levels with an amount above 0
unfoldable pub nonempty_levels : List Level → List Level
nonempty_levels [] = []
nonempty_levels (x ∷ xs) =
    let rest = nonempty_levels xs in if ltb_ℤ zero_dec x.amount then x ∷ rest else rest

-- `ts_ms or now_ms()`: a timestamp of 0 counts as none
abbrev or_now : Option ℕ → ℕ → ℕ
or_now none now = now
or_now (some zero) now = now
or_now (some (suc t)) now = suc t

unfoldable pub from_raw :
    String → String → List Level → List Level → Option ℕ → String → Option ℕ → ℕ → OrderBook
from_raw venue symbol bids asks ts_ms source sequence now = record {
  venue = venue;
  symbol = symbol;
  bids = sort_levels descending (nonempty_levels bids);
  asks = sort_levels ascending (nonempty_levels asks);
  ts_ms = or_now ts_ms now;
  received_ms = now;
  sequence = sequence;
  source = source;
}

abbrev pub best : List Level → Option Decimal
best [] = none
best (x ∷ _) = some x.price

unfoldable pub best_bid : OrderBook → Option Decimal
best_bid b = best b.bids

unfoldable pub best_ask : OrderBook → Option Decimal
best_ask b = best b.asks

abbrev both_mid : Option Decimal → Option Decimal → Option Decimal
both_mid (some bid) (some ask) = some (div (bid +ℤ ask) (dec 2))
both_mid _ _ = none

unfoldable pub mid : OrderBook → Option Decimal
mid b = both_mid (best_bid b) (best_ask b)

abbrev both_spread : Option Decimal → Option Decimal → Option Decimal → Option Decimal
both_spread (some bid) (some ask) (some m) =
    if eqb_ℤ m zero_dec then none else some (pct (ask -ℤ bid) m)
both_spread _ _ _ = none

unfoldable pub spread_pct : OrderBook → Option Decimal
spread_pct b = both_spread (best_bid b) (best_ask b) (mid b)

abbrev crosses : Option Decimal → Option Decimal → Bool
crosses (some bid) (some ask) = leb_ℤ ask bid
crosses _ _ = false

unfoldable pub is_crossed : OrderBook → Bool
is_crossed b = crosses (best_bid b) (best_ask b)

unfoldable pub is_valid : OrderBook → Bool
is_valid b = not (is_empty b.bids) && not (is_empty b.asks) && not (is_crossed b)

-- the side of the book that an order takes from
abbrev pub taken : OrderSide → OrderBook → List Level
taken buy b = b.asks
taken sell b = b.bids

-- `sum((lv.amount for lv in book), ZERO)`
unfoldable pub depth : List Level → Decimal
depth [] = zero_dec
depth (x ∷ xs) = x.amount +ℤ depth xs

-- `book[:levels]`
abbrev first_levels : Option ℕ → List Level → List Level
first_levels none xs = xs
first_levels (some n) xs = take n xs

unfoldable pub depth_base : OrderSide → Option ℕ → OrderBook → Decimal
depth_base side levels b = depth (first_levels levels (taken side b))

-- `pct(avg - reference, reference)`, or the other way round for a sale
abbrev pub adverse_pct : OrderSide → Decimal → Decimal → Decimal
adverse_pct buy avg reference = pct (avg -ℤ reference) reference
adverse_pct sell avg reference = pct (reference -ℤ avg) reference
