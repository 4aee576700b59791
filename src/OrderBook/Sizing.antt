-- ===== src/OrderBook/Sizing.antt =====
-- `max_size_within_slippage`, `apply_stress` and `consume` of marketdata/orderbook.py.
use fedr.Base.{List, [], ◌∷◌, if◌then◌else◌}
use fedr.Int.{◌+ℤ◌, ◌-ℤ◌, ltb_ℤ, leb_ℤ}
use fedr.Decimal.{Decimal, zero_dec, dec, mul, div}
use fedr.Ledger.{OrderSide, buy, sell}
use fedr.OrderBook.{Level, OrderBook, taken, adverse_pct}

-- The loop of `max_size_within_slippage`, over the two running sums and the size so far.
unfoldable pub widen :
    OrderSide → Decimal → Decimal → List Level → Decimal → Decimal → Decimal → Decimal
widen side limit reference [] cum_base cum_quote size = size
widen side limit reference (lv ∷ book) cum_base cum_quote size =
    let base = cum_base +ℤ lv.amount in
    let quote = cum_quote +ℤ mul lv.amount lv.price in
    let rest = widen side limit reference book base quote base in
    if ltb_ℤ limit (adverse_pct side (div quote base) reference) then size else rest

abbrev widen_book : OrderSide → Decimal → List Level → Decimal
widen_book side limit [] = zero_dec
widen_book side limit (lv ∷ book) = widen side limit lv.price (lv ∷ book) zero_dec zero_dec zero_dec

unfoldable pub max_size_within_slippage : OrderSide → Decimal → OrderBook → Decimal
max_size_within_slippage side limit b = widen_book side limit (taken side b)

-- the levels of `apply_stress`
unfoldable pub thin : Decimal → List Level → List Level
thin m [] = []
thin m (x ∷ xs) = record { price = x.price; amount = div x.amount m } ∷ thin m xs

unfoldable pub apply_stress : Decimal → OrderBook → OrderBook
apply_stress m b =
    if leb_ℤ m (dec 1) then b else record b { bids = thin m b.bids; asks = thin m b.asks }

-- The loop of `consume`. A level that is used up goes, and the next one is at the front.
unfoldable pub consume_levels : Decimal → List Level → List Level
consume_levels remaining [] = []
consume_levels remaining (lv ∷ book) =
    let rest = consume_levels (remaining -ℤ lv.amount) book in
    if leb_ℤ remaining zero_dec
    then lv ∷ book
    else if leb_ℤ lv.amount remaining
    then rest
    else record lv { amount = lv.amount -ℤ remaining } ∷ book

unfoldable pub consume : OrderSide → Decimal → OrderBook → OrderBook
consume buy base_amount b = record b { asks = consume_levels base_amount b.asks }
consume sell base_amount b = record b { bids = consume_levels base_amount b.bids }
