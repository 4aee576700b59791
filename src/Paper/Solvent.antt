-- ===== src/Paper/Solvent.antt =====
-- The paper ledger under simulated legs on exchanges.
use mathlib.Core.Option
use fedr.Base.{
  ◌≡◌, refl, inl, inr, true, false, Option, none, some, List, [], ◌∷◌, arith, Bool-cases, String,
  or_else,
}
use fedr.Int.{pos, ◌≤ℤ◌, ◌<ℤ◌, leb_ℤ, ltb_ℤ, min_ℤ, int_laws}
use fedr.Decimal.{Decimal, zero_dec, dec, mul, div, pct_of, unit, round_div}
use fedr.Decimal.Laws.{mul_nonneg, div_nonneg, div_mono_left, pct_of_bounds, unit_pos}
use fedr.Ledger.{settle_fill, PaperLedger, OrderSide, buy, sell, before_colon}
use fedr.Ledger.Reserve.{IsSolvent}
use fedr.Ledger.Settle.{settle_fill-IsSolvent}
use fedr.Models.{ExecutionQuote, cex}
use fedr.OrderBook.{Level, OrderBook}
use fedr.OrderBook.Sizing.{apply_stress, thin}
use fedr.Orders.{OrderRequest, Venue, split_pair}
use fedr.Paper.{Arrival, Filled, PaperSettings, ledger_venue}
use fedr.Paper.Filling.{
  adverse, Progress, take_level, fill_levels, side_levels, start, fill_from_book, simulate_fill,
}
use fedr.Paper.Leg.{execute_leg, execute_pair, arrived, filled_leg, cut_fill, settle}
use fedr.Paper.Fills.{AreOffers}
use fedr.Paper.Outcomes.{cut_fill-bounds}

fill_levels_nonneg :
    (side : OrderSide) (limit : Option Decimal) (factor : Decimal) (xs : List Level) (s : Progress)
    → AreOffers xs
    → pos 0 ≤ℤ factor
    → pos 0 ≤ℤ s.remaining
    → pos 0 ≤ℤ s.cost
    → pos 0 ≤ℤ (fill_levels side limit factor xs s).cost
unfolding fill_levels take_level
fill_levels_nonneg side limit factor [] s h p r c = c
fill_levels_nonneg side limit factor (x ∷ xs) s h p r c =
    let taken : pos 0 ≤ℤ min_ℤ x.amount s.remaining = ground arith in
    let paid = mul_nonneg (min_ℤ x.amount s.remaining) _ taken (mul_nonneg x.price factor h.1 p) in
    let c' : pos 0 ≤ℤ (take_level factor x s).cost = omega int_laws in
    let r' : pos 0 ≤ℤ (take_level factor x s).remaining = grind int_laws in
    let rest = fill_levels_nonneg side limit factor xs (take_level factor x s) h.2 p r' c' in
    ground (arith, rest, c')

thin-AreOffers : (m : Decimal) (xs : List Level) → pos 0 ≤ℤ m → AreOffers xs → AreOffers (thin m xs)
unfolding thin
thin-AreOffers m [] h k = tt
thin-AreOffers m (x ∷ xs) h k = (div_nonneg x.amount m k.0 h, k.1, thin-AreOffers m xs h k.2)

stressed-AreOffers :
    (side : OrderSide) (m : Decimal) (b : OrderBook)
    → AreOffers (side_levels side b)
    → AreOffers (side_levels side (apply_stress m b))
unfolding apply_stress
stressed-AreOffers side m b h = elim (Bool-cases (leb_ℤ m (dec 1))) [
  | inl e ↦ rw e h
  | inr e ↦ rw e (thinned side (one_below m e) h)
]
  where
    one_below : (m : Decimal) → leb_ℤ m (dec 1) ≡ false → pos 0 ≤ℤ m
    one_below m e = let u = unit_pos in grind arith

    thinned :
        (side : OrderSide)
        → pos 0 ≤ℤ m
        → AreOffers (side_levels side b)
        → AreOffers (side_levels side (record b { bids = thin m b.bids; asks = thin m b.asks }))
    thinned buy p h = thin-AreOffers m b.asks p h
    thinned sell p h = thin-AreOffers m b.bids p h

-- A drift of 0 to 100 percent leaves no price negative.
adverse_nonneg :
    (side : OrderSide) (drift : Decimal)
    → pos 0 ≤ℤ drift
    → drift ≤ℤ dec 1
    → pos 0 ≤ℤ adverse side drift
adverse_nonneg buy drift h k = grind int_laws
adverse_nonneg sell drift h k = grind int_laws

fill_from_book_nonneg :
    (req : OrderRequest) (stress drift : Decimal) (book : OrderBook)
    → pos 0 ≤ℤ req.amount
    → pos 0 ≤ℤ drift
    → drift ≤ℤ dec 1
    → AreOffers (side_levels req.side book)
    → pos 0 ≤ℤ (fill_from_book req stress drift book).avg_price
unfolding fill_from_book
fill_from_book_nonneg req stress drift book p h k o =
    let levels = side_levels req.side (apply_stress stress book) in
    let factor = adverse req.side drift in
    let c =
      fill_levels_nonneg req.side req.limit_price factor levels (start req.amount)
        (stressed-AreOffers req.side stress book o) (adverse_nonneg req.side drift h k) p
        (omega arith) in
    let t = fill_levels req.side req.limit_price factor levels (start req.amount) in
    elim (Bool-cases (leb_ℤ t.filled zero_dec)) [
      | inl e ↦ rw e (omega arith)
      | inr e ↦ rw e (div_nonneg t.cost t.filled c (ground arith))
    ]

abbrev pub IsRate : Option Decimal → Type 0
IsRate none = Unit
IsRate (some p) = (pos 0 ≤ℤ p) × (p ≤ℤ dec 100)

abbrev pub OffersOf : OrderSide → Option OrderBook → Type 0
OffersOf side none = Unit
OffersOf side (some b) = AreOffers (side_levels side b)

hundred_pos : pos 0 <ℤ dec 100
hundred_pos = let u = unit_pos in omega arith

div-hundred_self : div (dec 100) (dec 100) ≡ dec 1
unfolding div unit round_div
div-hundred_self = refl

drift_bounds :
    (x : Decimal)
    → pos 0 ≤ℤ x
    → x ≤ℤ dec 100
    → (pos 0 ≤ℤ div x (dec 100)) × (div x (dec 100) ≤ℤ dec 1)
drift_bounds x h k =
    let hi = div_mono_left x (dec 100) (dec 100) h k hundred_pos in
    let p = hundred_pos in (div_nonneg x (dec 100) h (omega arith), rw div-hundred_self at hi)

rate_bounds :
    (o : Option Decimal) (y : Decimal) → IsRate o → pos 0 ≤ℤ y → pct_of y (or_else o zero_dec) ≤ℤ y
rate_bounds none y h k =
    let p = hundred_pos in (pct_of_bounds y zero_dec k (omega arith) (omega arith)).1
rate_bounds (some p) y h k = (pct_of_bounds y p k h.0 h.1).1

settle-cex :
    (venue : Venue) (base quote : String) (req : OrderRequest) (x y fee native : Decimal)
    (l : PaperLedger)
    → venue.kind ≡ cex
    → settle venue base quote req x y fee native l
      ≡ settle_fill (ledger_venue venue) base quote req.side x y fee true l
unfolding settle
settle-cex venue base quote req x y fee native l v = ground arith

filled_leg-IsSolvent :
    (ps : PaperSettings) (venue : Venue) (a : Arrival) (base quote : String) (req : OrderRequest)
    (q : ExecutionQuote) (f : Filled) (l : PaperLedger)
    → venue.kind ≡ cex
    → pos 0 ≤ℤ req.amount
    → pos 0 ≤ℤ ps.fill_ratio_on_partial
    → IsRate q.fee_pct
    → pos 0 ≤ℤ f.base
    → pos 0 ≤ℤ f.avg_price
    → IsSolvent l
    → IsSolvent (filled_leg ps venue a base quote req q f l).ledger
unfolding filled_leg
filled_leg-IsSolvent ps venue a base quote req q f l v p r fee b x s =
    let n = cut_fill ps a req f.base in
    let (lo, _) = cut_fill-bounds ps a req f.base p r b in
    let y = mul_nonneg n f.avg_price lo x in
    let le = rate_bounds q.fee_pct (mul n f.avg_price) fee y in
    simp (settle-cex venue base quote req n (mul n f.avg_price) _ f.gas_native l v, v)
      (settle_fill-IsSolvent (ledger_venue venue) base quote req.side n (mul n f.avg_price) _ l lo
        le s)

arrived-IsSolvent :
    (ps : PaperSettings) (venue : Venue) (a : Arrival) (base quote : String) (req : OrderRequest)
    (q : ExecutionQuote) (drift : Decimal) (book : Option OrderBook) (l : PaperLedger)
    → venue.kind ≡ cex
    → pos 0 ≤ℤ req.amount
    → pos 0 ≤ℤ ps.fill_ratio_on_partial
    → IsRate q.fee_pct
    → (pos 0 ≤ℤ drift) × (drift ≤ℤ dec 1)
    → OffersOf req.side book
    → IsSolvent l
    → IsSolvent
        (arrived ps venue a base quote req q
          (Option.map (fill_from_book req ps.stress_multiplier drift) book)
          l).ledger
arrived-IsSolvent ps venue a base quote req q drift none l v p r fee d o s = s
arrived-IsSolvent ps venue a base quote req q drift (some b) l v p r fee d o s =
    let f = fill_from_book req ps.stress_multiplier drift b in
    let px = fill_from_book_nonneg req ps.stress_multiplier drift b p d.0 d.1 o in
    elim (Bool-cases (leb_ℤ f.base zero_dec)) [
      | inl e ↦ rw e s
      | inr e ↦
          rw e (filled_leg-IsSolvent ps venue a base quote req q f l v p r fee (ground arith) px s)
    ]

simulate_fill-cex :
    (venue : Venue) (a : Arrival) (req : OrderRequest) (q : ExecutionQuote) (stress drift : Decimal)
    → venue.kind ≡ cex
    → simulate_fill venue a req q stress drift ≡ Option.map (fill_from_book req stress drift) a.book
unfolding simulate_fill
simulate_fill-cex venue a req q stress drift v = ground arith

execute_pair-IsSolvent :
    (ps : PaperSettings) (venue : Venue) (a : Arrival) (pair : Option (String × String))
    (req : OrderRequest) (q : ExecutionQuote) (l : PaperLedger)
    → venue.kind ≡ cex
    → pos 0 ≤ℤ req.amount
    → pos 0 ≤ℤ ps.fill_ratio_on_partial
    → IsRate q.fee_pct
    → (pos 0 ≤ℤ ps.quote_drift_pct) × (ps.quote_drift_pct ≤ℤ dec 100)
    → OffersOf req.side a.book
    → IsSolvent l
    → IsSolvent (execute_pair ps venue a pair req q l).ledger
execute_pair-IsSolvent ps venue a none req q l v p r fee d o s = s
execute_pair-IsSolvent ps venue a (some (base, quote)) req q l v p r fee d o s =
    let bounds = drift_bounds ps.quote_drift_pct d.0 d.1 in
    elim (Bool-cases (ltb_ℤ a.failure_draw ps.failure_probability)) [
      | inl e ↦ rw e s
      | inr e ↦
          rw
            (
              e,
              simulate_fill-cex venue a req q ps.stress_multiplier
                  (div ps.quote_drift_pct (dec 100)) v,
            )
            (arrived-IsSolvent ps venue a base quote req q (div ps.quote_drift_pct (dec 100)) a.book
              l v p r fee bounds o s)
    ]

-- A simulated leg on an exchange, from a ledger without negative amounts, makes no balance and no
-- reservation negative, whatever the draws are: if its amount and the ratio of a partial fill are
-- not negative, the rates are from 0 to 100 percent and the book has no negative price or amount.
pub execute_leg-IsSolvent :
    (ps : PaperSettings) (venue : Venue) (a : Arrival) (req : OrderRequest) (q : ExecutionQuote)
    (l : PaperLedger)
    → venue.kind ≡ cex
    → pos 0 ≤ℤ req.amount
    → pos 0 ≤ℤ ps.fill_ratio_on_partial
    → IsRate q.fee_pct
    → (pos 0 ≤ℤ ps.quote_drift_pct) × (ps.quote_drift_pct ≤ℤ dec 100)
    → OffersOf req.side a.book
    → IsSolvent l
    → IsSolvent (execute_leg ps venue a req q l).ledger
unfolding execute_leg
execute_leg-IsSolvent ps venue a req q l =
    execute_pair-IsSolvent ps venue a (split_pair (before_colon req.symbol)) req q l
