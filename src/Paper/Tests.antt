-- ===== src/Paper/Tests.antt =====
-- Simulated legs of engine/execution/paper_executor.py.
use fedr.Base.{◌≡◌, refl, true, false, none, some, [], ◌∷◌, arith}
use fedr.Int.{min_ℤ}
use fedr.Decimal.{Decimal, zero_dec, dec, cents}
use fedr.Models.{ExecutionQuote, cex}
use fedr.Ledger.{PaperLedger, OrderSide, get}
use fedr.Ledger.Reserve.{IsSolvent}
use fedr.OrderBook.{depth, OrderBook}
use fedr.OrderBook.Sizing.{apply_stress}
use fedr.Orders.{OrderRequest, Venue}
use fedr.Paper.{Arrival, PaperSettings}
use fedr.Paper.Filling.{fill_from_book, side_levels, adverse}
use fedr.Paper.Fills.{AreOffers, within, fill_from_book-base}
use fedr.Paper.Leg.{execute_leg}
use fedr.Paper.Outcomes.{IsLegRun, execute_leg-IsLegRun}
use fedr.Paper.Solvent.{OffersOf, execute_leg-IsSolvent}

abbrev venue : Venue
venue = record { name = "kraken"; kind = cex; chain = none }

abbrev book : OrderBook
book = record {
  venue = "kraken";
  symbol = "BTC/USDC";
  bids = record { price = dec 99; amount = dec 1 } ∷ [];
  asks =
      record { price = dec 100; amount = dec 1 } ∷ record { price = dec 105; amount = dec 3 } ∷ [];
  ts_ms = 1000;
  received_ms = 1100;
  sequence = none;
  source = "rest";
}

abbrev order : OrderRequest
order = record {
  venue = "kraken";
  symbol = "BTC/USDC";
  side = OrderSide.buy;
  amount = dec 2;
  limit_price = some (dec 102);
  min_received = none;
  reduce_only = false;
  quoted_price = none;
}

abbrev paper : PaperSettings
paper = record {
  stress_multiplier = dec 1;
  partial_fill_probability = zero_dec;
  failure_probability = zero_dec;
  quote_drift_pct = cents 1;
  fill_ratio_on_partial = cents 50;
}

abbrev arrival : Arrival
arrival = record {
  failure_draw = cents 50;
  partial_draw = cents 50;
  book = some book;
  quote = none;
  gas_snapshot = none;
}

abbrev quoted : ExecutionQuote
quoted = record {
  venue = "kraken";
  kind = cex;
  symbol = "BTC/USDC";
  side = OrderSide.buy;
  base_amount = dec 2;
  quote_amount = dec 200;
  avg_price = dec 100;
  reference_price = dec 100;
  slippage_pct = zero_dec;
  price_impact_pct = zero_dec;
  fully_fillable = true;
  market_ts_ms = 1000;
  quote_ts_ms = 1200;
  fee_pct = some (cents 26);
  fee_in_quote = none;
  chain = none;
  depth_available_base = dec 2;
  is_maker = false;
  taker_fee_pct = none;
  levels_consumed = 1;
  gas_limit = none;
  min_received = none;
}

abbrev funds : PaperLedger
funds = record {
  bal = ("kraken", ("USDC", record { free = dec 500; used = dec 210 }) ∷ []) ∷ [];
  dirty = false;
}

funds-IsSolvent : IsSolvent funds
unfolding get fedr.Dict.lookup
funds-IsSolvent v a = ground arith

offers : AreOffers (side_levels OrderSide.buy (apply_stress (dec 1) book))
unfolding apply_stress fedr.Decimal.unit
offers = (omega arith, omega arith, (omega arith, omega arith, tt))

book_offers : OffersOf OrderSide.buy (some book)
book_offers = (omega arith, omega arith, (omega arith, omega arith, tt))

execute_leg-IsLegRun_example :
    IsLegRun order funds (execute_leg paper venue arrival order quoted funds)
unfolding cents
execute_leg-IsLegRun_example =
    execute_leg-IsLegRun paper venue arrival order quoted funds (omega arith) (omega arith)

fill_from_book-base_example :
    (fill_from_book order (dec 1) (cents 1) book).base
    ≡ min_ℤ (dec 2) (
        depth (
          within OrderSide.buy
            (some (dec 102))
            (adverse OrderSide.buy (cents 1))
            (side_levels OrderSide.buy (apply_stress (dec 1) book))))
fill_from_book-base_example = fill_from_book-base order (dec 1) (cents 1) book (omega arith) offers

execute_leg-IsSolvent_example :
    IsSolvent (execute_leg paper venue arrival order quoted funds).ledger
unfolding cents fedr.Decimal.unit
execute_leg-IsSolvent_example =
    execute_leg-IsSolvent paper venue arrival order quoted funds refl (omega arith) (omega arith)
      (omega arith, omega arith) (omega arith, omega arith) book_offers funds-IsSolvent
