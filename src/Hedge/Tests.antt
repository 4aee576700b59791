-- ===== src/Hedge/Tests.antt =====
-- A purchase that makes up for a sale of too much, by engine/execution/emergency_hedge.py.
use fedr.Base.{◌≡◌, refl, String, true, false, Option, none, some, List, [], ◌∷◌, arith, or_else}
use fedr.Int.{ℤ, pos, negsuc, ◌+ℤ◌, ◌-ℤ◌, ◌≤ℤ◌, ◌<ℤ◌, ltb_ℤ}
use fedr.Decimal.{Decimal, zero_dec, dec, cents, abs, mul}
use fedr.Models.{ExecutionQuote, cex, healthy}
use fedr.Settings.Defaults.{default_app_settings}
use fedr.Ledger.{PaperLedger, OrderSide, get}
use fedr.Inventory.{InventoryLine}
use fedr.Breakers.{initial}
use fedr.OrderBook.{Level, OrderBook}
use fedr.Orders.{OrderResult, OrderRequest, OrderStatus, blank_result}
use fedr.Accounting.{hedge_sign}
use fedr.Paper.{PaperSettings, Arrival}
use fedr.Executor.{Engine}
use fedr.Hedge.{HedgeVenue, hedge, contains, on_paper}
use fedr.Hedge.Reduces.{hedge-reduces}

abbrev line : String → String → Decimal → InventoryLine
line v a x = record {
  venue = v;
  asset = a;
  available = x;
  reserved = zero_dec;
  pending = zero_dec;
  target = zero_dec;
  minimum = zero_dec;
  maximum = none;
  usd_value = none;
  kind = "cex";
}

abbrev funds : PaperLedger
funds = record {
  bal = ("binance", ("USDC", record { free = dec 500; used = zero_dec }) ∷ []) ∷ [];
  dirty = false;
}

abbrev engine : Engine
engine = record {
  settings = default_app_settings;
  ledger = some funds;
  has_paper_executor = true;
  inventory = record {
    lines = ("binance", "USDC", line "binance" "USDC" (dec 500)) ∷ [];
    reservations = [];
    targets = [];
  };
  breakers = initial;
  experience = record { max_extra = dec 1; enabled = true; cache = [] };
  emergency_stop = false;
  open_trade_ids = [];
  daily_pnl_usd = zero_dec;
  failed_trades_last_hour = 0;
  unhedged_since_ms = none;
  active = [];
  recent = [];
}

abbrev book : OrderBook
book = record {
  venue = "binance";
  symbol = "BTC/USDC";
  bids = record { price = dec 99; amount = dec 1 } ∷ [];
  asks =
      record { price = dec 100; amount = dec 1 } ∷ record { price = dec 105; amount = dec 3 } ∷ [];
  ts_ms = 1000;
  received_ms = 1100;
  sequence = none;
  source = "rest";
}

abbrev paper : PaperSettings
paper = record {
  stress_multiplier = dec 1;
  partial_fill_probability = zero_dec;
  failure_probability = zero_dec;
  quote_drift_pct = zero_dec;
  fill_ratio_on_partial = cents 50;
}

abbrev arrival : Arrival
arrival = record {
  failure_draw = cents 50;
  partial_draw = cents 50;
  book = some book;
  quote = none;
  gas_snapshot = none;
}

abbrev quoted : ExecutionQuote
quoted = record {
  venue = "binance";
  kind = cex;
  symbol = "BTC/USDC";
  side = OrderSide.buy;
  base_amount = dec 1;
  quote_amount = dec 100;
  avg_price = dec 100;
  reference_price = dec 100;
  slippage_pct = zero_dec;
  price_impact_pct = zero_dec;
  fully_fillable = true;
  market_ts_ms = 1000;
  quote_ts_ms = 1200;
  fee_pct = some zero_dec;
  fee_in_quote = none;
  chain = none;
  depth_available_base = dec 2;
  is_maker = false;
  taker_fee_pct = none;
  levels_consumed = 1;
  gas_limit = none;
  min_received = none;
}

abbrev venues : List HedgeVenue
venues =
    record {
      venue = record { name = "binance"; kind = cex; chain = none };
      connected = true;
      supports = true;
      health = healthy;
      quote = some quoted;
      arrival = arrival;
      placed = none;
    }
    ∷ []

-- One coin too many is sold.
abbrev exposure : Decimal
exposure = zero_dec -ℤ dec 1

abbrev ended : Option (Option PaperLedger × Option OrderResult)
ended = hedge paper ("kraken" ∷ "coinbase" ∷ []) venues engine "BTC/USDC" exposure

abbrev ledger_of : Option (Option PaperLedger × Option OrderResult) → Option PaperLedger
ledger_of none = none
ledger_of (some (l, r)) = l

abbrev result_of : Option (Option PaperLedger × Option OrderResult) → OrderResult
result_of (some (l, some r)) = r
result_of _ =
    blank_result
      (record {
        venue = "";
        symbol = "";
        side = OrderSide.buy;
        amount = zero_dec;
        limit_price = none;
        min_received = none;
        reduce_only = false;
        quoted_price = none;
      })
      OrderStatus.failed none

-- The coin is bought back for 100, and of the 100.9 that were set aside 0.9 stay reserved.
bought_back :
    (ended ≡ some (ledger_of ended, some (result_of ended)))
    × ((get (or_else (ledger_of ended) funds) "binance" "USDC").used ≡ cents 90)
unfolding fedr.Hedge.candidate_at fedr.Hedge.candidates fedr.Hedge.insert_candidate
    fedr.Hedge.sort_candidates fedr.Hedge.first_n fedr.Hedge.hedge_request fedr.Hedge.paper_attempt
    fedr.Hedge.try_venues fedr.Hedge.hedge_pair fedr.Hedge.hedge fedr.Paper.ledger_venue
    fedr.Paper.Filling.take_level fedr.Paper.Filling.fill_levels fedr.Paper.Filling.fill_from_book
    fedr.Paper.Filling.simulate_fill fedr.Paper.Leg.cut_fill fedr.Paper.Leg.settle
    fedr.Paper.Leg.filled_leg fedr.Paper.Leg.execute_leg fedr.Ledger.get fedr.Ledger.balances
    fedr.Ledger.put fedr.Ledger.acct fedr.Ledger.touched fedr.Ledger.add_free fedr.Ledger.reserve
    fedr.Ledger.pay fedr.Ledger.settle_fill fedr.Ledger.before_colon fedr.Inventory.find
    fedr.Inventory.reserved_for fedr.Inventory.available fedr.Orders.split_pair fedr.Decimal.cents
    fedr.Decimal.round_div fedr.Decimal.mul fedr.Decimal.div fedr.Decimal.pct_of fedr.Dict.lookup
    fedr.Dict.insert fedr.Dict.sum_by fedr.Int.◌+ℤ◌ fedr.Int.◌-ℤ◌ fedr.OrderBook.Sizing.apply_stress
bought_back = (refl, refl)

hedge-reduces_example :
    (abs (exposure -ℤ hedge_sign (some (result_of ended)) (result_of ended).filled) <ℤ abs exposure)
    × (contains (result_of ended).request.venue ("kraken" ∷ "coinbase" ∷ []) ≡ false)
unfolding cents
hedge-reduces_example =
    hedge-reduces paper ("kraken" ∷ "coinbase" ∷ []) venues engine "BTC/USDC" exposure refl
      (omega arith) bought_back.0
