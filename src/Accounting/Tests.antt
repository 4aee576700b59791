-- ===== src/Accounting/Tests.antt =====
-- engine/accounting.py on a trade whose sale is partly filled.
use fedr.Base.{false, none, some, [], ◌∷◌}
use fedr.Decimal.{Decimal, zero_dec, dec}
use fedr.Ledger.{OrderSide, buy, sell}
use fedr.Models.{paper, cex_cex}
use fedr.Profit.{no_costs}
use fedr.Orders.{OrderRequest, OrderResult, OrderStatus, TradeRecord, TradeStatus, blank_result}

abbrev order : OrderSide → Decimal → OrderRequest
order side amount = record {
  venue = "kraken";
  symbol = "BTC/USDC";
  side = side;
  amount = amount;
  limit_price = none;
  min_received = none;
  reduce_only = false;
  quoted_price = some (dec 100);
}

abbrev filled_order : OrderSide → Decimal → OrderResult
filled_order side amount = record (blank_result (order side amount) OrderStatus.filled none) {
  fills =
      record { amount = amount; price = dec 100; fee_amount = zero_dec; gas_cost_usd = zero_dec }
      ∷ [];
  filled = amount;
  avg_price = some (dec 100);
}

abbrev trade : TradeRecord
trade = record {
  id = "t1";
  mode = paper;
  strategy = cex_cex;
  size_base = dec 3;
  status = TradeStatus.executing;
  estimated_gross = dec 2;
  estimated_net = dec 1;
  estimated_worst_case = zero_dec;
  estimated_costs = no_costs;
  buy = some (filled_order buy (dec 3));
  sell = some (filled_order sell (dec 2));
  hedge = none;
  actual_gross = none;
  actual_fees = none;
  actual_gas = none;
  actual_net = none;
  prediction_error = none;
}

-- The missing sale is made up for.
abbrev hedged : TradeRecord
hedged = record trade { hedge = some (filled_order sell (dec 1)) }
