-- ===== src/Executor/Tests.antt =====
-- The executor of engine/execution/executor.py on a pair of exchanges, with paper legs.
use fedr.Base.{
  String, ◌≡◌, refl, eq_iff, sym, Bool-cases, Bool, true, false, Option, none, some, [], ◌∷◌, arith,
  ◌==◌, inl, inr, ◌⊎◌, or_else,
}
use fedr.Int.{int_laws, ℤ, pos, negsuc, ◌+ℤ◌, ◌-ℤ◌, ◌≤ℤ◌}
use fedr.Decimal.{Decimal, zero_dec, dec, cents}
use fedr.Models.{ExecutionQuote, cex, cex_cex, safe_to_execute}
use fedr.Settings.Defaults.{default_app_settings}
use fedr.Ledger.{get, PaperLedger, OrderSide, Balance}
use fedr.Inventory.{InventoryManager, InventoryLine, Need}
use fedr.Breakers.{initial}
use fedr.Profit.{no_costs}
use fedr.Orders.{
  OrderRequest, OrderResult, OrderStatus, TradeRecord, TradeStatus, Venue, blank_result,
}
use mathlib.Core.Path.{subst}
use fedr.Dict.{lookup}
use fedr.Executor.Run.{execute, abort, plan, Plan}
use fedr.Executor.Preconditions.{precondition, new_trade}
use fedr.Executor.Reserving.{reserve_legs, reserve_pair, release_pair, spent}
use fedr.Executor.Finish.{IsNewId, IsLeft, execute-IsLeft}
use fedr.Executor.Balance.{EndsClosed, execute-EndsClosed}
use fedr.Executor.Halts.{execute-halts}
use fedr.Executor.Aside.{Spends, reserve_pair-used}
use fedr.Executor.Conservation.{SameFunds, reserve_legs-refused, release_pair-reserve_pair}
use fedr.Executor.{Engine, Opportunity, Outside, Connector, Gathered, Abort, Ended, traded, aborted}

abbrev pub quote_of : String → OrderSide → Decimal → ExecutionQuote
quote_of venue side px = record {
  venue = venue;
  kind = cex;
  symbol = "BTC/USDC";
  side = side;
  base_amount = dec 1;
  quote_amount = px;
  avg_price = px;
  reference_price = px;
  slippage_pct = zero_dec;
  price_impact_pct = zero_dec;
  fully_fillable = true;
  market_ts_ms = 1000;
  quote_ts_ms = 1200;
  fee_pct = some zero_dec;
  fee_in_quote = none;
  chain = none;
  depth_available_base = dec 2;
  is_maker = false;
  taker_fee_pct = none;
  levels_consumed = 1;
  gas_limit = none;
  min_received = none;
}

abbrev pub chance : Opportunity
chance = record {
  strategy = cex_cex;
  pair = "BTC/USDC";
  size_base = dec 1;
  buy = quote_of "kraken" OrderSide.buy (dec 100);
  sell = quote_of "coinbase" OrderSide.sell (dec 110);
  decision = safe_to_execute;
  gross_profit = dec 10;
  expected_net_profit = dec 10;
  worst_case_profit = dec 9;
  expected_costs = no_costs;
  notional_usd = some (dec 100);
  route_key = none;
}

abbrev line : String → String → Decimal → InventoryLine
line v a x = record {
  venue = v;
  asset = a;
  available = x;
  reserved = zero_dec;
  pending = zero_dec;
  target = zero_dec;
  minimum = zero_dec;
  maximum = none;
  usd_value = none;
  kind = "cex";
}

abbrev funds : PaperLedger
funds = record {
  bal =
      ("kraken", ("USDC", record { free = dec 500; used = zero_dec }) ∷ [])
      ∷ ("coinbase", ("BTC", record { free = dec 2; used = zero_dec }) ∷ [])
      ∷ [];
  dirty = false;
}

abbrev pub engine : Engine
engine = record {
  settings = default_app_settings;
  ledger = some funds;
  has_paper_executor = true;
  inventory = record {
    lines =
        ("kraken", "USDC", line "kraken" "USDC" (dec 500))
        ∷ ("coinbase", "BTC", line "coinbase" "BTC" (dec 2))
        ∷ [];
    reservations = [];
    targets = [];
  };
  breakers = initial;
  experience = record { max_extra = dec 1; enabled = true; cache = [] };
  emergency_stop = false;
  open_trade_ids = [];
  daily_pnl_usd = zero_dec;
  failed_trades_last_hour = 0;
  unhedged_since_ms = none;
  active = [];
  recent = [];
}

abbrev connector : String → Option Connector
connector name =
    some
      (record { venue = record { name = name; kind = cex; chain = none }; trading_enabled = true })

abbrev pub fill_of : OrderRequest → Decimal → OrderResult
fill_of req px = record (blank_result req OrderStatus.filled none) {
  fills =
      record { amount = req.amount; price = px; fee_amount = zero_dec; gas_cost_usd = zero_dec }
      ∷ [];
  filled = req.amount;
  avg_price = some px;
}

abbrev outside : (OrderRequest → Option OrderResult) → Outside
outside sale = record {
  new_id = "t1";
  now_ms = 2000;
  now_s = 2;
  connectors = connector;
  has_candidate = true;
  reevaluated = some chance;
  submit = λ b s q l. record { buy = some (fill_of b (dec 100)); sell = sale s; ledger = l };
  hedge = λ tr pair x l. (l, none);
  raises = λ f. false;
  price_usd = λ a. some (dec 1);
  latency_ms = 40;
}

-- Both legs are filled.
abbrev pub good : Outside
good = outside (λ s. some (fill_of s (dec 110)))

-- The sale is lost, and the hedge too.
abbrev one_legged : Outside
one_legged = outside (λ s. none)

new_trade-IsNewId : IsNewId "t1" engine
unfolding lookup
new_trade-IsNewId = record { not_open = tt; not_active = tt; not_reserved = refl }

execute-IsLeft_example : IsLeft engine (execute good chance false engine)
execute-IsLeft_example = execute-IsLeft good chance false engine new_trade-IsNewId

-- The hedger raises after the sale is lost.
abbrev broken_hedge : Outside
broken_hedge = record one_legged { raises = λ f. true }

execute-EndsClosed_example : EndsClosed broken_hedge (execute broken_hedge chance false engine)
unfolding fedr.Breakers.initial
execute-EndsClosed_example = execute-EndsClosed broken_hedge chance false engine (tt, tt)

abbrev is_traded : Engine × Ended → Bool
is_traded (e, traded tr) = true
is_traded (e, aborted r tr) = false
is_traded (e, Ended.raised) = false

abbrev trade_of : Ended → TradeRecord
trade_of (traded tr) = tr
trade_of (aborted r tr) = tr
trade_of Ended.raised = new_trade "none" chance engine

traded_again : (r : Engine × Ended) → is_traded r ≡ true → r ≡ (r.0, traded (trade_of r.1))
traded_again (e, traded tr) h = refl
traded_again (e, aborted r tr) h = ground arith
traded_again (e, Ended.raised) h = ground arith

-- The one-legged trade is traded, its exposure stays open, and the loss of the buy is booked.
one_legged-run :
    let r = execute one_legged chance false engine in
    (is_traded r ≡ true)
    × ((trade_of r.1).status ≡ TradeStatus.recovering)
    × (r.0.open_trade_ids ≡ [])
    × (r.0.daily_pnl_usd ≡ zero_dec -ℤ dec 100)
unfolding fedr.Executor.Run.plan fedr.Executor.Run.close_legs fedr.Executor.Run.legs_done
    fedr.Executor.Run.trade_legs fedr.Executor.Run.protected_legs fedr.Executor.Faults.legs_fault
    fedr.Executor.Faults.recovery_fault fedr.Executor.Run.begin fedr.Executor.Run.finish
    fedr.Executor.Run.execute fedr.Executor.Preconditions.precondition
    fedr.Executor.Preconditions.new_trade fedr.Executor.Preconditions.reestimated
    fedr.Executor.Reserving.reserve_pair fedr.Executor.Reserving.reserve_legs
    fedr.Executor.Settling.as_result fedr.Executor.Settling.count_failure
    fedr.Executor.Settling.note_dex_failures fedr.Executor.Settling.recover
    fedr.Executor.Settling.check_variances fedr.Executor.Settling.check_daily_loss
    fedr.Executor.Settling.post_trade fedr.Ledger.get fedr.Ledger.balances fedr.Ledger.put
    fedr.Ledger.acct fedr.Ledger.touched fedr.Ledger.reserve fedr.Inventory.find
    fedr.Inventory.reserved_for fedr.Inventory.available fedr.Inventory.can_reserve
    fedr.Inventory.reserve fedr.Breakers.initial fedr.Breakers.has_scope fedr.Breakers.is_tripped
    fedr.Orders.quote_amount fedr.Orders.split_pair fedr.Paper.ledger_venue
    fedr.Accounting.leg_value fedr.Accounting.compute_outcome fedr.Accounting.apply_outcome
    fedr.Decimal.cents fedr.Decimal.round_div fedr.Decimal.mul fedr.Decimal.div fedr.Dict.lookup
    fedr.Dict.insert fedr.Dict.sum_by fedr.Int.◌+ℤ◌ fedr.Int.◌-ℤ◌
one_legged-run = (refl, refl, refl, refl)

execute-halts_example :
    let (e', r) = execute one_legged chance false engine in
    (a : Abort) × (execute good chance false e' ≡ abort a (new_trade "t1" chance e') e')
unfolding fedr.Breakers.initial
execute-halts_example =
    let r = execute one_legged chance false engine in
    execute-halts one_legged chance false engine (tt, tt) (traded_again r one_legged-run.0)
      (inl one_legged-run.1) good chance false

abbrev need : String → String → Decimal → Need
need v a x = record { venue = v; asset = a; amount = x }

-- The paper ledger refuses what the inventory, read earlier, still grants.
abbrev stale : Engine
stale = record engine { ledger = some (record { bal = []; dirty = false }) }

abbrev money : Need
money = need "kraken" "USDC" (dec 100)

abbrev coins : Need
coins = need "coinbase" "BTC" (dec 1)

stale-refused : (reserve_legs "t1" money coins stale).1 ≡ false
unfolding fedr.Executor.Reserving.reserve_legs fedr.Executor.Reserving.reserve_pair fedr.Ledger.get
    fedr.Ledger.balances fedr.Ledger.put fedr.Ledger.acct fedr.Ledger.touched fedr.Ledger.reserve
    fedr.Ledger.release fedr.Inventory.find fedr.Inventory.reserved_for fedr.Inventory.available
    fedr.Inventory.can_reserve fedr.Inventory.reserve fedr.Decimal.round_div fedr.Decimal.mul
    fedr.Dict.lookup fedr.Dict.insert fedr.Dict.sum_by fedr.Int.◌+ℤ◌ fedr.Int.◌-ℤ◌ fedr.Decimal.unit
stale-refused = refl

zero_used : pos 0 ≤ℤ (get (record { bal = []; dirty = false }) "kraken" "USDC").used
unfolding get lookup
zero_used = omega arith

empty-used : (k : PaperLedger) → stale.ledger ≡ some k → pos 0 ≤ℤ (get k "kraken" "USDC").used
empty-used k q = subst (λ l. pos 0 ≤ℤ (get (or_else l funds) "kraken" "USDC").used) q zero_used

reserve_legs-refused_example :
    let e' = (reserve_legs "t1" money coins stale).0 in
    SameFunds stale.ledger e'.ledger
    × ((e' ≡ stale) ⊎ (lookup "t1" e'.inventory.reservations ≡ some (money ∷ coins ∷ [])))
reserve_legs-refused_example = reserve_legs-refused "t1" money coins stale empty-used stale-refused

abbrev bought : OrderResult
bought =
    fill_of
      (record {
        venue = "kraken";
        symbol = "BTC/USDC";
        side = OrderSide.buy;
        amount = dec 1;
        limit_price = none;
        min_received = none;
        reduce_only = false;
        quoted_price = none;
      })
      (dec 99)

abbrev unsold : OrderResult
unsold = blank_result bought.request OrderStatus.failed none

-- The ledger after the buying leg has spent its 99.
abbrev after_buying : PaperLedger
after_buying = record {
  bal =
      ("kraken", ("USDC", record { free = cents 39990; used = cents 110 }) ∷ [])
      ∷ ("coinbase", ("BTC", record { free = dec 1; used = dec 1 }) ∷ [])
      ∷ [];
  dirty = true;
}

-- What the buying leg reserves for 100, at a tolerance of 0.1 percent and without a fee.
abbrev dear_money : Need
dear_money = need "kraken" "USDC" (cents 10010)

abbrev at_venue : String → Connector
at_venue name = record {
  venue = record { name = name; kind = cex; chain = none };
  trading_enabled = true;
}

abbrev chosen : Plan
chosen = plan engine chance chance "BTC" "USDC" (at_venue "kraken") (at_venue "coinbase")

funds-reserved : (reserve_pair dear_money coins funds).1 ≡ true
unfolding fedr.Executor.Reserving.reserve_legs fedr.Executor.Reserving.reserve_pair fedr.Ledger.get
    fedr.Ledger.balances fedr.Ledger.put fedr.Ledger.acct fedr.Ledger.touched fedr.Ledger.reserve
    fedr.Ledger.release fedr.Inventory.find fedr.Inventory.reserved_for fedr.Inventory.available
    fedr.Inventory.can_reserve fedr.Inventory.reserve fedr.Decimal.round_div fedr.Decimal.mul
    fedr.Dict.lookup fedr.Dict.insert fedr.Dict.sum_by fedr.Int.◌+ℤ◌ fedr.Int.◌-ℤ◌ fedr.Decimal.unit
    fedr.Decimal.cents
funds-reserved = refl

funds-nonneg : (v a : String) → pos 0 ≤ℤ (get funds v a).used
unfolding get lookup
funds-nonneg v a = ground arith

spent-bought : spent bought ≡ dec 99
unfolding fedr.Orders.quote_amount fedr.Decimal.mul fedr.Decimal.round_div fedr.Decimal.unit
    fedr.Int.◌+ℤ◌
spent-bought = refl

bought-Spends :
    Spends false dear_money coins bought unsold (reserve_pair dear_money coins funds).0 after_buying
unfolding get lookup fedr.Int.◌+ℤ◌ fedr.Int.◌-ℤ◌ fedr.Decimal.unit fedr.Decimal.cents
bought-Spends v a =
    rw (reserve_pair-used dear_money coins funds funds-reserved v a, spent-bought)
      (elim (Bool-cases ("kraken" == v)) [
        | inl k ↦ elim (Bool-cases ("USDC" == a)) [
          | inl u ↦ rw (sym ((eq_iff "kraken" v).0 k), sym ((eq_iff "USDC" a).0 u)) refl
          | inr u ↦ rw (sym ((eq_iff "kraken" v).0 k), u) refl
        ]
        | inr k ↦ elim (Bool-cases ("coinbase" == v)) [
          | inr m ↦ rw (k, m) refl
          | inl m ↦ elim (Bool-cases ("BTC" == a)) [
            | inl u ↦ rw (sym ((eq_iff "coinbase" v).0 m), sym ((eq_iff "BTC" a).0 u)) refl
            | inr u ↦ rw (sym ((eq_iff "coinbase" v).0 m), u) refl
          ]
        ]
      ])

-- The buying leg spends 99 and the sale is lost.
release_pair-reserve_pair_example :
    (get
      (release_pair chosen.buy_need chosen.sell_need chosen.sell_reserved
        (dec 1)
        bought
        unsold
        after_buying)
      "kraken"
      "USDC").used
    ≡ (get funds "kraken" "USDC").used
unfolding plan fedr.Paper.ledger_venue fedr.Decimal.mul fedr.Decimal.div fedr.Decimal.round_div
    fedr.Decimal.unit fedr.Decimal.cents fedr.Int.◌+ℤ◌
release_pair-reserve_pair_example =
    release_pair-reserve_pair engine chance chance "BTC" "USDC" (at_venue "kraken")
      (at_venue "coinbase") bought unsold funds after_buying funds-nonneg funds-reserved
      bought-Spends (rw spent-bought (omega arith)) (omega arith) (λ k. refl) "kraken" "USDC"
