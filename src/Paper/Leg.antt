-- ===== src/Paper/Leg.antt =====
-- `execute_leg` of engine/execution/paper_executor.py.
use fedr.Base.{String, Bool, true, false, ◌&&◌, Option, none, some, [], ◌∷◌, if◌then◌else◌, or_else}
use fedr.Int.{ltb_ℤ, leb_ℤ, min_ℤ}
use fedr.Decimal.{Decimal, zero_dec, dec, mul, div, pct_of, quantize_8}
use fedr.Ledger
use fedr.Ledger.{PaperLedger, before_colon}
use fedr.Models.{native_token, Chain, ExecutionQuote, VenueKind, dex, cex, perp}
use fedr.Orders.{
  OrderRequest, OrderError, OrderStatus, Venue, blank_result, simulated_rejection, not_fillable,
  split_pair,
}
use fedr.Paper.{Arrival, Filled, LegRun, PaperSettings, ledger_venue}
use fedr.Paper.Filling.{simulate_fill}

abbrev pub is_dex : VenueKind → Bool
is_dex dex = true
is_dex _ = false

-- what a quote's rate costs; on chain the fee is in the price
abbrev pub leg_fee : VenueKind → Option Decimal → Decimal → Decimal
leg_fee kind fee_pct quote_amount =
    if is_dex kind then zero_dec else pct_of quote_amount (or_else fee_pct zero_dec)

-- a draw below the probability cuts a full fill down
unfoldable pub cut_fill : PaperSettings → Arrival → OrderRequest → Decimal → Decimal
cut_fill ps a req base =
    let cut = quantize_8 (mul req.amount ps.fill_ratio_on_partial) in
    min_ℤ
      (if leb_ℤ req.amount base && ltb_ℤ a.partial_draw ps.partial_fill_probability
        then cut
        else base)
      req.amount

abbrev pub pay_gas : Venue → Option Chain → Decimal → PaperLedger → PaperLedger
pay_gas venue none native l = l
pay_gas venue (some chain) native l =
    if is_dex venue.kind && ltb_ℤ zero_dec native
    then Ledger.charge_gas (ledger_venue venue) (native_token chain) native l
    else l

-- None of the ledger's methods that are called here raises, so the branch that catches a
-- ValueError of the ledger is never taken.
unfoldable pub settle :
    Venue
    → String
    → String
    → OrderRequest
    → Decimal
    → Decimal
    → Decimal
    → Decimal
    → PaperLedger
    → PaperLedger
settle venue base quote req fill_base quote_amount fee native l =
    let lv = ledger_venue venue in
    let swapped = Ledger.settle_fill lv base quote req.side fill_base quote_amount fee true l in
    elim venue.kind [
      | perp ↦ Ledger.settle_perp lv quote req.side quote_amount fee req.reduce_only l
      | cex ↦ swapped
      | dex ↦ pay_gas venue venue.chain native swapped
    ]

-- The result of a fill, and the ledger that it leaves.
unfoldable pub filled_leg :
    PaperSettings
    → Venue
    → Arrival
    → String
    → String
    → OrderRequest
    → ExecutionQuote
    → Filled
    → PaperLedger
    → LegRun
filled_leg ps venue a base quote req q f l =
    let fill_base = cut_fill ps a req f.base in
    let quote_amount = mul fill_base f.avg_price in
    let fee = leg_fee venue.kind q.fee_pct quote_amount in
    record {
      ledger = settle venue base quote req fill_base quote_amount fee f.gas_native l;
      result = some (record (blank_result req OrderStatus.new none) {
        fills =
            record {
              amount = fill_base;
              price = f.avg_price;
              fee_amount = fee;
              gas_cost_usd = f.gas_usd;
            }
            ∷ [];
        filled = fill_base;
        avg_price = some f.avg_price;
        fee_quote = fee;
        gas_cost_usd = f.gas_usd;
        status =
            if leb_ℤ req.amount fill_base then OrderStatus.filled else OrderStatus.partially_filled;
      });
      recorded = some true;
    }

abbrev pub failed_leg : OrderRequest → OrderStatus → OrderError → PaperLedger → LegRun
failed_leg req status error l = record {
  ledger = l;
  result = some (blank_result req status (some error));
  recorded = some false;
}

abbrev pub raised_leg : PaperLedger → LegRun
raised_leg l = record { ledger = l; result = none; recorded = none }

-- A fill that comes to nothing is cancelled.
abbrev pub arrived :
    PaperSettings
    → Venue
    → Arrival
    → String
    → String
    → OrderRequest
    → ExecutionQuote
    → Option Filled
    → PaperLedger
    → LegRun
arrived ps venue a base quote req q none l = raised_leg l
arrived ps venue a base quote req q (some f) l =
    if leb_ℤ f.base zero_dec
    then failed_leg req OrderStatus.cancelled not_fillable l
    else filled_leg ps venue a base quote req q f l

abbrev pub execute_pair :
    PaperSettings
    → Venue
    → Arrival
    → Option (String × String)
    → OrderRequest
    → ExecutionQuote
    → PaperLedger
    → LegRun
execute_pair ps venue a none req q l = raised_leg l
execute_pair ps venue a (some (base, quote)) req q l =
    let drift = div ps.quote_drift_pct (dec 100) in
    let f = simulate_fill venue a req q ps.stress_multiplier drift in
    if ltb_ℤ a.failure_draw ps.failure_probability
    then failed_leg req OrderStatus.rejected simulated_rejection l
    else arrived ps venue a base quote req q f l

unfoldable pub execute_leg :
    PaperSettings → Venue → Arrival → OrderRequest → ExecutionQuote → PaperLedger → LegRun
execute_leg ps venue a req q l =
    execute_pair ps venue a (split_pair (before_colon req.symbol)) req q l
