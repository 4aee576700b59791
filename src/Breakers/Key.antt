-- ===== src/Breakers/Key.antt =====
-- The keys of engine/circuit_breakers.py: the scope, a bar and the reason's value, which has no bar.
use fedr.Base.{
  String, ◌≡◌, refl, sym, ap, ◌∙◌, Bool, true, false, ◌||◌, eqb, if◌then◌else◌, arith, ◌==◌,
}
use Prim.Native.Char.{code}
use Prim.Native.String.{◌++◌ as append}
use text.Mathlib.TextLemmas.{append_cancel_right, cons-append, nil-append}
use fedr.Breakers.{
  CircuitBreakerReason, value, key, unexpected_fees, abnormal_slippage, repeated_order_failure,
  dex_tx_failure, rpc_failure, websocket_failure, market_data_failure, flash_loan_failure,
  balance_discrepancy, position_discrepancy, prediction_error, rapid_market_move, gas_spike,
  funding_anomaly, exchange_maintenance, rate_limit, one_leg_fill, daily_loss_limit, manual,
}

abbrev has_bar : String → Bool
has_bar String.[] = false
has_bar (String.◌∷◌ c s) = eqb (code c) b'|' || has_bar s

-- The text after the last bar.
abbrev after_bar : String → String
after_bar String.[] = ""
after_bar (String.◌∷◌ c s) =
    let rest = after_bar s in if has_bar s then rest else if eqb (code c) b'|' then s else s

has_bar-append : (s t : String) → has_bar t ≡ true → has_bar (append s t) ≡ true
has_bar-append String.[] t h = rw (nil-append t) h
has_bar-append (String.◌∷◌ c s) t h = rw (cons-append c s t) (ground (arith, has_bar-append s t h))

after_bar-append : (s t : String) → has_bar t ≡ true → after_bar (append s t) ≡ after_bar t
after_bar-append String.[] t h = rw (nil-append t)
after_bar-append (String.◌∷◌ c s) t h =
    rw (cons-append c s t) (ground (arith, has_bar-append s t h, after_bar-append s t h))

after_bar-barred : (r : CircuitBreakerReason) → after_bar (append "|" (value r)) ≡ value r
unfolding value
after_bar-barred unexpected_fees = refl
after_bar-barred abnormal_slippage = refl
after_bar-barred repeated_order_failure = refl
after_bar-barred dex_tx_failure = refl
after_bar-barred rpc_failure = refl
after_bar-barred websocket_failure = refl
after_bar-barred market_data_failure = refl
after_bar-barred flash_loan_failure = refl
after_bar-barred balance_discrepancy = refl
after_bar-barred position_discrepancy = refl
after_bar-barred prediction_error = refl
after_bar-barred rapid_market_move = refl
after_bar-barred gas_spike = refl
after_bar-barred funding_anomaly = refl
after_bar-barred exchange_maintenance = refl
after_bar-barred rate_limit = refl
after_bar-barred one_leg_fill = refl
after_bar-barred daily_loss_limit = refl
after_bar-barred manual = refl

has_bar-barred : (r : CircuitBreakerReason) → has_bar (append "|" (value r)) ≡ true
unfolding value
has_bar-barred unexpected_fees = refl
has_bar-barred abnormal_slippage = refl
has_bar-barred repeated_order_failure = refl
has_bar-barred dex_tx_failure = refl
has_bar-barred rpc_failure = refl
has_bar-barred websocket_failure = refl
has_bar-barred market_data_failure = refl
has_bar-barred flash_loan_failure = refl
has_bar-barred balance_discrepancy = refl
has_bar-barred position_discrepancy = refl
has_bar-barred prediction_error = refl
has_bar-barred rapid_market_move = refl
has_bar-barred gas_spike = refl
has_bar-barred funding_anomaly = refl
has_bar-barred exchange_maintenance = refl
has_bar-barred rate_limit = refl
has_bar-barred one_leg_fill = refl
has_bar-barred daily_loss_limit = refl
has_bar-barred manual = refl

-- The reason of a value.
of_value : String → CircuitBreakerReason
of_value s =
    if s == "unexpected_fees"
    then unexpected_fees
    else if s == "abnormal_slippage"
    then abnormal_slippage
    else if s == "repeated_order_failure"
    then repeated_order_failure
    else if s == "dex_tx_failure"
    then dex_tx_failure
    else if s == "rpc_failure"
    then rpc_failure
    else if s == "websocket_failure"
    then websocket_failure
    else if s == "market_data_failure"
    then market_data_failure
    else if s == "flash_loan_failure"
    then flash_loan_failure
    else if s == "balance_discrepancy"
    then balance_discrepancy
    else if s == "position_discrepancy"
    then position_discrepancy
    else if s == "prediction_error"
    then prediction_error
    else if s == "rapid_market_move"
    then rapid_market_move
    else if s == "gas_spike"
    then gas_spike
    else if s == "funding_anomaly"
    then funding_anomaly
    else if s == "exchange_maintenance"
    then exchange_maintenance
    else if s == "rate_limit"
    then rate_limit
    else if s == "one_leg_fill"
    then one_leg_fill
    else if s == "daily_loss_limit"
    then daily_loss_limit
    else manual

of_value-value : (r : CircuitBreakerReason) → of_value (value r) ≡ r
unfolding of_value value
of_value-value unexpected_fees = refl
of_value-value abnormal_slippage = refl
of_value-value repeated_order_failure = refl
of_value-value dex_tx_failure = refl
of_value-value rpc_failure = refl
of_value-value websocket_failure = refl
of_value-value market_data_failure = refl
of_value-value flash_loan_failure = refl
of_value-value balance_discrepancy = refl
of_value-value position_discrepancy = refl
of_value-value prediction_error = refl
of_value-value rapid_market_move = refl
of_value-value gas_spike = refl
of_value-value funding_anomaly = refl
of_value-value exchange_maintenance = refl
of_value-value rate_limit = refl
of_value-value one_leg_fill = refl
of_value-value daily_loss_limit = refl
of_value-value manual = refl

pub value-injective : (r r' : CircuitBreakerReason) → value r ≡ value r' → r ≡ r'
value-injective r r' e = sym (of_value-value r) ∙ ap of_value e ∙ of_value-value r'

key-reason : (s s' : String) (r r' : CircuitBreakerReason) → key s r ≡ key s' r' → r ≡ r'
unfolding key
key-reason s s' r r' e = value-injective r r' (
    sym (after_bar-barred r)
    ∙ sym (after_bar-append s (append "|" (value r)) (has_bar-barred r))
    ∙ ap after_bar e
    ∙ after_bar-append s' (append "|" (value r')) (has_bar-barred r')
    ∙ after_bar-barred r')

-- Two breakers share a key only if they share the scope and the reason.
pub key-injective :
    (s s' : String) (r r' : CircuitBreakerReason) → key s r ≡ key s' r' → (s ≡ s') × (r ≡ r')
unfolding key
key-injective s s' r r' e =
    let same = key-reason s s' r r' e in
    (
      append_cancel_right s s' (append "|" (value r))
          (e ∙ ap (λ t. append s' (append "|" (value t))) (sym same)),
      same,
    )
