-- ===== src/Breakers.antt =====
-- engine/circuit_breakers.py. The clocks are arguments: `now` is `now_ms()` in `trip`, and
-- `time.monotonic()`, in whole ticks, in the counters. `on_change`, which is handed the active
-- breakers after each trip and reset, has no effect on the manager.
pub mod Key
pub mod Active
pub mod Counters
mod Tests
use fedr.Base.{
  ℕ, zero, suc, ◌+◌, ◌-◌, String, Bool, true, false, not, ◌&&◌, ◌||◌, Option, none, some, List, [],
  ◌∷◌, ◌++◌, ◌==◌, if◌then◌else◌, or_else, length, ltb, leb, is_empty,
}
use mathlib.Core.Option
use fedr.Dict.{Dict, lookup, insert}
use Prim.Native.String.{◌++◌ as append}

-- core/enums.py
pub data CircuitBreakerReason : Type 0 where
  unexpected_fees abnormal_slippage repeated_order_failure dex_tx_failure rpc_failure
        websocket_failure market_data_failure flash_loan_failure balance_discrepancy
        position_discrepancy prediction_error rapid_market_move gas_spike funding_anomaly
        exchange_maintenance rate_limit one_leg_fill daily_loss_limit manual :
      CircuitBreakerReason

-- the enum's `value`
unfoldable pub value : CircuitBreakerReason → String
value unexpected_fees = "unexpected_fees"
value abnormal_slippage = "abnormal_slippage"
value repeated_order_failure = "repeated_order_failure"
value dex_tx_failure = "dex_tx_failure"
value rpc_failure = "rpc_failure"
value websocket_failure = "websocket_failure"
value market_data_failure = "market_data_failure"
value flash_loan_failure = "flash_loan_failure"
value balance_discrepancy = "balance_discrepancy"
value position_discrepancy = "position_discrepancy"
value prediction_error = "prediction_error"
value rapid_market_move = "rapid_market_move"
value gas_spike = "gas_spike"
value funding_anomaly = "funding_anomaly"
value exchange_maintenance = "exchange_maintenance"
value rate_limit = "rate_limit"
value one_leg_fill = "one_leg_fill"
value daily_loss_limit = "daily_loss_limit"
value manual = "manual"

-- `is` on the enum
abbrev pub same_reason : CircuitBreakerReason → CircuitBreakerReason → Bool
same_reason r s = value r == value s

pub record Breaker : Type 0 where
  pub reason : CircuitBreakerReason
  pub detail : String
  pub tripped_at_ms : ℕ
  pub scope : String
  pub auto : Bool

-- A breaker as the history shows it. The detail is that of the breaker itself, which is one object
-- with the entry, so it is not kept a second time.
pub record Entry : Type 0 where
  pub reason : CircuitBreakerReason
  pub tripped_at_ms : ℕ
  pub scope : String
  pub auto : Bool

pub record CircuitBreakerManager : Type 0 where
  pub active : Dict Breaker
  pub counters : Dict (List ℕ)
  pub history : List Entry

unfoldable pub initial : CircuitBreakerManager
initial = record { active = []; counters = []; history = [] }

-- `f"{scope}|{reason.value}"`
unfoldable pub key : String → CircuitBreakerReason → String
key scope reason = append scope (append "|" (value reason))

-- `any(b.scope == scope for b in self._active.values())`
unfoldable pub has_scope : String → Dict Breaker → Bool
has_scope scope [] = false
has_scope scope ((_, b) ∷ d) = b.scope == scope || has_scope scope d

unfoldable pub is_tripped : CircuitBreakerManager → String → Bool
is_tripped m scope = has_scope "global" m.active || has_scope scope m.active

-- Which test of `blocks` a breaker meets; the messages are built from it and from the breaker.
pub data Block : Type 0 where
  on_global on_venue on_chain on_strategy on_symbol : Breaker → Block

-- `venue and b.scope == f"venue:{venue}"`: neither None nor the empty text
unfoldable pub names : String → Option String → String → Bool
names kind none scope = false
names kind (some name) scope = not (name == "") && scope == append kind name

unfoldable pub blocks :
    Option String → Option String → Option String → Option String → Dict Breaker → List Block
blocks venue chain strategy symbol [] = []
blocks venue chain strategy symbol ((_, b) ∷ d) =
    let rest = blocks venue chain strategy symbol d in
    if b.scope == "global"
    then on_global b ∷ rest
    else if names "venue:" venue b.scope
    then on_venue b ∷ rest
    else if names "chain:" chain b.scope
    then on_chain b ∷ rest
    else if names "strategy:" strategy b.scope
    then on_strategy b ∷ rest
    else if names "symbol:" symbol b.scope
    then on_symbol b ∷ rest
    else rest

-- `deque(maxlen=200)`: at the limit the oldest entry goes
abbrev drop_oldest : List Entry → List Entry
drop_oldest [] = []
drop_oldest (_ ∷ h) = h

unfoldable pub append_bounded : Entry → List Entry → List Entry
append_bounded e h = let h' = h ++ e ∷ [] in if ltb 200 (length h') then drop_oldest h' else h'

abbrev entry : Breaker → Entry
entry b = record {
  reason = b.reason;
  tripped_at_ms = b.tripped_at_ms;
  scope = b.scope;
  auto = b.auto;
}

-- A breaker that is already active keeps its time, and only its detail is replaced.
abbrev enter :
    Option Breaker
    → String
    → CircuitBreakerReason
    → String
    → ℕ
    → String
    → Bool
    → CircuitBreakerManager
    → CircuitBreakerManager × Breaker
enter none k reason detail now scope auto m =
    let b : Breaker = record {
      reason = reason;
      detail = detail;
      tripped_at_ms = now;
      scope = scope;
      auto = auto;
    } in
    (record m { active = insert k b m.active; history = append_bounded (entry b) m.history }, b)
enter (some old) k reason detail now scope auto m =
    let b = record old { detail = detail } in (record m { active = insert k b m.active }, b)

unfoldable pub trip :
    CircuitBreakerReason
    → String
    → ℕ
    → String
    → Bool
    → CircuitBreakerManager
    → CircuitBreakerManager × Breaker
trip reason detail now scope auto m =
    let k = key scope reason in enter (lookup k m.active) k reason detail now scope auto m

-- The test of `reset`; None matches every breaker.
unfoldable pub selects : Option CircuitBreakerReason → Option String → Breaker → Bool
selects reason scope b =
    or_else (Option.map (λ r. same_reason b.reason r) reason) true
    && or_else (Option.map (λ s. b.scope == s) scope) true

unfoldable pub drop_selected :
    Option CircuitBreakerReason → Option String → Dict Breaker → Dict Breaker
drop_selected reason scope [] = []
drop_selected reason scope ((k, b) ∷ d) =
    let rest = drop_selected reason scope d in
    if selects reason scope b then rest else (k, b) ∷ rest

-- The new manager and the number of breakers that were reset.
unfoldable pub reset :
    Option CircuitBreakerReason → Option String → CircuitBreakerManager → CircuitBreakerManager × ℕ
reset reason scope m =
    let left = drop_selected reason scope m.active in
    (record m { active = left }, length m.active - length left)

unfoldable pub restore : List Breaker → CircuitBreakerManager → CircuitBreakerManager
restore [] m = m
restore (b ∷ bs) m = restore bs (record m { active = insert (key b.scope b.reason) b m.active })

-- `while dq and now - dq[0] > window_s: dq.popleft()`
unfoldable pub expire : ℕ → ℕ → List ℕ → List ℕ
expire now window [] = []
expire now window (t ∷ ts) =
    let rest = expire now window ts in if ltb window (now - t) then rest else t ∷ ts

-- `_counters[counter]` of a `defaultdict(deque)`
abbrev pub times : String → CircuitBreakerManager → List ℕ
times counter m = or_else (lookup counter m.counters) []

unfoldable pub record_event : String → ℕ → ℕ → CircuitBreakerManager → CircuitBreakerManager × ℕ
record_event counter window now m =
    let ts = expire now window (times counter m ++ now ∷ []) in
    (record m { counters = insert counter ts m.counters }, length ts)

unfoldable pub count : String → ℕ → ℕ → CircuitBreakerManager → CircuitBreakerManager × ℕ
count counter window now m =
    let ts = expire now window (times counter m) in
    (record m { counters = insert counter ts m.counters }, length ts)

-- The message has the number of events; `with_count` writes it behind the detail.
unfoldable pub record_and_check :
    (String → ℕ → String)
    → String
    → ℕ
    → CircuitBreakerReason
    → String
    → String
    → ℕ
    → ℕ
    → ℕ
    → CircuitBreakerManager
    → CircuitBreakerManager × Bool
record_and_check with_count counter threshold reason detail scope window now now_ms m =
    let (m', n) = record_event counter window now m in
    if leb threshold n
    then ((trip reason (with_count detail n) now_ms scope true m').0, true)
    else (m', false)
