-- ===== src/Executor/Tripping.antt =====
-- The breakers that the parts of an execution of engine/execution/executor.py trip.
use fedr.Base.{
  ℕ, ◌≡◌, inl, inr, String, Bool, true, false, not, ◌&&◌, Option, none, some, arith, Bool-cases,
  leb, or_else,
}
use Prim.Native.String.{◌++◌ as append}
use fedr.Int.{◌-ℤ◌, ◌≤ℤ◌, ltb_ℤ, eqb_ℤ}
use fedr.Decimal.{Decimal, zero_dec}
use fedr.Breakers.{
  CircuitBreakerManager, dex_tx_failure, one_leg_fill, CircuitBreakerReason, is_tripped, trip,
  record_event, record_and_check,
}
use fedr.Breakers.Active.{IsConsistent, trip-IsConsistent, trip-is_tripped}
use fedr.Ledger.{PaperLedger}
use fedr.Models.{Chain, chain_value}
use fedr.Orders.{OrderResult, TradeRecord, TradeStatus}
use fedr.Paper.Leg.{is_dex}
use fedr.Accounting.{TradeOutcome, apply_outcome}
use fedr.Executor.{Engine, Opportunity, Outside}
use fedr.Executor.Settling.{
  trip_if, count_failure, note_dex_failures, note_leg, is_refused, chain_failed, recover,
  is_neutral, check_variances, check_daily_loss, post_trade, is_executed, as_result,
}
use fedr.Executor.Run.{close_legs, legs_done, trade_legs, Plan}

-- The accounting never makes a trade one that is recovering.
recovering-kept :
    (tr : TradeRecord) (out : TradeOutcome)
    → (apply_outcome tr out).status ≡ TradeStatus.recovering
    → tr.status ≡ TradeStatus.recovering
unfolding apply_outcome
recovering-kept tr out h = ground arith

-- Nothing that was tripped is untripped, and the keys stay consistent.
pub record Grows (m m' : CircuitBreakerManager) : Type 0 where
  pub consistent : IsConsistent m'
  pub tripped : is_tripped m "global" ≡ true → is_tripped m' "global" ≡ true

Grows-refl : (m : CircuitBreakerManager) → IsConsistent m → Grows m m
Grows-refl m h = record { consistent = h; tripped = λ t. t }

Grows-trans : (a b c : CircuitBreakerManager) → Grows a b → Grows b c → Grows a c
Grows-trans a b c h k = record { consistent = k.consistent; tripped = λ t. k.tripped (h.tripped t) }

trip-Grows :
    (r : CircuitBreakerReason) (d : String) (now : ℕ) (scope : String) (auto : Bool)
    (m : CircuitBreakerManager)
    → IsConsistent m
    → Grows m (trip r d now scope auto m).0
trip-Grows r d now scope auto m h = record {
  consistent = trip-IsConsistent r d now scope auto m h;
  tripped = λ t. let e = trip-is_tripped r d now scope auto m "global" h in ground arith;
}

trip_if-Grows :
    (b : Bool) (r : CircuitBreakerReason) (d : String) (now : ℕ) (m : CircuitBreakerManager)
    → IsConsistent m
    → Grows m (trip_if b r d now m)
unfolding trip_if
trip_if-Grows true r d now m h = trip-Grows r d now "global" true m h
trip_if-Grows false r d now m h = Grows-refl m h

-- A global trip whose condition holds stops trading.
trip_if-trips :
    (b : Bool) (r : CircuitBreakerReason) (d : String) (now : ℕ) (m : CircuitBreakerManager)
    → IsConsistent m
    → b ≡ true
    → is_tripped (trip_if b r d now m) "global" ≡ true
unfolding trip_if
trip_if-trips true r d now m h k = trip-is_tripped r d now "global" true m "global" h
trip_if-trips false r d now m h k = ground arith

record_event-Grows :
    (c : String) (window now : ℕ) (m : CircuitBreakerManager)
    → IsConsistent m
    → Grows m (record_event c window now m).0
unfolding record_event is_tripped
record_event-Grows c window now m h = record { consistent = h; tripped = λ t. t }

record_and_check-Grows :
    (w : String → ℕ → String) (c : String) (k : ℕ) (r : CircuitBreakerReason) (d : String)
    (window now now_ms : ℕ) (m : CircuitBreakerManager)
    → IsConsistent m
    → Grows m (record_and_check w c k r d "global" window now now_ms m).0
unfolding record_and_check
record_and_check-Grows w c k r d window now now_ms m h =
    let (m', n) = record_event c window now m in
    let g = record_event-Grows c window now m h in
    elim (Bool-cases (leb k n)) [
      | inl x ↦
          rw x (Grows-trans m m' _ g (trip-Grows r (w d n) now_ms "global" true m' g.consistent))
      | inr x ↦ rw x g
    ]

chain_failed-Grows :
    (o : Outside) (chain : String) (m : CircuitBreakerManager)
    → IsConsistent m
    → Grows m (chain_failed o chain m)
unfolding chain_failed
chain_failed-Grows o chain m h =
    let counter = append "dex_fail:" chain in
    let (m', n) = record_event counter 600 o.now_s m in
    let g = record_event-Grows counter 600 o.now_s m h in
    elim (Bool-cases (leb 2 n)) [
      | inl x ↦ rw x (
          Grows-trans m m' _ g (
            trip-Grows dex_tx_failure "DEX transaction failures" o.now_ms (append "chain:" chain)
              true m' g.consistent))
      | inr x ↦ rw x g
    ]

note_leg-Grows :
    (o : Outside) (r : OrderResult) (on_dex : Bool) (c : Option Chain) (m : CircuitBreakerManager)
    → IsConsistent m
    → Grows m (note_leg o r on_dex c m)
note_leg-Grows o r on_dex none m h = Grows-refl m h
note_leg-Grows o r on_dex (some c) m h =
    elim (Bool-cases (on_dex && is_refused r.status && eqb_ℤ r.filled zero_dec)) [
      | inl x ↦ rw x (chain_failed-Grows o (chain_value c) m h)
      | inr x ↦ rw x (Grows-refl m h)
    ]

pub legs_done-Grows :
    (o : Outside) (p : Plan) (size : Decimal) (b s : OrderResult) (l : Option PaperLedger)
    (e : Engine)
    → IsConsistent e.breakers
    → Grows e.breakers (legs_done o p size b s l e).breakers
unfolding legs_done note_dex_failures
legs_done-Grows o p size b s l e h =
    let m = note_leg o b (is_dex p.buy_venue.kind) p.buy_venue.chain e.breakers in
    let g = note_leg-Grows o b (is_dex p.buy_venue.kind) p.buy_venue.chain e.breakers h in
    Grows-trans e.breakers m _ g
      (note_leg-Grows o s (is_dex p.sell_venue.kind) p.sell_venue.chain m g.consistent)

count_failure-Grows :
    (o : Outside) (d : String) (e : Engine)
    → IsConsistent e.breakers
    → Grows e.breakers (count_failure o d e).breakers
unfolding count_failure
count_failure-Grows o d e h = record_and_check-Grows _ _ _ _ d 3600 o.now_s o.now_ms e.breakers h

-- Recovery that does not neutralise the exposure stops trading.
recover-halts :
    (o : Outside) (pair : String) (x : Decimal) (tr : TradeRecord) (e : Engine)
    → IsConsistent e.breakers
    → let (tr', e') = recover o pair x tr e in
      IsConsistent e'.breakers
      × (tr'.status ≡ TradeStatus.recovering → is_tripped e'.breakers "global" ≡ true)
unfolding recover count_failure
recover-halts o pair x tr e h =
    let hedge = (o.hedge (record tr { status = TradeStatus.recovering }) pair x e.ledger).1 in
    let b = not (is_neutral hedge x) in
    let d : String = "the emergency hedge could not neutralise" in
    let g = trip_if-Grows b one_leg_fill d o.now_ms e.breakers h in
    let t = trip_if-trips b one_leg_fill d o.now_ms e.breakers h in
    let e1 = record e { breakers = trip_if b one_leg_fill d o.now_ms e.breakers } in
    let c = count_failure-Grows o "repeated leg failures" e1 g.consistent in
    (c.consistent, λ k. c.tripped (t (ground arith)))

pub close_legs-halts :
    (o : Outside) (pair : String) (b s : OrderResult) (tr : TradeRecord) (e : Engine)
    → IsConsistent e.breakers
    → let (tr', e') = close_legs o pair b s tr e in
      IsConsistent e'.breakers
      × (tr'.status ≡ TradeStatus.recovering → is_tripped e'.breakers "global" ≡ true)
unfolding close_legs
close_legs-halts o pair b s tr e h = elim (Bool-cases (eqb_ℤ (b.filled -ℤ s.filled) zero_dec)) [
  | inr x ↦ rw x (recover-halts o pair (b.filled -ℤ s.filled) tr e h)
  | inl x ↦ elim (Bool-cases (eqb_ℤ b.filled zero_dec && eqb_ℤ s.filled zero_dec)) [
    | inl z ↦
        let c = count_failure-Grows o "repeated order failures" e h in
        rw (x, z) (c.consistent, λ k. ground arith)
    | inr z ↦ rw (x, z) (h, λ k. ground arith)
  ]
]

three_trips-Grows :
    (b c d : Bool) (r1 r2 r3 : CircuitBreakerReason) (d1 d2 d3 : String) (now : ℕ)
    (m : CircuitBreakerManager)
    → IsConsistent m
    → Grows m (trip_if d r3 d3 now (trip_if c r2 d2 now (trip_if b r1 d1 now m)))
three_trips-Grows b c d r1 r2 r3 d1 d2 d3 now m h =
    let m1 = trip_if b r1 d1 now m in
    let m2 = trip_if c r2 d2 now m1 in
    let g1 = trip_if-Grows b r1 d1 now m h in
    let g2 = trip_if-Grows c r2 d2 now m1 g1.consistent in
    Grows-trans m m1 _ g1 (Grows-trans m1 m2 _ g2 (trip_if-Grows d r3 d3 now m2 g2.consistent))

check_variances-Grows :
    (o : Outside) (out : TradeOutcome) (x : Bool) (n : Decimal) (e : Engine)
    → IsConsistent e.breakers
    → Grows e.breakers (check_variances o out x n e).breakers
unfolding check_variances
check_variances-Grows o out x n e h = three_trips-Grows _ _ _ _ _ _ _ _ _ o.now_ms e.breakers h

check_daily_loss-halts :
    (o : Outside) (net : Decimal) (e : Engine)
    → IsConsistent e.breakers
    → let e' = check_daily_loss o net e in
      Grows e.breakers e'.breakers
      × (e'.daily_pnl_usd ≤ℤ zero_dec -ℤ e'.settings.risk.max_daily_loss_usd
          → is_tripped e'.breakers "global" ≡ true)
unfolding check_daily_loss
check_daily_loss-halts o net e h = (
  trip_if-Grows _ _ _ o.now_ms e.breakers h,
  λ k. trip_if-trips _ _ _ o.now_ms e.breakers h (ground arith),
)

-- The accounting trips at the daily loss, and untrips nothing.
post_trade-halts :
    (o : Outside) (tr : TradeRecord) (out : TradeOutcome) (fresh : Opportunity) (e : Engine)
    → IsConsistent e.breakers
    → let e' = post_trade o tr out fresh e in
      IsConsistent e'.breakers
      × (is_tripped e.breakers "global" ≡ true → is_tripped e'.breakers "global" ≡ true)
      × (e'.daily_pnl_usd ≤ℤ zero_dec -ℤ e'.settings.risk.max_daily_loss_usd
          → is_tripped e'.breakers "global" ≡ true)
unfolding post_trade check_variances
post_trade-halts o tr out fresh e h =
    let e1 = check_daily_loss o out.actual_net e in
    let (g, loss) = check_daily_loss-halts o out.actual_net e h in
    let v =
      check_variances-Grows o out (is_executed tr.status && ltb_ℤ zero_dec out.matched_base)
        (or_else fresh.notional_usd zero_dec) e1 g.consistent in
    (v.consistent, λ t. v.tripped (g.tripped t), λ k. v.tripped (loss k))

pub trade_legs-halts :
    (o : Outside) (opp fresh : Opportunity) (quote : String) (p : Plan) (tr : TradeRecord)
    (e : Engine)
    → IsConsistent e.breakers
    → let (tr', e') = trade_legs o opp fresh quote p tr e in
      IsConsistent e'.breakers
      × (tr'.status ≡ TradeStatus.recovering → is_tripped e'.breakers "global" ≡ true)
      × (e'.daily_pnl_usd ≤ℤ zero_dec -ℤ e'.settings.risk.max_daily_loss_usd
          → is_tripped e'.breakers "global" ≡ true)
unfolding trade_legs
trade_legs-halts o opp fresh quote p tr e h =
    let g = o.submit p.buy_req p.sell_req fresh e.ledger in
    let b = as_result g.buy p.buy_req in
    let s = as_result g.sell p.sell_req in
    let tr1 = record tr { buy = some b; sell = some s } in
    let e1 = legs_done o p tr.size_base b s g.ledger e in
    let c = (legs_done-Grows o p tr.size_base b s g.ledger e h).consistent in
    let (k, stops) = close_legs-halts o opp.pair b s tr1 e1 c in
    let r = close_legs o opp.pair b s tr1 e1 in
    let (ok, keeps, loss) = post_trade-halts o _ _ fresh r.1 k in
    (ok, λ st. keeps (stops (recovering-kept r.0 _ st)), loss)
