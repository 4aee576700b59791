-- ===== src/Executor/Halts.antt =====
-- What stops trading after an execution of engine/execution/executor.py.
use fedr.Base.{◌≡◌, refl, ◌⊎◌, inl, inr, String, Bool, true, false, Option, none, some, arith}
use mathlib.Core.Path.{subst}
use fedr.Int.{◌-ℤ◌, ◌≤ℤ◌}
use fedr.Decimal.{zero_dec}
use fedr.Breakers.{one_leg_fill, repeated_order_failure, is_tripped}
use fedr.Breakers.Active.{IsConsistent, trip-IsConsistent, trip-is_tripped}
use fedr.Orders.{TradeRecord, TradeStatus}
use fedr.Executor.{Engine, Opportunity, Outside, Abort, Ended, traded, aborted}
use fedr.Executor.Preconditions.{precondition, new_trade}
use fedr.Executor.Settling.{as_result}
use fedr.Executor.Rule.{execute-rule}
use fedr.Executor.Faults.{handled}
use fedr.Executor.Protected.{protected-rule, reporting}
use fedr.Executor.Finish.{reserve_legs-kept}
use fedr.Executor.Reserving.{reserve_legs}
use fedr.Executor.Run.{
  close_legs, legs_done, trade_legs, protected_legs, Plan, execute, after_reserving, finish, begin,
  abort,
}
use fedr.Executor.Tripping.{close_legs-halts, legs_done-Grows, trade_legs-halts}

-- The handler of exceptions stops trading.
pub handled-tripped :
    (o : Outside) (tr : TradeRecord) (e : Engine)
    → IsConsistent e.breakers
    → is_tripped (handled o tr e).1.breakers "global" ≡ true
unfolding handled
handled-tripped o tr e h =
    trip-is_tripped repeated_order_failure "execution exception" o.now_ms "global" true e.breakers
      "global" h

-- The keys stay consistent up to each point at which an exception may be raised.
pub faults-IsConsistent :
    (o : Outside) (opp fresh : Opportunity) (quote : String) (p : Plan) (tr : TradeRecord)
    (e : Engine)
    → IsConsistent e.breakers
    → let g = o.submit p.buy_req p.sell_req fresh e.ledger in
      let b = as_result g.buy p.buy_req in
      let s = as_result g.sell p.sell_req in
      let tr1 = record tr { buy = some b; sell = some s } in
      let e1 = legs_done o p tr.size_base b s g.ledger e in
      IsConsistent e1.breakers
      × IsConsistent (reporting o opp.pair (b.filled -ℤ s.filled) tr1 e1).breakers
      × IsConsistent (close_legs o opp.pair b s tr1 e1).1.breakers
      × IsConsistent (trade_legs o opp fresh quote p tr e).1.breakers
faults-IsConsistent o opp fresh quote p tr e h =
    let g = o.submit p.buy_req p.sell_req fresh e.ledger in
    let b = as_result g.buy p.buy_req in
    let s = as_result g.sell p.sell_req in
    let e1 = legs_done o p tr.size_base b s g.ledger e in
    let c = (legs_done-Grows o p tr.size_base b s g.ledger e h).consistent in
    (
      c,
      trip-IsConsistent one_leg_fill "the emergency hedge could not neutralise" o.now_ms "global"
          true e1.breakers c,
      (close_legs-halts o opp.pair b s (record tr { buy = some b; sell = some s }) e1 c).0,
      (trade_legs-halts o opp fresh quote p tr e h).0,
    )

abbrev StopsTrade : TradeRecord × Engine → Type 0
StopsTrade (tr, e) =
    (tr.status ≡ TradeStatus.recovering → is_tripped e.breakers "global" ≡ true)
    × (e.daily_pnl_usd ≤ℤ zero_dec -ℤ e.settings.risk.max_daily_loss_usd
        → is_tripped e.breakers "global" ≡ true)

handled-StopsTrade :
    (o : Outside) (tr : TradeRecord) (e : Engine)
    → IsConsistent e.breakers
    → StopsTrade (handled o tr e)
unfolding handled
handled-StopsTrade o tr e h = let t = handled-tripped o tr e h in (λ k. t, λ k. t)

protected_legs-halts :
    (o : Outside) (opp fresh : Opportunity) (quote : String) (p : Plan) (tr : TradeRecord)
    (e : Engine)
    → IsConsistent e.breakers
    → StopsTrade (protected_legs o opp fresh quote p tr e)
protected_legs-halts o opp fresh quote p tr e h =
    let (n, k, c, t) = faults-IsConsistent o opp fresh quote p tr e h in
    let stops : (tr' : TradeRecord) (e' : Engine)
        → IsConsistent e'.breakers
        → StopsTrade (handled o tr' e') =
      λ tr' e' i. handled-StopsTrade o tr' e' i in
    protected-rule o StopsTrade opp fresh quote p tr e (λ f. stops _ _ n) (λ f. stops _ _ n)
      (λ f. stops _ _ k) (λ f. stops _ _ c) (λ f. stops _ _ t)
      (let (_, k, l) = trade_legs-halts o opp fresh quote p tr e h in (k, l))

-- An exposure that is left open, or the daily loss at its limit.
abbrev pub MustStop : Engine → TradeRecord → Type 0
MustStop e tr =
    (tr.status ≡ TradeStatus.recovering)
    ⊎ (e.daily_pnl_usd ≤ℤ zero_dec -ℤ e.settings.risk.max_daily_loss_usd)

abbrev StopsAt : Engine × Ended → Type 0
StopsAt (e, traded tr) = MustStop e tr → is_tripped e.breakers "global" ≡ true
StopsAt (e, aborted r tr) = Unit
StopsAt (e, Ended.raised) = Unit

after_reserving-StopsAt :
    (o : Outside) (opp fresh : Opportunity) (quote : String) (p : Plan) (tr : TradeRecord)
    (r : Engine × Bool)
    → IsConsistent r.0.breakers
    → StopsAt (after_reserving o opp fresh quote p tr r)
unfolding abort finish begin
after_reserving-StopsAt o opp fresh quote p tr (e, false) h = tt
after_reserving-StopsAt o opp fresh quote p tr (e, true) h =
    let (stops, loss) =
      protected_legs-halts o opp fresh quote p (record tr { status = TradeStatus.executing })
        (begin tr e) h in
    λ m. elim m [ inl x ↦ stops x | inr x ↦ loss x ]

execute-StopsAt :
    (o : Outside) (opp : Opportunity) (allow_carry : Bool) (e : Engine)
    → IsConsistent e.breakers
    → StopsAt (execute o opp allow_carry e)
unfolding abort
execute-StopsAt o opp allow_carry e h =
    execute-rule o opp e StopsAt (λ r tr u. tt) tt
      (λ fresh quote p tr u.
        after_reserving-StopsAt o opp fresh quote p tr (reserve_legs tr.id p.buy_need p.sell_need e)
          (rw (reserve_legs-kept tr.id p.buy_need p.sell_need e).2 h))
      allow_carry

-- Nothing is submitted while a global breaker is active.
tripped-precondition :
    (o : Outside) (opp : Opportunity) (allow_carry : Bool) (e : Engine)
    → is_tripped e.breakers "global" ≡ true
    → (r : Abort) × (precondition o opp allow_carry e ≡ some r)
unfolding precondition
tripped-precondition o opp allow_carry e h = first_refusal (precondition o opp allow_carry e) refl
  where
    first_refusal :
        (a : Option Abort)
        → precondition o opp allow_carry e ≡ a
        → (r : Abort) × (precondition o opp allow_carry e ≡ some r)
    first_refusal (some r) q = (r, q)
    first_refusal none q = ground arith

-- If the keys of the breakers are consistent, then after a trade that leaves an exposure open, or
-- with the daily loss at its limit, an execution in the state that is left, of whatever
-- opportunity, is aborted: it reserves and submits nothing.
pub execute-halts :
    (o : Outside) (opp : Opportunity) (allow_carry : Bool) (e : Engine) {e' : Engine}
    {tr : TradeRecord}
    → IsConsistent e.breakers
    → execute o opp allow_carry e ≡ (e', traded tr)
    → MustStop e' tr
    → (next : Outside) (again : Opportunity) (carry : Bool)
    → (r : Abort) × (execute next again carry e' ≡ abort r (new_trade next.new_id again e') e')
unfolding execute
execute-halts o opp allow_carry e {e'} {tr} h q m next again carry =
    let t = subst StopsAt q (execute-StopsAt o opp allow_carry e h) m in
    let (r, p) = tripped-precondition next again carry e' t in (r, rw p refl)
