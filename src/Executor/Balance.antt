-- ===== src/Executor/Balance.antt =====
-- How an execution of engine/execution/executor.py ends: the fills, the hedge and the breaker.
use fedr.Base.{
  ◌≡◌, ◌≢◌, refl, ◌⊎◌, inl, inr, String, Bool, true, false, ◌&&◌, none, some, arith, Bool-cases,
}
use fedr.Int.{ℤ, ◌-ℤ◌, eqb_ℤ, int_laws, eqb_ℤ-eq}
use fedr.Decimal.{Decimal, zero_dec, abs}
use fedr.Profit.{CostBreakdown}
use fedr.Orders.{OrderResult, TradeRecord, TradeStatus}
use fedr.Accounting.{compute_outcome, apply_outcome, leg_value}
use fedr.Breakers.{is_tripped}
use fedr.Breakers.Active.{IsConsistent}
use fedr.Executor.{
  Engine, Opportunity, Outside, Ended, traded, aborted, Fault, in_notes, in_hedge, in_report,
  in_count, in_saving,
}
use fedr.Executor.Faults.{handled}
use fedr.Executor.Protected.{protected-rule}
use fedr.Executor.Halts.{handled-tripped, faults-IsConsistent}
use fedr.Executor.Finish.{reserve_legs-kept}
use fedr.Executor.Settling.{recover, is_neutral, as_result}
use fedr.Executor.Rule.{execute-rule}
use fedr.Executor.Reserving.{reserve_legs}
use fedr.Executor.Run.{
  abort, after_reserving, begin, close_legs, execute, legs_done, trade_legs, protected_legs, finish,
  Plan,
}

-- The four ways in which a trade whose legs were submitted can end if nothing is raised.
pub data IsClosed (b s : OrderResult) (tr : TradeRecord) : Type 0 where
  both_filled :
      tr.status ≡ TradeStatus.filled → b.filled ≡ s.filled → b.filled ≢ zero_dec → IsClosed b s tr
  both_failed :
      tr.status ≡ TradeStatus.failed → b.filled ≡ zero_dec → s.filled ≡ zero_dec → IsClosed b s tr
  neutralised :
      tr.status ≡ TradeStatus.hedged
      → b.filled ≢ s.filled
      → is_neutral tr.hedge (b.filled -ℤ s.filled) ≡ true
      → IsClosed b s tr
  exposed :
      tr.status ≡ TradeStatus.recovering
      → b.filled ≢ s.filled
      → is_neutral tr.hedge (b.filled -ℤ s.filled) ≡ false
      → IsClosed b s tr

sub-zero : (a b : ℤ) → eqb_ℤ (a -ℤ b) zero_dec ≡ true → a ≡ b
sub-zero a b h = grind int_laws

sub-ne : (a b : ℤ) → eqb_ℤ (a -ℤ b) zero_dec ≡ false → a ≢ b
sub-ne a b h e = grind int_laws

recover-IsClosed :
    (o : Outside) (pair : String) (b s : OrderResult) (tr : TradeRecord) (e : Engine)
    → b.filled ≢ s.filled
    → IsClosed b s (recover o pair (b.filled -ℤ s.filled) tr e).0
unfolding recover
recover-IsClosed o pair b s tr e ne =
    let x = b.filled -ℤ s.filled in
    let h = (o.hedge (record tr { status = TradeStatus.recovering }) pair x e.ledger).1 in
    elim (Bool-cases (is_neutral h x)) [
      | inl n ↦ neutralised (rw n refl) ne n
      | inr n ↦ exposed (rw n refl) ne n
    ]

-- `apply_outcome` keeps the end that the branches on the fills have chosen.
unmatched : (x y : Decimal) → x ≡ y → eqb_ℤ (abs (x -ℤ y -ℤ zero_dec)) zero_dec ≡ true
unmatched x y e = rw e (unmatched_self y)
  where
    unmatched_self : (y : Decimal) → eqb_ℤ (abs (y -ℤ y -ℤ zero_dec)) zero_dec ≡ true
    unmatched_self y = let z : y -ℤ y -ℤ zero_dec ≡ zero_dec = omega int_laws in rw z refl

abbrev HasLegs : OrderResult → OrderResult → TradeRecord → Type 0
HasLegs b s tr = (tr.buy ≡ some b) × (tr.sell ≡ some s)

close_legs-HasLegs :
    (o : Outside) (pair : String) (b s : OrderResult) (tr : TradeRecord) (e : Engine)
    → HasLegs b s tr
    → HasLegs b s (close_legs o pair b s tr e).0
unfolding close_legs recover
close_legs-HasLegs o pair b s tr e h = ground arith

close_legs-IsClosed :
    (o : Outside) (pair : String) (b s : OrderResult) (tr : TradeRecord) (e : Engine)
    → IsClosed b s (close_legs o pair b s tr e).0
unfolding close_legs
close_legs-IsClosed o pair b s tr e = elim (Bool-cases (eqb_ℤ (b.filled -ℤ s.filled) zero_dec)) [
  | inr x ↦ rw x (recover-IsClosed o pair b s tr e (sub-ne b.filled s.filled x))
  | inl x ↦ elim (Bool-cases (eqb_ℤ b.filled zero_dec && eqb_ℤ s.filled zero_dec)) [
    | inl z ↦
        rw (x, z)
          (both_failed refl (eqb_ℤ-eq b.filled zero_dec (ground arith))
            (eqb_ℤ-eq s.filled zero_dec (ground arith)))
    | inr z ↦
        rw (x, z)
          (both_filled refl (sub-zero b.filled s.filled x)
            (some_filled b.filled s.filled (sub-zero b.filled s.filled x) z))
  ]
]
  where
    some_filled :
        (x y : Decimal) → x ≡ y → (eqb_ℤ x zero_dec && eqb_ℤ y zero_dec) ≡ false → x ≢ zero_dec
    some_filled x y e z k = ground arith

close_legs-hedge :
    (o : Outside) (pair : String) (b s : OrderResult) (tr : TradeRecord) (e : Engine)
    → tr.hedge ≡ none
    → (close_legs o pair b s tr e).0.status ≡ TradeStatus.filled
    → (close_legs o pair b s tr e).0.hedge ≡ none
unfolding close_legs recover
close_legs-hedge o pair b s tr e h f = ground arith

filled-unmatched :
    (tr : TradeRecord) (rate : Decimal) (est : CostBreakdown) (b s : OrderResult)
    → HasLegs b s tr
    → tr.hedge ≡ none
    → b.filled ≡ s.filled
    → eqb_ℤ (compute_outcome tr rate est).unmatched_base zero_dec ≡ true
unfolding compute_outcome leg_value
filled-unmatched tr rate est b s l h e = simp (l.0, l.1, h) (unmatched b.filled s.filled e)

apply_outcome-IsClosed :
    (tr : TradeRecord) (rate : Decimal) (est : CostBreakdown) (b s : OrderResult)
    → HasLegs b s tr
    → (tr.status ≡ TradeStatus.filled → tr.hedge ≡ none)
    → IsClosed b s tr
    → IsClosed b s (apply_outcome tr (compute_outcome tr rate est))
unfolding apply_outcome
apply_outcome-IsClosed tr rate est b s l h (both_filled st e n) =
    let u = filled-unmatched tr rate est b s l (h st) e in both_filled (simp (st, u) refl) e n
apply_outcome-IsClosed tr rate est b s l h (both_failed st x y) = both_failed (simp st refl) x y
apply_outcome-IsClosed tr rate est b s l h (neutralised st n k) = neutralised (simp st refl) n k
apply_outcome-IsClosed tr rate est b s l h (exposed st n k) = exposed (simp st refl) n k

trade_legs-IsClosed :
    (o : Outside) (opp fresh : Opportunity) (quote : String) (p : Plan) (tr : TradeRecord)
    (e : Engine)
    → tr.hedge ≡ none
    → let g = o.submit p.buy_req p.sell_req fresh e.ledger in
      let b = as_result g.buy p.buy_req in
      let s = as_result g.sell p.sell_req in IsClosed b s (trade_legs o opp fresh quote p tr e).0
unfolding trade_legs
trade_legs-IsClosed o opp fresh quote p tr e h =
    let g = o.submit p.buy_req p.sell_req fresh e.ledger in
    let b = as_result g.buy p.buy_req in
    let s = as_result g.sell p.sell_req in
    let tr1 = record tr { buy = some b; sell = some s } in
    apply_outcome-IsClosed _ _ _ b s (close_legs-HasLegs o opp.pair b s tr1 _ (refl, refl))
      (close_legs-hedge o opp.pair b s tr1 _ h) (close_legs-IsClosed o opp.pair b s tr1 _)

-- An exception was raised, and the handler has stopped trading.
abbrev pub IsBroken : Outside → TradeRecord → Engine → Type 0
IsBroken o tr e =
    (tr.status ≡ TradeStatus.failed)
    × ((f : Fault) × (o.raises f ≡ true))
    × (is_tripped e.breakers "global" ≡ true)

-- The two legs, and how they were closed if nothing was raised.
abbrev IsEnd : Outside → OrderResult → OrderResult → TradeRecord × Engine → Type 0
IsEnd o b s (tr, e) = HasLegs b s tr × (IsClosed b s tr ⊎ IsBroken o tr e)

-- What holds of the record at the end: the two legs and how they were closed, or no legs at all.
abbrev pub EndsClosed : Outside → Engine × Ended → Type 0
EndsClosed o (e, traded tr) =
    (b : OrderResult) × (s : OrderResult) × (tr.buy ≡ some b)
    × (tr.sell ≡ some s)
    × (IsClosed b s tr ⊎ IsBroken o tr e)
EndsClosed o (e, aborted r tr) = tr.status ≡ TradeStatus.aborted
EndsClosed o (e, Ended.raised) = Unit

trade_legs-HasLegs :
    (o : Outside) (opp fresh : Opportunity) (quote : String) (p : Plan) (tr : TradeRecord)
    (e : Engine)
    → let g = o.submit p.buy_req p.sell_req fresh e.ledger in
      HasLegs
        (as_result g.buy p.buy_req)
        (as_result g.sell p.sell_req)
        (trade_legs o opp fresh quote p tr e).0
unfolding trade_legs apply_outcome
trade_legs-HasLegs o opp fresh quote p tr e =
    let g = o.submit p.buy_req p.sell_req fresh e.ledger in
    let b = as_result g.buy p.buy_req in
    let s = as_result g.sell p.sell_req in
    close_legs-HasLegs o opp.pair b s (record tr { buy = some b; sell = some s })
      (legs_done o p tr.size_base b s g.ledger e) (refl, refl)

handled-IsEnd :
    (o : Outside) (b s : OrderResult) (tr : TradeRecord) (e : Engine) (f : Fault)
    → o.raises f ≡ true
    → HasLegs b s tr
    → IsConsistent e.breakers
    → IsEnd o b s (handled o tr e)
unfolding handled
handled-IsEnd o b s tr e f r h c = (h, inr (refl, (f, r), handled-tripped o tr e c))

protected_legs-IsEnd :
    (o : Outside) (opp fresh : Opportunity) (quote : String) (p : Plan) (tr : TradeRecord)
    (e : Engine)
    → tr.hedge ≡ none
    → IsConsistent e.breakers
    → let g = o.submit p.buy_req p.sell_req fresh e.ledger in
      IsEnd o
        (as_result g.buy p.buy_req)
        (as_result g.sell p.sell_req)
        (protected_legs o opp fresh quote p tr e)
protected_legs-IsEnd o opp fresh quote p tr e h i =
    let g = o.submit p.buy_req p.sell_req fresh e.ledger in
    let b = as_result g.buy p.buy_req in
    let s = as_result g.sell p.sell_req in
    let (n, k, c, t) = faults-IsConsistent o opp fresh quote p tr e i in
    let legs = trade_legs-HasLegs o opp fresh quote p tr e in
    let tr1 = record tr { buy = some b; sell = some s } in
    protected-rule o (IsEnd o b s) opp fresh quote p tr e
      (λ r. handled-IsEnd o b s _ _ in_notes r (refl, refl) n)
      (λ r. handled-IsEnd o b s _ _ in_hedge r (refl, refl) n)
      (λ r. handled-IsEnd o b s _ _ in_report r (refl, refl) k)
      (λ r.
        handled-IsEnd o b s _ _ in_count r (close_legs-HasLegs o opp.pair b s tr1 _ (refl, refl)) c)
      (λ r. handled-IsEnd o b s _ _ in_saving r legs t)
      (legs, inl (trade_legs-IsClosed o opp fresh quote p tr e h))

after_reserving-EndsClosed :
    (o : Outside) (opp fresh : Opportunity) (quote : String) (p : Plan) (tr : TradeRecord)
    (r : Engine × Bool)
    → tr.hedge ≡ none
    → IsConsistent r.0.breakers
    → EndsClosed o (after_reserving o opp fresh quote p tr r)
unfolding abort begin finish
after_reserving-EndsClosed o opp fresh quote p tr (e, false) h i = refl
after_reserving-EndsClosed o opp fresh quote p tr (e, true) h i =
    let tr1 = record tr { status = TradeStatus.executing } in
    let ((b, s), c) = protected_legs-IsEnd o opp fresh quote p tr1 (begin tr e) h i in
    (_, _, b, s, c)

-- If the keys of the breakers are consistent, a trade whose legs were submitted ends in one of five
-- ways: FILLED with equal fills that are not 0; FAILED with two fills of 0; with unequal fills HEDGED
-- if the hedge leaves at most two percent of the exposure, else RECOVERING; or, if an exception was
-- raised, FAILED with whatever was filled, and then a global breaker is active. An abort leaves the
-- status ABORTED.
pub execute-EndsClosed :
    (o : Outside) (opp : Opportunity) (allow_carry : Bool) (e : Engine)
    → IsConsistent e.breakers
    → EndsClosed o (execute o opp allow_carry e)
unfolding abort
execute-EndsClosed o opp allow_carry e i =
    execute-rule o opp e (EndsClosed o) (λ r tr u. refl) tt
      (λ fresh quote p tr u.
        after_reserving-EndsClosed o opp fresh quote p tr
          (reserve_legs tr.id p.buy_need p.sell_need e) u.1
          (rw (reserve_legs-kept tr.id p.buy_need p.sell_need e).2 i))
      allow_carry
