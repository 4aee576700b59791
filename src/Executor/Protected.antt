-- ===== src/Executor/Protected.antt =====
-- The exits of the `try` of `execute` of engine/execution/executor.py, as one rule for what holds at its
-- end.
use fedr.Base.{◌≡◌, inl, inr, String, Bool, true, not, ◌&&◌, Option, none, some, Bool-cases, arith}
use fedr.Int.{◌-ℤ◌, eqb_ℤ}
use fedr.Decimal.{Decimal, zero_dec}
use fedr.Breakers.{trip, one_leg_fill}
use fedr.Experience.{ExperienceEngine}
use fedr.Orders.{TradeRecord, TradeStatus}
use fedr.Executor.{
  Engine, Opportunity, Outside, Fault, in_notes, in_hedge, in_report, in_count, in_saving,
}
use fedr.Executor.Settling.{as_result, is_neutral}
use fedr.Executor.Faults.{
  handled, recovery_fault, is_whole, count_fault, first_fault, legs_fault, caught,
}
use fedr.Executor.Run.{Plan, legs_done, close_legs, trade_legs, protected_legs}

-- The engine when the hedge has returned or raised.
abbrev pub hedging : Outside → String → Decimal → TradeRecord → Engine → Engine
hedging o pair x tr e = record e {
  ledger = (o.hedge (record tr { status = TradeStatus.recovering }) pair x e.ledger).0;
  unhedged_since_ms = some o.now_ms;
}

-- The engine when the breaker of the exposure that stays open has tripped.
abbrev pub reporting : Outside → String → Decimal → TradeRecord → Engine → Engine
reporting o pair x tr e = record (hedging o pair x tr e) {
  breakers =
      (trip one_leg_fill "the emergency hedge could not neutralise" o.now_ms "global" true
        e.breakers).0;
}

both_true : (a b : Bool) → (a && b) ≡ true → a ≡ true
both_true a b h = ground arith

module _ (o : Outside) (P : TradeRecord × Engine → Type 0) where
  -- What is to be shown of the handler, if an exception is raised at a point.
  abbrev After : Fault → TradeRecord → Engine → Type 0
  After f tr e = o.raises f ≡ true → P (handled o tr e)

  abbrev AtFault : Option (TradeRecord × Engine) → Type 0
  AtFault none = Unit
  AtFault (some (tr, e)) = P (handled o tr e)

  recovery_fault-rule :
      (pair : String) (x : Decimal) (tr : TradeRecord) (e : Engine)
      → After in_hedge (record tr { status = TradeStatus.recovering }) (hedging o pair x tr e)
      → After in_report
          (record tr {
            status = TradeStatus.recovering;
            hedge = (o.hedge (record tr { status = TradeStatus.recovering }) pair x e.ledger).1;
          })
          (reporting o pair x tr e)
      → AtFault (recovery_fault o pair x tr e)
  unfolding recovery_fault
  recovery_fault-rule pair x tr e h r =
      let hedge = (o.hedge (record tr { status = TradeStatus.recovering }) pair x e.ledger).1 in
      elim (Bool-cases (o.raises in_hedge)) [
        | inl a ↦ rw a (h a)
        | inr a ↦ elim (Bool-cases (o.raises in_report && not (is_neutral hedge x))) [
          | inl b ↦ rw (a, b) (r (both_true _ _ b))
          | inr b ↦ rw (a, b) tt
        ]
      ]

  count_fault-rule : (r : TradeRecord × Engine) → After in_count r.0 r.1 → AtFault (count_fault o r)
  count_fault-rule r h = elim (Bool-cases (o.raises in_count && not (is_whole r.0.status))) [
    | inl b ↦ rw b (h (both_true _ _ b))
    | inr b ↦ rw b tt
  ]

  first_fault-rule :
      (a b : Option (TradeRecord × Engine)) → AtFault a → AtFault b → AtFault (first_fault a b)
  first_fault-rule none b h k = k
  first_fault-rule (some r) b h k = h

  caught-rule :
      (x : ExperienceEngine) (f : Option (TradeRecord × Engine)) (r : TradeRecord × Engine)
      → AtFault f
      → P r
      → After in_saving r.0 (record r.1 { experience = x })
      → P (caught o x f r)
  caught-rule x (some t) r h p k = h
  caught-rule x none r h p k = elim (Bool-cases (o.raises in_saving)) [
    | inl b ↦ rw b (k b)
    | inr b ↦ rw b p
  ]

  legs_fault-rule :
      (pair : String) (x : Decimal) (tr : TradeRecord) (e : Engine) (r : TradeRecord × Engine)
      → After in_notes tr e
      → After in_hedge (record tr { status = TradeStatus.recovering }) (hedging o pair x tr e)
      → After in_report
          (record tr {
            status = TradeStatus.recovering;
            hedge = (o.hedge (record tr { status = TradeStatus.recovering }) pair x e.ledger).1;
          })
          (reporting o pair x tr e)
      → After in_count r.0 r.1
      → AtFault (legs_fault o pair x tr e r)
  unfolding legs_fault
  legs_fault-rule pair x tr e r n h k c =
      let counted = count_fault-rule r c in
      elim (Bool-cases (o.raises in_notes)) [
        | inl a ↦ rw a (n a)
        | inr a ↦ elim (Bool-cases (eqb_ℤ x zero_dec)) [
          | inl b ↦ rw (a, b) counted
          | inr b ↦ rw (a, b) (first_fault-rule _ _ (recovery_fault-rule pair x tr e h k) counted)
        ]
      ]

-- The result of the two legs for which the exits are to be shown.
module _ (o : Outside) (P : TradeRecord × Engine → Type 0) (opp fresh : Opportunity)
    (quote : String) (p : Plan) (tr : TradeRecord) (e : Engine) where
  -- What holds where nothing raises, and after the handler at each exception, holds at the end.
  pub protected-rule :
      let g = o.submit p.buy_req p.sell_req fresh e.ledger in
      let b = as_result g.buy p.buy_req in
      let s = as_result g.sell p.sell_req in
      let x = b.filled -ℤ s.filled in
      let tr1 = record tr { buy = some b; sell = some s } in
      let e1 = legs_done o p tr.size_base b s g.ledger e in
      let tr2 = record tr1 { status = TradeStatus.recovering } in
      let r = close_legs o opp.pair b s tr1 e1 in
      let t = trade_legs o opp fresh quote p tr e in
      After o P in_notes tr1 e1
      → After o P in_hedge tr2 (hedging o opp.pair x tr1 e1)
      → After o P in_report
          (record tr2 { hedge = (o.hedge tr2 opp.pair x e1.ledger).1 })
          (reporting o opp.pair x tr1 e1)
      → After o P in_count r.0 r.1
      → After o P in_saving t.0 (record t.1 { experience = e.experience })
      → P t
      → P (protected_legs o opp fresh quote p tr e)
  unfolding protected_legs
  protected-rule n h k c v t =
      caught-rule o P e.experience _ (trade_legs o opp fresh quote p tr e)
        (legs_fault-rule o P _ _ _ _ _ n h k c) t v
