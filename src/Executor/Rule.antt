-- ===== src/Executor/Rule.antt =====
-- The paths of `execute` of engine/execution/executor.py, as one rule for what holds at its end.
use fedr.Base.{◌≡◌, refl, inl, inr, String, Bool, Option, none, some, Bool-cases}
use fedr.Models.{Decision, safe_to_execute, blocked}
use fedr.Orders.{TradeRecord, split_pair}
use fedr.Executor.{Engine, Opportunity, Outside, Connector, Abort, Ended}
use fedr.Executor.Preconditions.{precondition, new_trade, reestimated}
use fedr.Executor.Reserving.{reserve_legs}
use fedr.Executor.Run.{
  abort, Plan, plan, after_reserving, with_venues, by_decision, revalidated, admitted, execute,
}

-- The record of a trade for which nothing has been submitted yet.
abbrev pub IsUnsent : String → TradeRecord → Type 0
IsUnsent id tr = (tr.id ≡ id) × (tr.hedge ≡ none)

module _ (o : Outside) (opp : Opportunity) (e : Engine) (P : Engine × Ended → Type 0)
    (at_abort : (r : Abort) (tr : TradeRecord) → IsUnsent o.new_id tr → P (abort r tr e))
    (at_raise : P (e, Ended.raised))
    (at_trade : (fresh : Opportunity) (quote : String) (p : Plan) (tr : TradeRecord)
      → IsUnsent o.new_id tr
      → P (
          after_reserving o opp fresh quote p tr
            (reserve_legs tr.id p.buy_need p.sell_need e))) where
  with_venues-rule :
      (fresh : Opportunity) (pair : Option (String × String)) (b s : Option Connector)
      (tr : TradeRecord)
      → IsUnsent o.new_id tr
      → P (with_venues o opp fresh pair b s tr e)
  with_venues-rule fresh none b s tr h = at_raise
  with_venues-rule fresh (some (base, quote)) none s tr h = at_raise
  with_venues-rule fresh (some (base, quote)) (some b) none tr h = at_raise
  with_venues-rule fresh (some (base, quote)) (some b) (some s) tr h =
      at_trade fresh quote (plan e opp fresh base quote b s) tr h

  by_decision-rule :
      (fresh : Opportunity) (tr : TradeRecord) (d : Decision)
      → IsUnsent o.new_id tr
      → P (by_decision o opp fresh tr e d)
  by_decision-rule fresh tr blocked h = at_abort Abort.not_safe tr h
  by_decision-rule fresh tr safe_to_execute h =
      with_venues-rule fresh (split_pair opp.pair) (o.connectors fresh.buy.venue)
        (o.connectors fresh.sell.venue) tr h

  revalidated-rule :
      (fresh : Option Opportunity) (tr : TradeRecord)
      → IsUnsent o.new_id tr
      → P (revalidated o opp fresh tr e)
  unfolding reestimated
  revalidated-rule none tr h = at_abort Abort.no_quote tr h
  revalidated-rule (some fresh) tr h =
      by_decision-rule fresh (reestimated fresh tr) fresh.decision h

  admitted-rule :
      (a : Option Abort) (tr : TradeRecord) → IsUnsent o.new_id tr → P (admitted o opp a tr e)
  admitted-rule (some r) tr h = at_abort r tr h
  admitted-rule none tr h = elim (Bool-cases o.has_candidate) [
    | inl x ↦ simp x (revalidated-rule o.reevaluated tr h)
    | inr x ↦ simp x (at_abort Abort.no_candidate tr h)
  ]

  -- What holds of every abort, of an exception and of a trade whose reservation was tried, holds of
  -- every execution.
  pub execute-rule : (allow_carry : Bool) → P (execute o opp allow_carry e)
  unfolding execute new_trade
  execute-rule allow_carry =
      admitted-rule (precondition o opp allow_carry e) (new_trade o.new_id opp e) (refl, refl)
