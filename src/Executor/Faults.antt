-- ===== src/Executor/Faults.antt =====
-- The exceptions inside the `try` of `execute` of engine/execution/executor.py, at the calls of the
-- breakers, the hedger and the database, and the handler that catches them.
use fedr.Base.{String, Bool, true, false, not, ◌&&◌, Option, none, some, if◌then◌else◌}
use fedr.Int.{eqb_ℤ}
use fedr.Decimal.{Decimal, zero_dec}
use fedr.Breakers.{trip, one_leg_fill, repeated_order_failure}
use fedr.Experience.{ExperienceEngine}
use fedr.Orders.{TradeRecord, TradeStatus}
use fedr.Executor.{Engine, Outside, in_notes, in_hedge, in_report, in_count, in_saving}
use fedr.Executor.Settling.{is_neutral}

-- `except Exception`: the fills stay as they are
unfoldable pub handled : Outside → TradeRecord → Engine → TradeRecord × Engine
handled o tr e = (
  record tr { status = TradeStatus.failed },
  record e {
    breakers =
        (trip repeated_order_failure "execution exception" o.now_ms "global" true e.breakers).0;
  },
)

-- What `_recover` has done when it raises before or in the hedge, or when it reports that the exposure
-- stays open.
unfoldable pub recovery_fault :
    Outside → String → Decimal → TradeRecord → Engine → Option (TradeRecord × Engine)
recovery_fault o pair exposure tr e =
    let tr' = record tr { status = TradeStatus.recovering } in
    let (l, hedge) = o.hedge tr' pair exposure e.ledger in
    let e' = record e { ledger = l; unhedged_since_ms = some o.now_ms } in
    if o.raises in_hedge
    then some (tr', e')
    else if o.raises in_report && not (is_neutral hedge exposure)
    then some (
      record tr' { hedge = hedge },
      record e' {
        breakers =
            (trip one_leg_fill "the emergency hedge could not neutralise" o.now_ms "global" true
              e.breakers).0;
      },
    )
    else none

abbrev pub is_whole : TradeStatus → Bool
is_whole TradeStatus.filled = true
is_whole _ = false

abbrev pub count_fault : Outside → TradeRecord × Engine → Option (TradeRecord × Engine)
count_fault o r = if o.raises in_count && not (is_whole r.0.status) then some r else none

abbrev pub first_fault :
    Option (TradeRecord × Engine) → Option (TradeRecord × Engine) → Option (TradeRecord × Engine)
first_fault (some r) next = some r
first_fault none next = next

-- The first exception in the branches on the fills, with the state it leaves; `r` is what the branches
-- give without one.
unfoldable pub legs_fault :
    Outside
    → String
    → Decimal
    → TradeRecord
    → Engine
    → TradeRecord × Engine
    → Option (TradeRecord × Engine)
legs_fault o pair exposure tr e r =
    let hedging = if eqb_ℤ exposure zero_dec then none else recovery_fault o pair exposure tr e in
    if o.raises in_notes then some (tr, e) else first_fault hedging (count_fault o r)

-- The result of the `try`: `r` if nothing raises. A write that fails comes before the experience is
-- recorded, which then is still `x`.
abbrev pub caught :
    Outside
    → ExperienceEngine
    → Option (TradeRecord × Engine)
    → TradeRecord × Engine
    → TradeRecord × Engine
caught o x (some (tr, e)) r = handled o tr e
caught o x none (tr, e) =
    if o.raises in_saving then handled o tr (record e { experience = x }) else (tr, e)
