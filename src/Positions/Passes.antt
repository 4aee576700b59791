-- ===== src/Positions/Passes.antt =====
-- How the passes over all positions in engine/positions.py write to them.
use fedr.Base.{
  String, ◌≡◌, refl, true, false, ◌&&◌, Option, none, some, [], ◌∷◌, Bool-cases, inl, inr, arith,
}
use fedr.Int.{eqb_ℤ}
use fedr.Decimal.{Decimal, zero_dec}
use fedr.Dict.{Dict}
use fedr.Orders.{OrderResult, TradeRecord}
use fedr.Executor.{Engine, Opportunity, Outside, Ended, traded, aborted}
use fedr.Executor.Run.{execute}
use fedr.Positions.{ExitReason, Position, PositionManager, PositionStatus, Market, put}
use fedr.Positions.Carry.{accrue_funding, funded}
use fedr.Positions.Desk.{
  is_open, monitor_one, monitor_all, monitor, close_for, exit_for, accrue_at, accrue_one,
  accrue_all, accrue_due_funding, enter, with_legs, after_execution, open_from_opportunity,
  new_position, anomalous, is_filled, close_one, close_each, close_all, is_due,
}
use fedr.Positions.Rules.{AllKeep, Keeps, close-rule, is_closed}

module _ (P : Dict Position → Type 0) (o : Market) where
  close_for-rule :
      (p : Position) (r : Option ExitReason) (m : PositionManager)
      → Keeps P p.id
      → P m.open_positions
      → P (close_for o p r m).open_positions
  close_for-rule p none m k h = h
  close_for-rule p (some reason) m k h = close-rule P o reason p m k h

  monitor_one-rule :
      (p : Position) (m : PositionManager)
      → (is_open p.status ≡ true → Keeps P p.id)
      → P m.open_positions
      → P (monitor_one o p m).open_positions
  unfolding monitor_one
  monitor_one-rule p m k h = elim (Bool-cases (is_open p.status)) [
    | inl x ↦ rw x (close_for-rule p (exit_for o m p) m (k x) h)
    | inr x ↦ rw x h
  ]

  monitor_all-rule :
      (ps : Dict Position) (m : PositionManager)
      → AllKeep P ps
      → P m.open_positions
      → P (monitor_all o ps m).open_positions
  unfolding monitor_all
  monitor_all-rule [] m k h = h
  monitor_all-rule ((i, p) ∷ ps) m k h =
      monitor_all-rule ps (monitor_one o p m) k.1 (monitor_one-rule p m k.0 h)

  pub monitor-rule :
      (m : PositionManager)
      → AllKeep P m.open_positions
      → P m.open_positions
      → P (monitor o m).open_positions
  unfolding monitor
  monitor-rule m k h = monitor_all-rule m.open_positions m k h

  pub close_one-rule :
      (reason : ExitReason) (p : Position) (m : PositionManager)
      → (is_open p.status ≡ true → Keeps P p.id)
      → P m.open_positions
      → P (close_one o reason p m).open_positions
  unfolding close_one
  close_one-rule reason p m k h = elim (Bool-cases (is_open p.status)) [
    | inl x ↦ rw x (close-rule P o reason p m (k x) h)
    | inr x ↦ rw x h
  ]

  close_each-rule :
      (reason : ExitReason) (ps : Dict Position) (m : PositionManager)
      → AllKeep P ps
      → P m.open_positions
      → P (close_each o reason ps m).open_positions
  unfolding close_each
  close_each-rule reason [] m k h = h
  close_each-rule reason ((i, p) ∷ ps) m k h =
      close_each-rule reason ps (close_one o reason p m) k.1 (close_one-rule reason p m k.0 h)

  pub close_all-rule :
      (reason : ExitReason) (m : PositionManager)
      → AllKeep P m.open_positions
      → P m.open_positions
      → P (close_all o reason m).open_positions
  unfolding close_all
  close_all-rule reason m k h = close_each-rule reason m.open_positions m k h

  accrue_funding-rule :
      (rate : Option Decimal) (p : Position) (m : PositionManager)
      → Keeps P p.id
      → is_closed p.status ≡ false
      → P m.open_positions
      → P (accrue_funding o rate p m).open_positions
  unfolding accrue_funding put funded
  accrue_funding-rule none p m k c h = h
  accrue_funding-rule (some rate) p m k c h = k.write (funded o rate p) m.open_positions refl c h

  accrue_at-rule :
      (rate : Option (Option Decimal)) (p : Position) (m : PositionManager)
      → Keeps P p.id
      → is_closed p.status ≡ false
      → P m.open_positions
      → P (accrue_at o rate p m).open_positions
  unfolding put
  accrue_at-rule none p m k c h = h
  accrue_at-rule (some rate) p m k c h =
      let p' = record p { last_funding_ms = some o.now_ms } in
      accrue_funding-rule rate p' (put p' m) k c (k.write p' m.open_positions refl c h)

  open-closed : (st : PositionStatus) → is_open st ≡ true → is_closed st ≡ false
  open-closed st h = ground arith

  accrue_one-rule :
      (rates : String → String → Option (Option Decimal)) (p : Position) (m : PositionManager)
      → (is_open p.status ≡ true → Keeps P p.id)
      → P m.open_positions
      → P (accrue_one o rates p m).open_positions
  unfolding accrue_one
  accrue_one-rule rates p m k h = elim (Bool-cases (is_open p.status && is_due o m p)) [
    | inl x ↦
        let y : is_open p.status ≡ true = ground arith in
        rw x
          (accrue_at-rule (rates p.perp_venue p.perp_symbol) p m (k y) (open-closed p.status y) h)
    | inr x ↦ rw x h
  ]

  accrue_all-rule :
      (rates : String → String → Option (Option Decimal)) (ps : Dict Position) (m : PositionManager)
      → AllKeep P ps
      → P m.open_positions
      → P (accrue_all o rates ps m).open_positions
  unfolding accrue_all
  accrue_all-rule rates [] m k h = h
  accrue_all-rule rates ((i, p) ∷ ps) m k h =
      accrue_all-rule rates ps (accrue_one o rates p m) k.1 (accrue_one-rule rates p m k.0 h)

  pub accrue_due_funding-rule :
      (rates : String → String → Option (Option Decimal)) (m : PositionManager)
      → AllKeep P m.open_positions
      → P m.open_positions
      → P (accrue_due_funding o rates m).open_positions
  unfolding accrue_due_funding
  accrue_due_funding-rule rates m k h = accrue_all-rule rates m.open_positions m k h

module _ (P : Dict Position → Type 0) (o : Market) where
  enter-rule :
      (opp : Opportunity) (tr : TradeRecord) (buy sell : OrderResult) (a b : Option Decimal)
      (m : PositionManager)
      → Keeps P o.new_id
      → P m.open_positions
      → P (enter o opp tr buy sell a b m).0.open_positions
  unfolding put new_position
  enter-rule opp tr buy sell none b m k h = h
  enter-rule opp tr buy sell (some a) none m k h = h
  enter-rule opp tr buy sell (some a) (some b) m k h = elim (Bool-cases (eqb_ℤ a zero_dec)) [
    | inl e ↦ rw e h
    | inr e ↦ rw e (k.write (new_position o opp buy sell a b) m.open_positions refl refl h)
  ]

  with_legs-rule :
      (opp : Opportunity) (tr : TradeRecord) (buy sell : Option OrderResult) (m : PositionManager)
      → Keeps P o.new_id
      → P m.open_positions
      → P (with_legs o opp tr buy sell m).0.open_positions
  with_legs-rule opp tr none sell m k h = h
  with_legs-rule opp tr (some buy) none m k h = h
  with_legs-rule opp tr (some buy) (some sell) m k h =
      enter-rule opp tr buy sell buy.avg_price sell.avg_price m k h

  after_execution-rule :
      (opp : Opportunity) (m : PositionManager) (r : Engine × Ended)
      → Keeps P o.new_id
      → P m.open_positions
      → P (after_execution o opp m r).0.open_positions
  after_execution-rule opp m (e, aborted r tr) k h = h
  after_execution-rule opp m (e, Ended.raised) k h = h
  after_execution-rule opp m (e, traded tr) k h = elim (Bool-cases (is_filled tr.status)) [
    | inl x ↦ rw x (with_legs-rule opp tr tr.buy tr.sell (record m { engine = e }) k h)
    | inr x ↦ rw x h
  ]

  -- An opening keeps what a write of a position with the new id keeps.
  pub open_from_opportunity-rule :
      (x : Outside) (opp : Opportunity) (rate : Option Decimal) (m : PositionManager)
      → Keeps P o.new_id
      → P m.open_positions
      → P (open_from_opportunity o x opp rate m).0.open_positions
  unfolding open_from_opportunity
  open_from_opportunity-rule x opp rate m k h = elim (Bool-cases (anomalous m.policy rate)) [
    | inl y ↦ rw y h
    | inr y ↦ rw y (after_execution-rule opp m (execute x opp true m.engine) k h)
  ]
