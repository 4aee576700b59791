-- ===== src/Positions/Tracked.antt =====
-- The positions that the manager of engine/positions.py holds, after any sequence of its operations.
use fedr.Base.{
  String, ◌≡◌, refl, sym, true, false, Option, none, some, List, [], ◌∷◌, arith, Bool-cases, inl,
  inr, ◌==◌, eq_iff,
}
use mathlib.Core.Path.{subst}
use fedr.Decimal.{Decimal}
use fedr.Dict.{
  Dict, lookup, insert, erase, HasUniqueKeys, insert-HasUniqueKeys, erase-HasUniqueKeys,
}
use fedr.Executor.{Opportunity, Outside}
use fedr.Positions.{ExitReason, Position, PositionManager, Market}
use fedr.Positions.Desk.{
  is_open, monitor, accrue_due_funding, close_all, close_found, close_requested,
  open_from_opportunity,
}
use fedr.Positions.Shorts.{reconcile}
use fedr.Positions.Rules.{is_closed, Keeps, AllKeep}
use fedr.Positions.Passes.{
  monitor-rule, close_all-rule, close_one-rule, accrue_due_funding-rule, open_from_opportunity-rule,
}

-- A call of the manager, with what it meets outside.
pub data Call : Type 0 where
  opens : Market → Outside → Opportunity → Option Decimal → Call
  accrues : Market → (String → String → Option (Option Decimal)) → Call
  monitors : Market → Call
  closes : Market → String → ExitReason → Call
  closes_all : Market → ExitReason → Call
  reconciles : Market → Dict Decimal → Call

abbrev pub step : Call → PositionManager → PositionManager
step (opens o x opp rate) m = (open_from_opportunity o x opp rate m).0
step (accrues o rates) m = accrue_due_funding o rates m
step (monitors o) m = monitor o m
step (closes o id reason) m = close_requested o id reason m
step (closes_all o reason) m = close_all o reason m
step (reconciles o actual) m = (reconcile o actual m).0

unfoldable pub run : List Call → PositionManager → PositionManager
run [] m = m
run (c ∷ cs) m = run cs (step c m)

-- Each position stands under its id, and is not closed.
abbrev pub AreKept : Dict Position → Type 0
AreKept [] = Unit
AreKept ((k, p) ∷ d) = (k ≡ p.id) × (is_closed p.status ≡ false) × AreKept d

abbrev pub IsTracked : Dict Position → Type 0
IsTracked d = AreKept d × HasUniqueKeys d

insert-AreKept :
    (q : Position) (d : Dict Position)
    → is_closed q.status ≡ false
    → AreKept d
    → AreKept (insert q.id q d)
unfolding insert
insert-AreKept q [] c h = (refl, c, tt)
insert-AreKept q ((k, p) ∷ d) c h = elim (Bool-cases (k == q.id)) [
  | inl e ↦ rw e ((eq_iff k q.id).0 e, c, h.2)
  | inr e ↦ rw e (h.0, h.1, insert-AreKept q d c h.2)
]

erase-AreKept : (k : String) (d : Dict Position) → AreKept d → AreKept (erase k d)
unfolding erase
erase-AreKept k [] h = tt
erase-AreKept k ((i, p) ∷ d) h = elim (Bool-cases (i == k)) [
  | inl e ↦ rw e h.2
  | inr e ↦ rw e (h.0, h.1, erase-AreKept k d h.2)
]

pub IsTracked-Keeps : (id : String) → Keeps IsTracked id
IsTracked-Keeps id = record {
  write = λ q d e c h. (insert-AreKept q d c h.0, insert-HasUniqueKeys q.id q d h.1);
  remove = λ q d e h. (erase-AreKept q.id d h.0, erase-HasUniqueKeys q.id d h.1);
}

AllKeep-always :
    (P : Dict Position → Type 0) → ((id : String) → Keeps P id) → (d : Dict Position) → AllKeep P d
AllKeep-always P k [] = tt
AllKeep-always P k ((i, p) ∷ d) = (λ x. k p.id, AllKeep-always P k d)

-- A request to close keeps what the writes of the open position that it names keep.
pub close_found-rule :
    (P : Dict Position → Type 0) (o : Market) (reason : ExitReason) (f : Option Position)
    (m : PositionManager)
    → ((p : Position) → f ≡ some p → is_open p.status ≡ true → Keeps P p.id)
    → P m.open_positions
    → P (close_found o reason f m).open_positions
close_found-rule P o reason none m k h = h
close_found-rule P o reason (some p) m k h = close_one-rule P o reason p m (k p refl) h

pub reconcile-same :
    (o : Market) (actual : Dict Decimal) (m : PositionManager)
    → (reconcile o actual m).0.open_positions ≡ m.open_positions
unfolding reconcile
reconcile-same o actual m = ground arith

step-IsTracked :
    (c : Call) (m : PositionManager)
    → IsTracked m.open_positions
    → IsTracked (step c m).open_positions
unfolding close_requested
step-IsTracked (opens o x opp rate) m h =
    open_from_opportunity-rule IsTracked o x opp rate m (IsTracked-Keeps o.new_id) h
step-IsTracked (accrues o rates) m h =
    accrue_due_funding-rule IsTracked o rates m
      (AllKeep-always IsTracked IsTracked-Keeps m.open_positions) h
step-IsTracked (monitors o) m h =
    monitor-rule IsTracked o m (AllKeep-always IsTracked IsTracked-Keeps m.open_positions) h
step-IsTracked (closes o id reason) m h =
    close_found-rule IsTracked o reason (lookup id m.open_positions) m
      (λ p q x. IsTracked-Keeps p.id) h
step-IsTracked (closes_all o reason) m h =
    close_all-rule IsTracked o reason m (AllKeep-always IsTracked IsTracked-Keeps m.open_positions)
      h
step-IsTracked (reconciles o actual) m h = subst IsTracked (sym (reconcile-same o actual m)) h

-- After any sequence of operations, whatever they meet outside, every position that is held stands
-- under its id, once, and none of them is closed, if that was so before.
pub run-IsTracked :
    (cs : List Call) (m : PositionManager)
    → IsTracked m.open_positions
    → IsTracked (run cs m).open_positions
unfolding run
run-IsTracked [] m h = h
run-IsTracked (c ∷ cs) m h = run-IsTracked cs (step c m) (step-IsTracked c m h)
