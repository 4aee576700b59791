-- ===== src/Positions/Stuck.antt =====
-- What never happens to a position of engine/positions.py whose close was left half done, and when
-- the automatic exits stand still.
use fedr.Base.{
  String, ◌≡◌, refl, sym, ap, ◌∙◌, Bool, true, false, none, some, List, [], ◌∷◌, if◌then◌else◌,
  arith, Bool-cases, ◌⊎◌, inl, inr, ◌==◌, eq_iff, or_else,
}
use mathlib.Core.Path.{subst}
use fedr.Dict.{Dict, lookup, HasUniqueKeys, lookup-insert, lookup-erase}
use fedr.Breakers.{is_tripped}
use fedr.Positions.{ExitReason, Position, PositionManager, closing, Market}
use fedr.Positions.Desk.{is_open, monitor, monitor_all, monitor_one, exit_for, close_requested}
use fedr.Positions.Rules.{Keeps, AllKeep}
use fedr.Positions.Passes.{
  monitor-rule, close_all-rule, accrue_due_funding-rule, open_from_opportunity-rule,
}
use fedr.Positions.Tracked.{
  Call, opens, accrues, monitors, closes, closes_all, reconciles, step, run, AreKept, IsTracked,
  IsTracked-Keeps, close_found-rule, reconcile-same,
}

-- The manager holds this position under this id.
abbrev pub Holds : String → Position → Dict Position → Type 0
Holds id p d = IsTracked d × (lookup id d ≡ some p)

Holds-Keeps : (id : String) (p : Position) (j : String) → (j == id) ≡ false → Keeps (Holds id p) j
Holds-Keeps id p j ne = record {
  write = λ q d e c h.
      ((IsTracked-Keeps j).write q d e c h.0, lookup-insert q.id id q d ∙ rw (e, ne) h.1);
  remove = λ q d e h.
      ((IsTracked-Keeps j).remove q d e h.0, lookup-erase q.id id d h.0.1 ∙ rw (e, ne) h.1);
}

others-AllKeep :
    (id : String) (p : Position) (d : Dict Position)
    → AreKept d
    → lookup id d ≡ none
    → AllKeep (Holds id p) d
unfolding lookup
others-AllKeep id p [] k h = tt
others-AllKeep id p ((i, q) ∷ d) k h = elim (Bool-cases (i == id)) [
  | inl e ↦ ground arith
  | inr e ↦
      ((λ x. Holds-Keeps id p q.id (rw (sym k.0) e)), others-AllKeep id p d k.2 (ground arith))
]

-- Every open position has another id than the one that is not open.
Holds-AllKeep :
    (id : String) (p : Position) (d : Dict Position)
    → is_open p.status ≡ false
    → AreKept d
    → HasUniqueKeys d
    → lookup id d ≡ some p
    → AllKeep (Holds id p) d
unfolding lookup
Holds-AllKeep id p [] o k u h = tt
Holds-AllKeep id p ((i, q) ∷ d) o k u h = elim (Bool-cases (i == id)) [
  | inl e ↦ (
    (λ x.
        let g : some q ≡ some p = ground arith in
        let y : is_open p.status ≡ true = subst (λ r. is_open (or_else r q).status ≡ true) g x in
        ground arith),
    others-AllKeep id p d k.2 (subst (λ z. lookup z d ≡ none) ((eq_iff i id).0 e) u.0),
  )
  | inr e ↦
      ((λ x. Holds-Keeps id p q.id (rw (sym k.0) e)), Holds-AllKeep id p d o k.2 u.1 (ground arith))
]

-- No call opens a position with this id.
abbrev pub IsNeverReused : String → List Call → Type 0
IsNeverReused id [] = Unit
IsNeverReused id (opens o x opp rate ∷ cs) = ((o.new_id == id) ≡ false) × IsNeverReused id cs
IsNeverReused id (c ∷ cs) = IsNeverReused id cs

some_status : (p q : Position) → some p ≡ some q → is_open p.status ≡ is_open q.status
some_status p q e = ap (λ r. is_open (or_else r p).status) e

lookup-id :
    (j : String) (q : Position) (d : Dict Position) → AreKept d → lookup j d ≡ some q → q.id ≡ j
unfolding lookup
lookup-id j q [] k e = ground arith
lookup-id j q ((i, p) ∷ d) k e = elim (Bool-cases (i == j)) [
  | inl x ↦
      let g : some p ≡ some q = ground arith in
      sym (ap (λ r. (or_else r p).id) g) ∙ sym k.0 ∙ (eq_iff i j).0 x
  | inr x ↦ lookup-id j q d k.2 (ground arith)
]

close_requested-Holds :
    (id : String) (p : Position) (o : Market) (j : String) (reason : ExitReason)
    (m : PositionManager)
    → is_open p.status ≡ false
    → Holds id p m.open_positions
    → Holds id p (close_requested o j reason m).open_positions
unfolding close_requested
close_requested-Holds id p o j reason m c h =
    close_found-rule (Holds id p) o reason (lookup j m.open_positions) m
      (λ q e x. Holds-Keeps id p q.id (other q e x)) h
  where
    other :
        (q : Position)
        → lookup j m.open_positions ≡ some q
        → is_open q.status ≡ true
        → (q.id == id) ≡ false
    other q e x = elim (Bool-cases (q.id == id)) [
      | inr y ↦ y
      | inl y ↦
          let same : j ≡ id = sym (lookup-id j q m.open_positions h.0.0 e) ∙ (eq_iff q.id id).0 y in
          let f : some q ≡ some p = sym e ∙ ap (λ z. lookup z m.open_positions) same ∙ h.1 in
          let g = some_status q p f in ground arith
    ]

step-Holds :
    (id : String) (p : Position) (c : Call) (cs : List Call) (m : PositionManager)
    → is_open p.status ≡ false
    → IsNeverReused id (c ∷ cs)
    → Holds id p m.open_positions
    → Holds id p (step c m).open_positions
step-Holds id p (opens o x opp rate) cs m st n h =
    open_from_opportunity-rule (Holds id p) o x opp rate m (Holds-Keeps id p o.new_id n.0) h
step-Holds id p (accrues o rates) cs m st n h =
    accrue_due_funding-rule (Holds id p) o rates m
      (Holds-AllKeep id p m.open_positions st h.0.0 h.0.1 h.1) h
step-Holds id p (monitors o) cs m st n h =
    monitor-rule (Holds id p) o m (Holds-AllKeep id p m.open_positions st h.0.0 h.0.1 h.1) h
step-Holds id p (closes o j reason) cs m st n h = close_requested-Holds id p o j reason m st h
step-Holds id p (closes_all o reason) cs m st n h =
    close_all-rule (Holds id p) o reason m (Holds-AllKeep id p m.open_positions st h.0.0 h.0.1 h.1)
      h
step-Holds id p (reconciles o actual) cs m st n h =
    subst (Holds id p) (sym (reconcile-same o actual m)) h

IsNeverReused-tail :
    (id : String) (c : Call) (cs : List Call) → IsNeverReused id (c ∷ cs) → IsNeverReused id cs
IsNeverReused-tail id (opens o x opp rate) cs n = n.1
IsNeverReused-tail id (accrues o rates) cs n = n
IsNeverReused-tail id (monitors o) cs n = n
IsNeverReused-tail id (closes o j reason) cs n = n
IsNeverReused-tail id (closes_all o reason) cs n = n
IsNeverReused-tail id (reconciles o actual) cs n = n

run-Holds :
    (id : String) (p : Position) (cs : List Call) (m : PositionManager)
    → is_open p.status ≡ false
    → IsNeverReused id cs
    → Holds id p m.open_positions
    → Holds id p (run cs m).open_positions
unfolding run
run-Holds id p [] m st n h = h
run-Holds id p (c ∷ cs) m st n h =
    run-Holds id p cs (step c m) st (IsNeverReused-tail id c cs n) (step-Holds id p c cs m st n h)

-- A tracked position that is left in the state CLOSING stays as it is for ever: no later operation,
-- a request to close it included, changes or closes it, as long as its id is not given again.
pub run-closing_stuck :
    (id : String) (p : Position) (cs : List Call) (m : PositionManager)
    → IsTracked m.open_positions
    → lookup id m.open_positions ≡ some p
    → p.status ≡ closing
    → IsNeverReused id cs
    → lookup id (run cs m).open_positions ≡ some p
run-closing_stuck id p cs m t h st n = (run-Holds id p cs m (rw st refl) n (t, h)).1

-- The two tests of `monitor` that suspend the automatic exits.
abbrev pub IsSuspended : PositionManager → Type 0
IsSuspended m =
    ((m.engine.emergency_stop ≡ true) × (m.policy.flatten_on_emergency_stop ≡ false))
    ⊎ ((m.engine.emergency_stop ≡ false) × (is_tripped m.engine.breakers "global" ≡ true))

exit_for-none :
    (o : Market) (m : PositionManager) (p : Position) → IsSuspended m → exit_for o m p ≡ none
unfolding exit_for
exit_for-none o m p (inl h) = simp (h.0, h.1) refl
exit_for-none o m p (inr h) = simp (h.0, h.1) refl

monitor_one-same :
    (o : Market) (p : Position) (m : PositionManager) → IsSuspended m → monitor_one o p m ≡ m
unfolding monitor_one
monitor_one-same o p m h = rw (exit_for-none o m p h) (same (is_open p.status))
  where
    same : (b : Bool) → (if b then m else m) ≡ m
    same true = refl
    same false = refl

monitor_all-same :
    (o : Market) (ps : Dict Position) (m : PositionManager) → IsSuspended m → monitor_all o ps m ≡ m
unfolding monitor_all
monitor_all-same o [] m h = refl
monitor_all-same o ((i, p) ∷ ps) m h =
    ap (monitor_all o ps) (monitor_one-same o p m h) ∙ monitor_all-same o ps m h

-- While the automatic exits are suspended, by the emergency stop where that does not flatten, or by a
-- global breaker without the stop, a pass of the monitor closes and changes nothing.
pub monitor-suspended : (o : Market) (m : PositionManager) → IsSuspended m → monitor o m ≡ m
unfolding monitor
monitor-suspended o m h = monitor_all-same o m.open_positions m h
