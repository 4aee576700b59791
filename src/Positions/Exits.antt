-- ===== src/Positions/Exits.antt =====
-- The exit rule on negative funding of engine/positions.py.
use fedr.Base.{◌+◌, ◌≤◌, ◌≡◌, refl, true, false, Option, none, some, List, [], ◌∷◌, arith, length}
use fedr.Int.{ltb_ℤ, ◌<ℤ◌}
use fedr.Decimal.{Decimal, zero_dec}
use fedr.Breakers.{is_tripped}
use fedr.Positions.{CarryPolicy, ExitReason, Position, PositionManager, open_position, Market}
use fedr.Positions.Carry.{Mark, mark, funded, exit_reason_for}
use fedr.Positions.Close.{close}
use fedr.Positions.Desk.{monitor_one, exit_for}

-- The funding of one interval after another.
abbrev pub funded_by : Market → List Decimal → Position → Position
funded_by o [] p = p
funded_by o (rate ∷ rates) p = funded_by o rates (funded o rate p)

abbrev pub AreNegative : List Decimal → Type 0
AreNegative [] = Unit
AreNegative (r ∷ rs) = (r <ℤ zero_dec) × AreNegative rs

funded_by-streak :
    (o : Market) (rates : List Decimal) (p : Position)
    → AreNegative rates
    → (funded_by o rates p).negative_funding_streak ≡ p.negative_funding_streak + length rates
unfolding funded
funded_by-streak o [] p h = omega arith
funded_by-streak o (r ∷ rs) p h =
    let ih = funded_by-streak o rs (funded o r p) h.1 in
    let neg : ltb_ℤ r zero_dec ≡ true = ground arith in
    let one : (funded o r p).negative_funding_streak ≡ p.negative_funding_streak + 1 =
      rw neg refl in
    omega (arith, ih, one)

funded_by-status :
    (o : Market) (rates : List Decimal) (p : Position) → (funded_by o rates p).status ≡ p.status
unfolding funded
funded_by-status o [] p = refl
funded_by-status o (r ∷ rs) p = funded_by-status o rs (funded o r p)

flipped-exits :
    (c : CarryPolicy) (p : Position) (m : Mark)
    → c.funding_flip_periods ≤ p.negative_funding_streak
    → (reason : ExitReason) × (exit_reason_for c p m ≡ some reason)
unfolding exit_reason_for
flipped-exits c p m h = first_rule (exit_reason_for c p m) refl
  where
    first_rule :
        (r : Option ExitReason)
        → exit_reason_for c p m ≡ r
        → (reason : ExitReason) × (exit_reason_for c p m ≡ some reason)
    first_rule (some reason) e = (reason, e)
    first_rule none e = ground arith

-- As soon as the rate has been negative for as many intervals in a row as the policy allows, the next
-- pass of the monitor calls `close` on an open position, whatever the marks are, unless the emergency
-- stop or a global breaker is active.
pub monitor_one-negative_funding :
    (o : Market) (rates : List Decimal) (p : Position) (m : PositionManager)
    → p.status ≡ open_position
    → AreNegative rates
    → m.policy.funding_flip_periods ≤ length rates
    → m.engine.emergency_stop ≡ false
    → is_tripped m.engine.breakers "global" ≡ false
    → let p' = funded_by o rates p in
      (reason : ExitReason) × (monitor_one o p' m ≡ (close o p' reason m).0)
unfolding monitor_one exit_for
monitor_one-negative_funding o rates p m st neg enough stop trip =
    let p' = funded_by o rates p in
    let streak = funded_by-streak o rates p neg in
    let (reason, e) = flipped-exits m.policy p' (mark o p') (omega (arith, streak)) in
    (reason, simp (funded_by-status o rates p, st, stop, trip, e) refl)
