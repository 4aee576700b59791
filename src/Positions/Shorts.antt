-- ===== src/Positions/Shorts.antt =====
-- `reconcile` of engine/positions.py.
use fedr.Base.{
  String, true, not, ◌&&◌, List, [], ◌∷◌, ◌++◌, if◌then◌else◌, or_else, is_empty, is_none, when,
}
use fedr.Int.{◌+ℤ◌, ◌-ℤ◌, ltb_ℤ, eqb_ℤ}
use fedr.Decimal.{Decimal, zero_dec, cents, mul, abs}
use fedr.Dict.{Dict, lookup, insert}
use fedr.Breakers.{trip, position_discrepancy}
use fedr.Positions.{Position, PositionManager, Market}

-- The expected short size of each symbol.
unfoldable pub expected_shorts : Dict Position → Dict Decimal → Dict Decimal
expected_shorts [] d = d
expected_shorts ((_, p) ∷ ps) d =
    expected_shorts ps
      (insert p.perp_symbol (or_else (lookup p.perp_symbol d) zero_dec +ℤ p.size_base) d)

pub data Problem : Type 0 where
  mismatch : String → Decimal → Decimal → Problem
  untracked : String → Decimal → Problem

unfoldable pub mismatches : Dict Decimal → Dict Decimal → List Problem
mismatches actual [] = []
mismatches actual ((sym, exp) ∷ d) =
    let act = or_else (lookup sym actual) zero_dec in
    when (ltb_ℤ (mul exp (cents 1)) (abs (act -ℤ exp))) (mismatch sym exp act)
    ++ mismatches actual d

unfoldable pub untracked_in : Dict Decimal → Dict Decimal → List Problem
untracked_in expected [] = []
untracked_in expected ((sym, act) ∷ d) =
    when (is_none (lookup sym expected) && not (eqb_ℤ act zero_dec)) (untracked sym act)
    ++ untracked_in expected d

unfoldable pub problems_of : Dict Decimal → PositionManager → List Problem
problems_of actual m =
    let expected = expected_shorts m.open_positions [] in
    mismatches actual expected ++ untracked_in expected actual

-- `reconcile`
unfoldable pub reconcile : Market → Dict Decimal → PositionManager → PositionManager × List Problem
reconcile o actual m =
    let problems = problems_of actual m in
    let e = m.engine in
    (
      if is_empty problems then m else record m {
        engine = record e {
          breakers =
              (trip position_discrepancy "positions differ from the venue" o.now_ms "global" true
                e.breakers).0;
        };
      },
      problems,
    )
