-- ===== src/Profit/Safety.antt =====
-- What `assess` of engine/profit_guard.py guarantees of a trade that it lets pass.
use fedr.Base.{
  ℕ, ◌≡◌, refl, ◌⊎◌, Bool, true, false, not, ◌&&◌, Option, none, some, map, ◌==◌, if◌then◌else◌,
  List, [], ◌∷◌, arith, is_empty, empty_parts, empty_when, Bool-cases, inl, inr, empty_when_append,
}
use mathlib.Core.Path.{subst}
use fedr.Int.{eqb_ℤ-eq, pos, ◌≤ℤ◌, ◌<ℤ◌, leb_ℤ}
use fedr.Decimal.{Decimal, zero_dec}
use fedr.Models.{age_ms, safe_to_execute}
use fedr.Settings.{AppSettings}
use fedr.Guards.Gas.{GasAssessment, GasReason}
use fedr.Profit.{
  FlashLoanTerms, CostName, gas_guard, not_simulated, not_atomic, ProfitGuardInputs,
  ProfitAssessment, Reason,
}
use fedr.Profit.Steps.{gas_reasons}
use fedr.Profit.Assess.{
  has_passed, flash_reasons, extreme_reasons, trade_size, is_on_chain, min_profit, min_worst,
  depth_reasons, age_reasons, unknown_reasons, min_reasons, all_costs, from_keys, decide,
}
use fedr.Profit.Verdict.{assess, assess_at, blocked_by, reasons_at, expected_at, worst_at, roi_at}

decide-safe : (r : List Reason) → decide r ≡ safe_to_execute → is_empty r ≡ true
decide-safe [] h = refl
decide-safe (_ ∷ _) h = ground arith

-- The verdict of the gas guard on a trade on chain: it passed, or gave no reason. Where the gas is not
-- known, the policy for it is not the fallback.
abbrev pub IsGasCleared : AppSettings → Option GasAssessment → Bool → Type 0
IsGasCleared s gas false = Unit
IsGasCleared s none true = (s.gas.unknown_gas_policy == "conservative_fallback") ≡ false
IsGasCleared s (some g) true = (g.passed ≡ true) ⊎ (is_empty g.reasons ≡ true)

-- A flash loan is simulated and atomic where that is required, and within both limits.
abbrev pub IsLoanCleared : AppSettings → Option FlashLoanTerms → Type 0
IsLoanCleared s none = Unit
IsLoanCleared s (some fl) =
    ((s.flash_loan.require_simulation && not (has_passed fl.simulation_passed)) ≡ false)
    × ((s.flash_loan.require_atomic && not fl.atomic) ≡ false)
    × (fl.loan_amount_usd ≤ℤ s.flash_loan.max_loan_usd)
    × (fl.loan_amount_usd ≤ℤ s.risk.max_flash_loan_usd)

-- What holds of a trade that the guard calls safe.
pub record IsSafe (inp : ProfitGuardInputs) (now : ℕ) (a : ProfitAssessment) : Type 0 where
  pub size_positive : pos 0 <ℤ trade_size inp
  pub same_size : inp.buy.base_amount ≡ inp.sell.base_amount
  pub buy_fillable : inp.buy.fully_fillable ≡ true
  pub sell_fillable : inp.sell.fully_fillable ≡ true
  pub buy_fresh : age_ms now inp.buy ≤ℤ inp.settings.risk.max_quote_age_ms
  pub sell_fresh : age_ms now inp.sell ≤ℤ inp.settings.risk.max_quote_age_ms
  pub nothing_unknown : a.unknown ≡ []
  pub enough_profit : a.required_min_profit ≤ℤ a.expected_net_profit
  pub enough_worst_case : a.required_min_worst_case ≤ℤ a.worst_case_profit
  pub enough_roi : a.required_min_roi_pct ≤ℤ a.net_roi_pct
  pub gas_cleared : IsGasCleared inp.settings inp.gas (is_on_chain inp)
  pub loan_cleared : IsLoanCleared inp.settings inp.flash_loan

unknown_reasons-none : (ns : List CostName) → is_empty (unknown_reasons ns) ≡ true → ns ≡ []
unfolding unknown_reasons
unknown_reasons-none [] h = refl
unknown_reasons-none (_ ∷ _) h = ground arith

min_reasons-none :
    (a b c d e f : Decimal)
    → is_empty (min_reasons a b c d e f) ≡ true
    → (b ≤ℤ a) × (d ≤ℤ c) × (f ≤ℤ e)
unfolding min_reasons
min_reasons-none a b c d e f h = ground arith

not-false : (b : Bool) → not b ≡ false → b ≡ true
not-false true h = refl
not-false false h = ground arith

depth_reasons-none :
    (inp : ProfitGuardInputs) (size : Decimal)
    → is_empty (depth_reasons inp size) ≡ true
    → (inp.buy.base_amount ≡ inp.sell.base_amount)
      × (inp.buy.fully_fillable ≡ true)
      × (inp.sell.fully_fillable ≡ true)
unfolding depth_reasons
depth_reasons-none inp size h =
    let (e, r) = empty_when_append _ _ _ h in
    let (b, r') = empty_when_append _ _ _ r in
    (
      eqb_ℤ-eq inp.buy.base_amount inp.sell.base_amount (not-false _ e),
      not-false _ b,
      not-false _ (empty_when _ _ r'),
    )

age_reasons-none :
    (inp : ProfitGuardInputs) (now : ℕ)
    → is_empty (age_reasons inp now) ≡ true
    → (age_ms now inp.buy ≤ℤ inp.settings.risk.max_quote_age_ms)
      × (age_ms now inp.sell ≤ℤ inp.settings.risk.max_quote_age_ms)
unfolding age_reasons
age_reasons-none inp now h = let e = empty_when _ _ h in ground arith

gas_reasons-none :
    (s : AppSettings) (gas : Option GasAssessment) (on : Bool)
    → is_empty (gas_reasons s gas on) ≡ true
    → IsGasCleared s gas on
unfolding gas_reasons
gas_reasons-none s gas false h = tt
gas_reasons-none s none true h = empty_when _ _ h
gas_reasons-none s (some g) true h = elim (Bool-cases g.passed) [
  | inl x ↦ inl x
  | inr x ↦ inr (
      empty_mapped g.reasons
        (subst (λ b. is_empty (if b then [] else map gas_guard g.reasons) ≡ true) x h))
]
  where
    empty_mapped : (rs : List GasReason) → is_empty (map gas_guard rs) ≡ true → is_empty rs ≡ true
    empty_mapped [] h = refl
    empty_mapped (_ ∷ _) h = ground arith

flash_reasons-none :
    (s : AppSettings) (o : Option FlashLoanTerms)
    → is_empty (flash_reasons s o) ≡ true
    → IsLoanCleared s o
unfolding flash_reasons
flash_reasons-none s none h = tt
flash_reasons-none s (some fl) h =
    let (a, r) =
      empty_when_append (s.flash_loan.require_simulation && not (has_passed fl.simulation_passed))
        not_simulated _ h in
    let (b, _) = empty_when_append (s.flash_loan.require_atomic && not fl.atomic) not_atomic _ r in
    (a, b, ground arith, ground arith)

-- Each part of the reasons that `IsSafe` reads is empty if all are.
reasons_at-none :
    (inp : ProfitGuardInputs) (now : ℕ) (size : Decimal)
    → is_empty (reasons_at inp now size) ≡ true
    → (is_empty (depth_reasons inp size) ≡ true)
      × (is_empty (age_reasons inp now) ≡ true)
      × (is_empty (unknown_reasons (from_keys (all_costs inp size).unknown)) ≡ true)
      × (is_empty (
            min_reasons
              (expected_at inp size)
              (min_profit inp)
              (worst_at inp size)
              (min_worst inp)
              (roi_at inp size)
              inp.settings.trading.min_roi_pct)
          ≡ true)
      × (is_empty (gas_reasons inp.settings inp.gas (is_on_chain inp)) ≡ true)
      × (is_empty (flash_reasons inp.settings inp.flash_loan) ≡ true)
unfolding reasons_at
reasons_at-none inp now size h =
    let (a, r1) = empty_parts (depth_reasons inp size) _ h in
    let (b, r2) = empty_parts (age_reasons inp now) _ r1 in
    let (g, r3) = empty_parts (gas_reasons inp.settings inp.gas (is_on_chain inp)) _ r2 in
    let (l, r4) = empty_parts (flash_reasons inp.settings inp.flash_loan) _ r3 in
    let (_, r5) = empty_parts (extreme_reasons inp.gas (is_on_chain inp)) _ r4 in
    let (u, r6) = empty_parts (unknown_reasons (from_keys (all_costs inp size).unknown)) _ r5 in
    let (m, _) = empty_parts (min_reasons _ _ _ _ _ _) _ r6 in (a, b, u, m, g, l)

pub assess_at-IsSafe :
    (inp : ProfitGuardInputs) (now : ℕ)
    → leb_ℤ (trade_size inp) zero_dec ≡ false
    → (assess_at inp now (trade_size inp)).decision ≡ safe_to_execute
    → IsSafe inp now (assess_at inp now (trade_size inp))
unfolding assess_at
assess_at-IsSafe inp now p h =
    let size = trade_size inp in
    let (d, a, u, m, g, l) =
      reasons_at-none inp now size (decide-safe (reasons_at inp now size) h) in
    let (same, fb, fs) = depth_reasons-none inp size d in
    let (ab, as') = age_reasons-none inp now a in
    let (mp, mw, mr) = min_reasons-none _ _ _ _ _ _ m in
    record {
      size_positive = ground arith;
      same_size = same;
      buy_fillable = fb;
      sell_fillable = fs;
      buy_fresh = ab;
      sell_fresh = as';
      nothing_unknown = unknown_reasons-none _ u;
      enough_profit = mp;
      enough_worst_case = mw;
      enough_roi = mr;
      gas_cleared = gas_reasons-none inp.settings inp.gas (is_on_chain inp) g;
      loan_cleared = flash_reasons-none inp.settings inp.flash_loan l;
    }

-- If the guard calls a trade safe to execute, then its size is positive and the same on both legs,
-- both legs can be filled, both quotes are fresh enough for the risk settings, no cost is unknown,
-- and the expected profit, the worst-case profit and the ROI reach the required minimums. On chain the
-- gas guard has passed or given no reason, and unknown gas has not fallen back to its policy; a flash
-- loan is simulated and atomic where that is required, and within the limits of the loan and of risk.
pub assess-IsSafe :
    (inp : ProfitGuardInputs) (now : ℕ)
    → (assess inp now).decision ≡ safe_to_execute
    → IsSafe inp now (assess inp now)
unfolding assess blocked_by
assess-IsSafe inp now = elim (Bool-cases (leb_ℤ (trade_size inp) zero_dec)) [
  | inl e ↦ rw e (λ h. ground arith)
  | inr e ↦ rw e (λ h. assess_at-IsSafe inp now e h)
]
