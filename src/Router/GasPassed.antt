-- ===== src/Router/GasPassed.antt =====
-- The verdict of the gas guard in the inputs of `_assess` of engine/opportunity.py.
use fedr.Base.{
  ◌≡◌, refl, Bool, true, false, not, ◌&&◌, ◌||◌, Option, none, some, List, [], ◌∷◌, ◌++◌, map,
  is_none, is_empty, arith, inl, inr, ℕ, String, ◌∙◌,
}
use fedr.Decimal.{Decimal}
use fedr.Models.{ExecutionQuote, Chain}
use fedr.Settings.{AppSettings, GasSettings}
use fedr.Guards.Gas.{GasAssessment, GasBaseline, GasSnapshot, assess as assess_gas, assess_snapshot}
use fedr.Profit.Steps.{is_dex}
use fedr.Profit.Assess.{is_on_chain}
use fedr.Profit.Safety.{IsGasCleared}
use fedr.Executor.{Engine}
use fedr.Router.{RouteCandidate, Scene}
use fedr.Router.Gate.{
  merge_gas, all_passed, all_reasons, leg_gas, legs_gas, gas_on, gas_of, on_chain, flash_terms,
  guard_inputs,
}

-- Where the guard was asked, it has passed.
abbrev pub HasPassed : Option GasAssessment → Type 0
HasPassed none = Unit
HasPassed (some a) = a.passed ≡ true

-- An assessment passes just if it has no reason.
abbrev IsVerdict : GasAssessment → Type 0
IsVerdict a = a.passed ≡ is_empty a.reasons

assess-IsVerdict :
    (s : GasSettings) (g : GasBaseline) (now : ℕ) (o : Option GasSnapshot) (limit : ℕ)
    (gross : Decimal) (units : Option ℕ) (cap : Option Decimal) (legs : ℕ)
    → IsVerdict (assess_gas s g now o limit gross units cap legs)
unfolding fedr.Guards.Gas.assess assess_snapshot
assess-IsVerdict s g now none limit gross units cap legs = refl
assess-IsVerdict s g now (some snap) limit gross units cap legs = refl

leg_gas-IsVerdict :
    (sc : Scene) (s : AppSettings) (gross : Decimal) (q : ExecutionQuote)
    → IsVerdict (leg_gas sc s gross q)
leg_gas-IsVerdict sc s gross q = assess-IsVerdict _ _ _ _ _ _ _ _ _

and_empty {ℓ} :
    {A : Type ℓ} (xs ys : List A) (a b : Bool)
    → a ≡ is_empty xs
    → b ≡ is_empty ys
    → (a && b) ≡ is_empty (xs ++ ys)
and_empty [] ys a b h k = rw (h, k) refl
and_empty (_ ∷ _) ys a b h k = rw h refl

all_passed-IsVerdict :
    (sc : Scene) (s : AppSettings) (gross : Decimal) (qs : List ExecutionQuote)
    → all_passed (map (leg_gas sc s gross) qs)
      ≡ is_empty (all_reasons (map (leg_gas sc s gross) qs))
all_passed-IsVerdict sc s gross [] = refl
all_passed-IsVerdict sc s gross (q ∷ qs) =
    and_empty (leg_gas sc s gross q).reasons _ _ _ (leg_gas-IsVerdict sc s gross q)
      (all_passed-IsVerdict sc s gross qs)

merge_gas-IsVerdict :
    (sc : Scene) (s : AppSettings) (gross : Decimal) (q : ExecutionQuote) (qs : List ExecutionQuote)
    → IsVerdict (merge_gas (leg_gas sc s gross q) (map (leg_gas sc s gross) qs))
unfolding merge_gas
merge_gas-IsVerdict sc s gross q [] = leg_gas-IsVerdict sc s gross q
merge_gas-IsVerdict sc s gross q (r ∷ qs) = all_passed-IsVerdict sc s gross (q ∷ r ∷ qs)

-- The guard is asked only on chain.
abbrev IsAsked : Bool → Option GasAssessment → Type 0
IsAsked on none = Unit
IsAsked on (some a) = (on ≡ true) × IsVerdict a

legs_gas-IsAsked :
    (sc : Scene) (s : AppSettings) (gross : Decimal) (on : Bool) (qs : List ExecutionQuote)
    → (is_empty qs ≡ false → on ≡ true)
    → IsAsked on (legs_gas sc s gross qs)
legs_gas-IsAsked sc s gross on [] h = tt
legs_gas-IsAsked sc s gross on (q ∷ qs) h = (h refl, merge_gas-IsVerdict sc s gross q qs)

gas_on-IsAsked :
    (sc : Scene) (s : AppSettings) (gross : Decimal) (on flash : Bool) (c : Option Chain)
    (qs : List ExecutionQuote)
    → (flash ≡ true → on ≡ true)
    → (is_empty qs ≡ false → on ≡ true)
    → IsAsked on (gas_on sc s gross flash c qs)
gas_on-IsAsked sc s gross on true (some c) qs f h = (f refl, assess-IsVerdict _ _ _ _ _ _ _ _ _)
gas_on-IsAsked sc s gross on true none qs f h = legs_gas-IsAsked sc s gross on qs h
gas_on-IsAsked sc s gross on false c qs f h = legs_gas-IsAsked sc s gross on qs h

flash_terms-given :
    (sc : Scene) (s : AppSettings) (cand : RouteCandidate) (buy sell : ExecutionQuote)
    (size : Decimal)
    → cand.flash_loan ≡ true
    → not (is_none (flash_terms sc s cand buy sell size).0) ≡ true
unfolding flash_terms
flash_terms-given sc s cand buy sell size h = rw h refl

on_chain-some :
    (buy sell : ExecutionQuote) (c : Bool)
    → is_empty (on_chain buy sell) ≡ false
    → (is_dex buy.kind || is_dex sell.kind || c) ≡ true
on_chain-some buy sell c h = ground arith

cleared-HasPassed :
    (s : AppSettings) (on : Bool) (gas : Option GasAssessment)
    → IsAsked on gas
    → IsGasCleared s gas on
    → HasPassed gas
cleared-HasPassed s on none k h = tt
cleared-HasPassed s true (some a) k h = elim h [ inl x ↦ x | inr x ↦ k.1 ∙ x ]
cleared-HasPassed s false (some a) k h = ground arith

-- A gas guard that the profit guard does not object to has passed.
pub guard_inputs-HasPassed :
    (sc : Scene) (e : Engine) (cand : RouteCandidate) (quote : String) (buy sell : ExecutionQuote)
    (size px : Decimal) (funding : Option Decimal)
    → let inp = guard_inputs sc e cand quote buy sell size px funding in
      IsGasCleared inp.settings inp.gas (is_on_chain inp) → HasPassed inp.gas
unfolding guard_inputs gas_of is_on_chain
guard_inputs-HasPassed sc e cand quote buy sell size px funding =
    let loan = not (is_none (flash_terms sc e.settings cand buy sell size).0) in
    cleared-HasPassed e.settings (is_dex buy.kind || is_dex sell.kind || loan) _ (
      gas_on-IsAsked sc e.settings _ _ cand.flash_loan buy.chain (on_chain buy sell)
        (λ f.
          let k = flash_terms-given sc e.settings cand buy sell size f in
          or_last (is_dex buy.kind) (is_dex sell.kind) loan k)
        (on_chain-some buy sell loan))
  where
    or_last : (a b c : Bool) → c ≡ true → (a || b || c) ≡ true
    or_last a b c h = ground arith
