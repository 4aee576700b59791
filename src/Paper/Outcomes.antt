-- ===== src/Paper/Outcomes.antt =====
-- The outcomes of a simulated leg of engine/execution/paper_executor.py.
use fedr.Base.{
  ◌≡◌, refl, ◌⊎◌, inl, inr, true, false, Option, none, some, arith, if◌then◌else◌, Bool-cases,
  String,
}
use fedr.Int.{pos, negsuc, ◌≤ℤ◌, leb_ℤ, ltb_ℤ}
use fedr.Decimal.{Decimal, zero_dec, dec, mul, div, quantize_8}
use fedr.Decimal.Laws.{mul_nonneg}
use fedr.Ledger.{PaperLedger, before_colon}
use fedr.Models.{ExecutionQuote}
use fedr.Orders.{OrderRequest, OrderResult, OrderStatus, Venue, split_pair}
use fedr.Paper.{Arrival, Filled, LegRun, PaperSettings}
use fedr.Paper.Filling.{simulate_fill}
use fedr.Paper.Leg.{execute_leg, execute_pair, arrived, filled_leg, cut_fill}

-- A leg that is filled reports at most the amount that was asked for, and FILLED only for all of it.
abbrev pub IsFilledLeg : OrderRequest → LegRun → Type 0
IsFilledLeg req run =
    (r : OrderResult) × (run.result ≡ some r)
    × (pos 0 ≤ℤ r.filled)
    × (r.filled ≤ℤ req.amount)
    × (r.status
        ≡ (if leb_ℤ req.amount r.filled then OrderStatus.filled else OrderStatus.partially_filled))
    × (run.recorded ≡ some true)

-- A leg that is refused fills nothing and leaves the ledger as it was.
abbrev pub IsRefusedLeg : PaperLedger → LegRun → Type 0
IsRefusedLeg l run =
    (r : OrderResult) × (run.result ≡ some r)
    × (r.filled ≡ zero_dec)
    × (run.ledger ≡ l)
    × (run.recorded ≡ some false)

-- A leg that raises leaves the ledger as it was.
abbrev pub IsRaisedLeg : PaperLedger → LegRun → Type 0
IsRaisedLeg l run = (run.result ≡ none) × (run.ledger ≡ l)

abbrev pub IsLegRun : OrderRequest → PaperLedger → LegRun → Type 0
IsLegRun req l run = IsFilledLeg req run ⊎ (IsRefusedLeg l run ⊎ IsRaisedLeg l run)

quantize_8_nonneg : (x : Decimal) → pos 0 ≤ℤ x → pos 0 ≤ℤ quantize_8 x
unfolding quantize_8
quantize_8_nonneg (pos x) h = omega arith
quantize_8_nonneg (negsuc x) h = absurd (omega arith)

pub cut_fill-bounds :
    (ps : PaperSettings) (a : Arrival) (req : OrderRequest) (base : Decimal)
    → pos 0 ≤ℤ req.amount
    → pos 0 ≤ℤ ps.fill_ratio_on_partial
    → pos 0 ≤ℤ base
    → (pos 0 ≤ℤ cut_fill ps a req base) × (cut_fill ps a req base ≤ℤ req.amount)
unfolding cut_fill
cut_fill-bounds ps a req base h k p =
    let c = quantize_8_nonneg (mul req.amount ps.fill_ratio_on_partial) (mul_nonneg _ _ h k) in
    ground (arith, c)

arrived-IsLegRun :
    (ps : PaperSettings) (venue : Venue) (a : Arrival) (base quote : String) (req : OrderRequest)
    (q : ExecutionQuote) (f : Option Filled) (l : PaperLedger)
    → pos 0 ≤ℤ req.amount
    → pos 0 ≤ℤ ps.fill_ratio_on_partial
    → IsLegRun req l (arrived ps venue a base quote req q f l)
unfolding filled_leg
arrived-IsLegRun ps venue a base quote req q none l h k = inr (inr (refl, refl))
arrived-IsLegRun ps venue a base quote req q (some f) l h k =
    elim (Bool-cases (leb_ℤ f.base zero_dec)) [
      | inl e ↦ rw e (inr (inl (_, refl, refl, refl, refl)))
      | inr e ↦
          let (lo, hi) = cut_fill-bounds ps a req f.base h k (ground arith) in
          rw e (inl (_, refl, lo, hi, refl, refl))
    ]

execute_pair-IsLegRun :
    (ps : PaperSettings) (venue : Venue) (a : Arrival) (p : Option (String × String))
    (req : OrderRequest) (q : ExecutionQuote) (l : PaperLedger)
    → pos 0 ≤ℤ req.amount
    → pos 0 ≤ℤ ps.fill_ratio_on_partial
    → IsLegRun req l (execute_pair ps venue a p req q l)
execute_pair-IsLegRun ps venue a none req q l h k = inr (inr (refl, refl))
execute_pair-IsLegRun ps venue a (some (base, quote)) req q l h k =
    elim (Bool-cases (ltb_ℤ a.failure_draw ps.failure_probability)) [
      | inl e ↦ rw e (inr (inl (_, refl, refl, refl, refl)))
      | inr e ↦ rw e (
          arrived-IsLegRun ps venue a base quote req q
            (simulate_fill venue a req q ps.stress_multiplier (div ps.quote_drift_pct (dec 100))) l
            h k)
    ]

-- Whatever the draws and the venue answer, a simulated leg whose amount and ratio of a partial
-- fill are not negative is filled for at most its amount, with the status FILLED exactly if for
-- all of it, or it fills nothing or raises, and leaves the ledger as it was.
pub execute_leg-IsLegRun :
    (ps : PaperSettings) (venue : Venue) (a : Arrival) (req : OrderRequest) (q : ExecutionQuote)
    (l : PaperLedger)
    → pos 0 ≤ℤ req.amount
    → pos 0 ≤ℤ ps.fill_ratio_on_partial
    → IsLegRun req l (execute_leg ps venue a req q l)
unfolding execute_leg
execute_leg-IsLegRun ps venue a req q l =
    execute_pair-IsLegRun ps venue a (split_pair (before_colon req.symbol)) req q l
