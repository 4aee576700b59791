-- ===== src/Accounting/Laws.antt =====
-- `compute_outcome` and `apply_outcome` of engine/accounting.py.
use fedr.Base.{
  ◌≡◌, refl, ◌↔◌, Bool, true, false, Option, none, some, arith, if◌then◌else◌, ◌∙◌, sym,
}
use fedr.Int.{◌+ℤ◌, ◌-ℤ◌, eqb_ℤ, min_ℤ, max_ℤ, int_laws}
use fedr.Decimal.{Decimal, zero_dec, abs}
use fedr.Profit.{CostBreakdown}
use fedr.Orders.{OrderResult, TradeRecord, TradeStatus}
use fedr.Accounting.{compute_outcome, apply_outcome, leg_value, hedge_sign, is_settled}

-- What a leg has filled, 0 without a leg.
abbrev pub filled_of : Option OrderResult → Decimal
filled_of none = zero_dec
filled_of (some r) = r.filled

min-abs : (x y : Decimal) → min_ℤ x (y +ℤ zero_dec) +ℤ abs (x -ℤ y -ℤ zero_dec) ≡ max_ℤ x y
min-abs x y = grind int_laws

base-filled : (r : Option OrderResult) → (leg_value r).base ≡ filled_of r
unfolding leg_value
base-filled none = refl
base-filled (some r) = refl

-- Without a hedge, the matched and the unmatched amount are together the larger of the two fills.
pub matched-unmatched :
    (tr : TradeRecord) (rate : Decimal) (est : CostBreakdown)
    → tr.hedge ≡ none
    → let out = compute_outcome tr rate est in
      out.matched_base +ℤ out.unmatched_base ≡ max_ℤ (filled_of tr.buy) (filled_of tr.sell)
unfolding compute_outcome
matched-unmatched tr rate est h =
    simp (h, base-filled tr.buy, base-filled tr.sell)
      (min-abs (filled_of tr.buy) (filled_of tr.sell))

unmatched-zero_iff : (x y z : Decimal) → (eqb_ℤ (abs (x -ℤ y -ℤ z)) zero_dec ≡ true) ↔ (x ≡ y +ℤ z)
unmatched-zero_iff x y z = (λ h. grind int_laws, λ h. grind int_laws)

status_iff :
    (st : TradeStatus) (b : Bool)
    → is_settled st ≡ false
    → ((if is_settled st then st else if b then TradeStatus.filled else TradeStatus.partial)
        ≡ TradeStatus.filled)
      ↔ (b ≡ true)
status_iff st b h = (λ k. ground arith, λ k. ground arith)

-- A trade that is not settled yet becomes FILLED exactly if what was bought is what was sold,
-- where a hedge counts as a sale or as a purchase, by its side.
pub apply_outcome-filled_iff :
    (tr : TradeRecord) (rate : Decimal) (est : CostBreakdown)
    → is_settled tr.status ≡ false
    → ((apply_outcome tr (compute_outcome tr rate est)).status ≡ TradeStatus.filled)
      ↔ (filled_of tr.buy ≡ filled_of tr.sell +ℤ hedge_sign tr.hedge (filled_of tr.hedge))
unfolding apply_outcome compute_outcome
apply_outcome-filled_iff tr rate est h =
    let out = compute_outcome tr rate est in
    let (a, b) = status_iff tr.status (eqb_ℤ out.unmatched_base zero_dec) h in
    let (c, d) =
      unmatched-zero_iff (leg_value tr.buy).base (leg_value tr.sell).base
        (hedge_sign tr.hedge (leg_value tr.hedge).base) in
    let v = base-filled tr.buy in
    let w = base-filled tr.sell in
    let z = base-filled tr.hedge in
    (λ k. sym v ∙ c (a k) ∙ rw (w, z) refl, λ e. b (d (v ∙ e ∙ rw (w, z) refl)))
