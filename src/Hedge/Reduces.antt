-- ===== src/Hedge/Reduces.antt =====
-- What `hedge` of engine/execution/emergency_hedge.py does to the exposure.
use fedr.Base.{
  ℕ, zero, suc, ◌≡◌, refl, sym, inl, inr, String, Bool, true, false, not, ◌||◌, Option, none, some,
  List, [], ◌∷◌, if◌then◌else◌, arith, Bool-cases,
}
use mathlib.Core.Path.{subst}
use fedr.Int.{pos, ◌-ℤ◌, ◌≤ℤ◌, ◌<ℤ◌, ltb_ℤ, leb_ℤ, eqb_ℤ, int_laws}
use fedr.Decimal.{Decimal, zero_dec, abs, div, dec, mul}
use fedr.Dict.{IfSome}
use fedr.Ledger.{PaperLedger, Outcome, done, insufficient, OrderSide}
use fedr.Models.{ExecutionQuote}
use fedr.Orders.{OrderRequest, OrderResult, Venue, split_pair}
use fedr.Accounting.{hedge_sign, signed}
use fedr.Ledger.{before_colon}
use fedr.Paper.{PaperSettings, Arrival, Filled, LegRun, ledger_venue}
use fedr.Paper.Filling.{simulate_fill}
use fedr.Paper.Leg.{execute_leg, execute_pair, arrived, filled_leg}
use fedr.Paper.Outcomes.{IsLegRun, execute_leg-IsLegRun}
use fedr.Executor.{Engine}
use fedr.Inventory
use fedr.Hedge.{
  is_down, HedgeVenue, Candidate, hedge_side, contains, quoted, candidate_at, push, candidates,
  insert_candidate, sort_candidates, first_n, hedge_request, after_leg, after_reserve,
  paper_attempt, attempt, has_filled, try_venues, on_paper, split_and_hedge, hedge_pair, hedge,
  spends_asset,
}

abbrev HasRequest : OrderRequest → LegRun → Type 0
HasRequest req run = IfSome (λ r. r.request ≡ req) run.result

arrived-HasRequest :
    (ps : PaperSettings) (venue : Venue) (a : Arrival) (base quote : String) (req : OrderRequest)
    (q : ExecutionQuote) (f : Option Filled) (l : PaperLedger)
    → HasRequest req (arrived ps venue a base quote req q f l)
unfolding filled_leg
arrived-HasRequest ps venue a base quote req q none l = tt
arrived-HasRequest ps venue a base quote req q (some f) l =
    elim (Bool-cases (leb_ℤ f.base zero_dec)) [ inl x ↦ rw x refl | inr x ↦ rw x refl ]

execute_pair-HasRequest :
    (ps : PaperSettings) (venue : Venue) (a : Arrival) (p : Option (String × String))
    (req : OrderRequest) (q : ExecutionQuote) (l : PaperLedger)
    → HasRequest req (execute_pair ps venue a p req q l)
execute_pair-HasRequest ps venue a none req q l = tt
execute_pair-HasRequest ps venue a (some (base, quote)) req q l =
    elim (Bool-cases (ltb_ℤ a.failure_draw ps.failure_probability)) [
      | inl x ↦ rw x refl
      | inr x ↦ rw x (
          arrived-HasRequest ps venue a base quote req q
            (simulate_fill venue a req q ps.stress_multiplier (div ps.quote_drift_pct (dec 100))) l)
    ]

-- A leg reports its own request, and no more than its amount.
abbrev Fits : OrderRequest → OrderResult → Type 0
Fits req r = (r.request ≡ req) × (r.filled ≤ℤ req.amount)

within_amount :
    (req : OrderRequest) (l : PaperLedger) (run : LegRun)
    → pos 0 ≤ℤ req.amount
    → IsLegRun req l run
    → IfSome (λ r. r.filled ≤ℤ req.amount) run.result
within_amount req l run h (inl k) = subst (IfSome (λ r. r.filled ≤ℤ req.amount)) (sym k.1) k.3
within_amount req l run h (inr (inl k)) =
    subst (IfSome (λ r. r.filled ≤ℤ req.amount)) (sym k.1) (rw k.2 h)
within_amount req l run h (inr (inr k)) = subst (IfSome (λ r. r.filled ≤ℤ req.amount)) (sym k.0) tt

both_hold :
    (req : OrderRequest) (o : Option OrderResult)
    → IfSome (λ r. r.request ≡ req) o
    → IfSome (λ r. r.filled ≤ℤ req.amount) o
    → IfSome (Fits req) o
both_hold req none h k = tt
both_hold req (some r) h k = (h, k)

execute_leg-Fits :
    (ps : PaperSettings) (venue : Venue) (a : Arrival) (req : OrderRequest) (q : ExecutionQuote)
    (l : PaperLedger)
    → pos 0 ≤ℤ req.amount
    → pos 0 ≤ℤ ps.fill_ratio_on_partial
    → IfSome (Fits req) (execute_leg ps venue a req q l).result
unfolding execute_leg
execute_leg-Fits ps venue a req q l h k =
    both_hold req _
      (execute_pair-HasRequest ps venue a (split_pair (before_colon req.symbol)) req q l)
      (within_amount req l _ h (execute_leg-IsLegRun ps venue a req q l h k))

after_leg-result :
    (lv asset : String) (side : OrderSide) (amount : Decimal) (q : ExecutionQuote) (run : LegRun)
    (o : Option OrderResult)
    → (after_leg lv asset side amount q run o).1 ≡ o
after_leg-result lv asset side amount q run none = refl
after_leg-result lv asset side amount q run (some r) = refl

after_reserve-Fits :
    (ps : PaperSettings) (req : OrderRequest) (c : Candidate) (asset : String)
    (r : PaperLedger × Outcome (Unit {0}))
    → pos 0 ≤ℤ req.amount
    → pos 0 ≤ℤ ps.fill_ratio_on_partial
    → IfSome (Fits req) (after_reserve ps req c asset r).1
after_reserve-Fits ps req c asset (l, insufficient) h k = tt
after_reserve-Fits ps req c asset (l, done _) h k =
    let run = execute_leg ps c.at.venue c.at.arrival req c.quote l in
    subst (IfSome (Fits req))
      (sym (
        after_leg-result (ledger_venue c.at.venue) asset req.side req.amount c.quote run
          run.result))
      (execute_leg-Fits ps c.at.venue c.at.arrival req c.quote l h k)

attempt-Fits :
    (ps : PaperSettings) (req : OrderRequest) (c : Candidate) (asset : String) (tol : Decimal)
    (l : Option PaperLedger)
    → pos 0 ≤ℤ req.amount
    → pos 0 ≤ℤ ps.fill_ratio_on_partial
    → IfSome (Fits req) (attempt true ps req c asset tol l).1
unfolding paper_attempt
attempt-Fits ps req c asset tol none h k = tt
attempt-Fits ps req c asset tol (some l) h k = after_reserve-Fits ps req c asset _ h k

abbrev All : (Candidate → Type 0) → List Candidate → Type 0
All P [] = Unit
All P (c ∷ cs) = P c × All P cs

-- The candidate is not at a venue that is excluded.
abbrev IsAllowed : List String → Candidate → Type 0
IsAllowed exclude c = contains c.at.venue.name exclude ≡ false

module _ (P : Candidate → Type 0) where
  guarded :
      (b : Bool) (o : Option Candidate)
      → (b ≡ false → IfSome P o)
      → IfSome P (if b then none else o)
  guarded true o h = tt
  guarded false o h = h refl

  All-first_n : (n : ℕ) (cs : List Candidate) → All P cs → All P (first_n n cs)
  unfolding first_n
  All-first_n zero cs h = tt
  All-first_n (suc n) [] h = tt
  All-first_n (suc n) (c ∷ cs) h = (h.0, All-first_n n cs h.1)

  All-insert :
      (c : Candidate) (ds : List Candidate) → P c → All P ds → All P (insert_candidate c ds)
  unfolding insert_candidate
  All-insert c [] p h = (p, tt)
  All-insert c (d ∷ ds) p h = elim (Bool-cases (leb_ℤ c.score d.score)) [
    | inl x ↦ rw x (p, h)
    | inr x ↦ rw x (h.0, All-insert c ds p h.1)
  ]

  All-sort : (cs : List Candidate) → All P cs → All P (sort_candidates cs)
  unfolding sort_candidates
  All-sort [] h = tt
  All-sort (c ∷ cs) h = All-insert c (sort_candidates cs) h.0 (All-sort cs h.1)

  All-push :
      (o : Option Candidate) (cs : List Candidate) → IfSome P o → All P cs → All P (push o cs)
  All-push none cs h k = k
  All-push (some c) cs h k = (h, k)

quoted-IsAllowed :
    (exclude : List String) (c : HedgeVenue) (q : Option ExecutionQuote)
    → contains c.venue.name exclude ≡ false
    → IfSome (IsAllowed exclude) (quoted c q)
quoted-IsAllowed exclude c none h = tt
quoted-IsAllowed exclude c (some q) h =
    elim (Bool-cases (not q.fully_fillable || leb_ℤ q.avg_price zero_dec)) [
      | inl x ↦ rw x tt
      | inr x ↦ rw x h
    ]

candidate_at-IsAllowed :
    (e : Engine) (exclude : List String) (asset : String) (c : HedgeVenue)
    → IfSome (IsAllowed exclude) (candidate_at e exclude asset c)
unfolding candidate_at
candidate_at-IsAllowed e exclude asset c =
    let allowed = IsAllowed exclude in
    guarded allowed (not c.connected || not c.supports || contains c.venue.name exclude) _ (λ x.
      guarded allowed (is_down c.health) _ (λ y.
        guarded allowed
          (leb_ℤ (Inventory.available e.inventory (ledger_venue c.venue) asset) zero_dec) _
          (λ z. quoted-IsAllowed exclude c c.quote (ground arith))))

candidates-IsAllowed :
    (e : Engine) (exclude : List String) (asset : String) (cs : List HedgeVenue)
    → All (IsAllowed exclude) (candidates e exclude asset cs)
unfolding candidates
candidates-IsAllowed e exclude asset [] = tt
candidates-IsAllowed e exclude asset (c ∷ cs) =
    All-push (IsAllowed exclude) (candidate_at e exclude asset c) (candidates e exclude asset cs)
      (candidate_at-IsAllowed e exclude asset c) (candidates-IsAllowed e exclude asset cs)

-- A result that fills something, of a request for this amount on this side at a venue that is not
-- excluded.
abbrev IsHedge : List String → OrderSide → Decimal → OrderResult → Type 0
IsHedge exclude side amount r =
    (pos 0 <ℤ r.filled)
    × (r.filled ≤ℤ amount)
    × (r.request.side ≡ side)
    × (contains r.request.venue exclude ≡ false)

attempt-IsHedge :
    (exclude : List String) (pair : String) (side : OrderSide) (amount tol : Decimal)
    (c : Candidate) (o : Option OrderResult)
    → IsAllowed exclude c
    → IfSome (Fits (hedge_request pair side amount tol c)) o
    → has_filled o ≡ true
    → IfSome (IsHedge exclude side amount) o
unfolding hedge_request
attempt-IsHedge exclude pair side amount tol c none a f h = tt
attempt-IsHedge exclude pair side amount tol c (some r) a f h =
    (ground arith, f.1, rw f.0 refl, rw f.0 a)

try_venues-IsHedge :
    (exclude : List String) (ps : PaperSettings) (pair : String) (side : OrderSide)
    (amount tol : Decimal) (asset : String) (cs : List Candidate) (l : Option PaperLedger)
    → pos 0 ≤ℤ amount
    → pos 0 ≤ℤ ps.fill_ratio_on_partial
    → All (IsAllowed exclude) cs
    → IfSome (IsHedge exclude side amount) (try_venues true ps pair side amount tol asset cs l).1
unfolding try_venues hedge_request
try_venues-IsHedge exclude ps pair side amount tol asset [] l h k a = tt
try_venues-IsHedge exclude ps pair side amount tol asset (c ∷ cs) l h k a =
    let req = hedge_request pair side amount tol c in
    let (l', r) = attempt true ps req c asset tol l in
    let f = attempt-Fits ps req c asset tol l h k in
    elim (Bool-cases (has_filled r)) [
      | inl x ↦ rw x (attempt-IsHedge exclude pair side amount tol c r a.0 f x)
      | inr x ↦ rw x (try_venues-IsHedge exclude ps pair side amount tol asset cs l' h k a.1)
    ]

-- What a hedge on the side of `hedge_side` fills, within the exposure, lowers it.
lowers : (x y : Decimal) → pos 0 <ℤ y → y ≤ℤ abs x → abs (x -ℤ signed (hedge_side x) y) <ℤ abs x
lowers x y h k = elim (Bool-cases (ltb_ℤ zero_dec x)) [
  | inl p ↦ rw p (grind int_laws)
  | inr p ↦ rw p (grind int_laws)
]

abbrev EndsHedged :
    List String → Decimal → Option (Option PaperLedger × Option OrderResult) → Type 0
EndsHedged exclude x = IfSome (λ p. IfSome (IsHedge exclude (hedge_side x) (abs x)) p.1)

split_and_hedge-EndsHedged :
    (ps : PaperSettings) (exclude : List String) (venues : List HedgeVenue) (e : Engine)
    (pair : String) (p : Option (String × String)) (x : Decimal)
    → on_paper e ≡ true
    → pos 0 ≤ℤ ps.fill_ratio_on_partial
    → EndsHedged exclude x (split_and_hedge ps exclude venues e pair p x)
unfolding hedge_pair
split_and_hedge-EndsHedged ps exclude venues e pair none x h k = tt
split_and_hedge-EndsHedged ps exclude venues e pair (some (base, quote)) x h k =
    let asset = spends_asset (hedge_side x) base quote in
    let cs = candidates e exclude asset venues in
    let P = IsAllowed exclude in
    let tol = div (mul e.settings.risk.max_slippage_pct (dec 3)) (dec 100) in
    rw h (
      try_venues-IsHedge exclude ps pair (hedge_side x) (abs x) tol asset
        (first_n 3 (sort_candidates cs)) e.ledger (omega arith) k
        (All-first_n P 3 (sort_candidates cs)
          (All-sort P cs (candidates-IsAllowed e exclude asset venues))))

hedge-EndsHedged :
    (ps : PaperSettings) (exclude : List String) (venues : List HedgeVenue) (e : Engine)
    (pair : String) (x : Decimal)
    → on_paper e ≡ true
    → pos 0 ≤ℤ ps.fill_ratio_on_partial
    → EndsHedged exclude x (hedge ps exclude venues e pair x)
unfolding hedge
hedge-EndsHedged ps exclude venues e pair x h k = elim (Bool-cases (eqb_ℤ x zero_dec)) [
  | inl z ↦ rw z tt
  | inr z ↦ rw z (split_and_hedge-EndsHedged ps exclude venues e pair (split_pair pair) x h k)
]

-- A hedge on paper that fills something, where the ratio of a partial fill is not negative,
-- leaves a smaller exposure, its fill being counted on the side of its order, and the order is
-- not at an excluded venue.
pub hedge-reduces :
    (ps : PaperSettings) (exclude : List String) (venues : List HedgeVenue) (e : Engine)
    (pair : String) (x : Decimal) {l : Option PaperLedger} {r : OrderResult}
    → on_paper e ≡ true
    → pos 0 ≤ℤ ps.fill_ratio_on_partial
    → hedge ps exclude venues e pair x ≡ some (l, some r)
    → (abs (x -ℤ hedge_sign (some r) r.filled) <ℤ abs x)
      × (contains r.request.venue exclude ≡ false)
hedge-reduces ps exclude venues e pair x {r = r} h k q =
    let g = subst (EndsHedged exclude x) q (hedge-EndsHedged ps exclude venues e pair x h k) in
    (rw g.2 (lowers x r.filled g.0 g.1), g.3)
