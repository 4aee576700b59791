-- ===== src/Hedge.antt =====
-- engine/execution/emergency_hedge.py: the trade that closes what a one-legged trade has left open.
pub mod Reduces
mod Tests
use fedr.Base.{
  ℕ, zero, suc, ◌/◌, String, Bool, true, false, not, ◌&&◌, ◌||◌, ◌==◌, Option, none, some, List, [],
  ◌∷◌, if◌then◌else◌, or_else, leb,
}
use fedr.Int.{ℤ, pos, negsuc, ◌+ℤ◌, ◌-ℤ◌, ltb_ℤ, leb_ℤ, eqb_ℤ, min_ℤ}
use fedr.Decimal.{Decimal, zero_dec, dec, mul, div, abs, unit}
use fedr.Ledger
use fedr.Ledger.{PaperLedger, Outcome, done, insufficient, OrderSide, buy, sell}
use fedr.Inventory
use fedr.Models.{
  ExecutionQuote, VenueHealth, healthy, degraded, unhealthy, blocked, unknown, VenueKind,
}
use fedr.Orders.{OrderRequest, OrderResult, Venue, split_pair}
use fedr.Paper.{PaperSettings, Arrival, LegRun, ledger_venue}
use fedr.Paper.Leg.{execute_leg, is_dex}
use fedr.Executor.{Engine}
use fedr.Executor.Reserving.{is_simulated, mode_of}

-- What the hedger reads of a connector, with the answers from outside: the health, the quote (None
-- for a ConnectorError), what a paper leg meets there, and what `place_order` gives (None for an
-- exception).
pub record HedgeVenue : Type 0 where
  pub venue : Venue
  pub connected : Bool
  pub supports : Bool
  pub health : VenueHealth
  pub quote : Option ExecutionQuote
  pub arrival : Arrival
  pub placed : Option OrderResult

pub record Candidate : Type 0 where
  pub score : ℤ
  pub at : HedgeVenue
  pub quote : ExecutionQuote

-- A positive exposure is sold, a negative one bought.
abbrev pub hedge_side : Decimal → OrderSide
hedge_side x = if ltb_ℤ zero_dec x then sell else buy

abbrev pub spends_asset : OrderSide → String → String → String
spends_asset sell base quote = base
spends_asset buy base quote = quote

abbrev pub is_down : VenueHealth → Bool
is_down unhealthy = true
is_down blocked = true
is_down healthy = false
is_down degraded = false
is_down unknown = false

abbrev is_healthy : VenueHealth → Bool
is_healthy healthy = true
is_healthy _ = false

abbrev pub contains : String → List String → Bool
contains x [] = false
contains x (y ∷ ys) = x == y || contains x ys

-- `int` of a Decimal
unfoldable pub truncate : Decimal → ℤ
truncate (pos n) = pos (n / unit)
truncate (negsuc n) = pos 0 -ℤ pos (suc n / unit)

unfoldable pub hedge_score : HedgeVenue → ExecutionQuote → ℤ
hedge_score c q =
    (if is_healthy c.health then pos 0 else pos 40)
    +ℤ truncate (mul (q.slippage_pct +ℤ q.price_impact_pct) (dec 100))
    +ℤ (if is_dex c.venue.kind then pos 25 else pos 0)
    -ℤ min_ℤ (pos 20) (pos q.levels_consumed)

abbrev quoted : HedgeVenue → Option ExecutionQuote → Option Candidate
quoted c none = none
quoted c (some q) =
    if not q.fully_fillable || leb_ℤ q.avg_price zero_dec
    then none
    else some (record { score = hedge_score c q; at = c; quote = q })

-- One round of the loop that looks for venues.
unfoldable pub candidate_at : Engine → List String → String → HedgeVenue → Option Candidate
candidate_at e exclude asset c =
    if not c.connected || not c.supports || contains c.venue.name exclude
    then none
    else if is_down c.health
    then none
    else if leb_ℤ (Inventory.available e.inventory (ledger_venue c.venue) asset) zero_dec
    then none
    else quoted c c.quote

abbrev pub push : Option Candidate → List Candidate → List Candidate
push none cs = cs
push (some c) cs = c ∷ cs

unfoldable pub candidates : Engine → List String → String → List HedgeVenue → List Candidate
candidates e exclude asset [] = []
candidates e exclude asset (c ∷ cs) =
    push (candidate_at e exclude asset c) (candidates e exclude asset cs)

-- `sort` by the score, which is stable
unfoldable pub insert_candidate : Candidate → List Candidate → List Candidate
insert_candidate c [] = c ∷ []
insert_candidate c (d ∷ ds) =
    if leb_ℤ c.score d.score then c ∷ d ∷ ds else d ∷ insert_candidate c ds

unfoldable pub sort_candidates : List Candidate → List Candidate
sort_candidates [] = []
sort_candidates (c ∷ cs) = insert_candidate c (sort_candidates cs)

unfoldable pub first_n : ℕ → List Candidate → List Candidate
first_n zero cs = []
first_n (suc n) [] = []
first_n (suc n) (c ∷ cs) = c ∷ first_n n cs

abbrev limit_at : OrderSide → Decimal → Decimal → Decimal
limit_at sell px tol = mul px (dec 1 -ℤ tol)
limit_at buy px tol = mul px (dec 1 +ℤ tol)

abbrev least_at : OrderSide → Decimal → Decimal → Option Decimal
least_at sell amount tol = some (mul amount (dec 1 -ℤ tol))
least_at buy amount tol = none

unfoldable pub hedge_request : String → OrderSide → Decimal → Decimal → Candidate → OrderRequest
hedge_request pair side amount tol c = record {
  venue = c.at.venue.name;
  symbol = pair;
  side = side;
  amount = amount;
  limit_price = some (limit_at side c.quote.avg_price tol);
  min_received = least_at side c.quote.quote_amount tol;
  reduce_only = false;
  quoted_price = some c.quote.avg_price;
}

-- What a paper hedge sets aside first.
abbrev pub set_aside : OrderSide → Decimal → Decimal → ExecutionQuote → Decimal
set_aside sell amount tol q = amount
set_aside buy amount tol q =
    mul (mul q.quote_amount (dec 1 +ℤ tol)) (dec 1 +ℤ div (or_else q.fee_pct zero_dec) (dec 100))

-- What it gives back of that for the part that is not filled.
abbrev pub given_back : OrderSide → Decimal → ExecutionQuote → Decimal
given_back sell rest q = rest
given_back buy rest q = mul rest q.avg_price

abbrev pub after_leg :
    String
    → String
    → OrderSide
    → Decimal
    → ExecutionQuote
    → LegRun
    → Option OrderResult
    → PaperLedger × Option OrderResult
after_leg lv asset side amount q run none = (run.ledger, none)
after_leg lv asset side amount q run (some res) =
    let rest = amount -ℤ res.filled in
    (
      if ltb_ℤ res.filled amount
          then Ledger.release lv asset (given_back side rest q) run.ledger
          else run.ledger,
      some res,
    )

abbrev pub after_reserve :
    PaperSettings
    → OrderRequest
    → Candidate
    → String
    → PaperLedger × Outcome (Unit {0})
    → PaperLedger × Option OrderResult
after_reserve ps req c asset (l, insufficient) = (l, none)
after_reserve ps req c asset (l, done _) =
    let run = execute_leg ps c.at.venue c.at.arrival req c.quote l in
    after_leg (ledger_venue c.at.venue) asset req.side req.amount c.quote run run.result

-- A paper attempt at one venue; None for an exception.
unfoldable pub paper_attempt :
    PaperSettings
    → OrderRequest
    → Candidate
    → String
    → Decimal
    → PaperLedger
    → PaperLedger × Option OrderResult
paper_attempt ps req c asset tol l =
    after_reserve ps req c asset
      (Ledger.reserve (ledger_venue c.at.venue) asset (set_aside req.side req.amount tol c.quote) l)

-- On paper without a ledger the attempt raises.
abbrev pub attempt :
    Bool
    → PaperSettings
    → OrderRequest
    → Candidate
    → String
    → Decimal
    → Option PaperLedger
    → Option PaperLedger × Option OrderResult
attempt false ps req c asset tol l = (l, c.at.placed)
attempt true ps req c asset tol none = (none, none)
attempt true ps req c asset tol (some l) =
    let (l', r) = paper_attempt ps req c asset tol l in (some l', r)

abbrev has_filled : Option OrderResult → Bool
has_filled none = false
has_filled (some r) = ltb_ℤ zero_dec r.filled

-- The loop over the best venues, until one fills something.
unfoldable pub try_venues :
    Bool
    → PaperSettings
    → String
    → OrderSide
    → Decimal
    → Decimal
    → String
    → List Candidate
    → Option PaperLedger
    → Option PaperLedger × Option OrderResult
try_venues paper ps pair side amount tol asset [] l = (l, none)
try_venues paper ps pair side amount tol asset (c ∷ cs) l =
    let (l', r) = attempt paper ps (hedge_request pair side amount tol c) c asset tol l in
    let rest = try_venues paper ps pair side amount tol asset cs l' in
    if has_filled r then (l', r) else rest

abbrev pub on_paper : Engine → Bool
on_paper e = is_simulated (mode_of e) && e.has_paper_executor

unfoldable pub hedge_pair :
    PaperSettings
    → List String
    → List HedgeVenue
    → Engine
    → String
    → String
    → String
    → Decimal
    → Option PaperLedger × Option OrderResult
hedge_pair ps exclude venues e pair base quote x =
    let side = hedge_side x in
    let asset = spends_asset side base quote in
    let tol = div (mul e.settings.risk.max_slippage_pct (dec 3)) (dec 100) in
    try_venues (on_paper e) ps pair side (abs x) tol asset
      (first_n 3 (sort_candidates (candidates e exclude asset venues))) e.ledger

abbrev pub split_and_hedge :
    PaperSettings
    → List String
    → List HedgeVenue
    → Engine
    → String
    → Option (String × String)
    → Decimal
    → Option (Option PaperLedger × Option OrderResult)
split_and_hedge ps exclude venues e pair none x = none
split_and_hedge ps exclude venues e pair (some (base, quote)) x =
    some (hedge_pair ps exclude venues e pair base quote x)

-- `hedge`; None if the pair is not one of two assets, which raises
unfoldable pub hedge :
    PaperSettings
    → List String
    → List HedgeVenue
    → Engine
    → String
    → Decimal
    → Option (Option PaperLedger × Option OrderResult)
hedge ps exclude venues e pair x =
    if eqb_ℤ x zero_dec
    then some (e.ledger, none)
    else split_and_hedge ps exclude venues e pair (split_pair pair) x
