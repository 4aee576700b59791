-- ===== src/Positions/Carry.antt =====
-- `mark`, `accrue_funding`, `accrue_due_funding` and `exit_reason` of engine/positions.py.
use fedr.Base.{
  ℕ, zero, suc, ◌+◌, ◌-◌, ◌*◌, String, Bool, true, Option, none, some, List, [], ◌∷◌, ◌++◌,
  if◌then◌else◌, length, leb,
}
use fedr.Int.{ℤ, pos, ◌+ℤ◌, ◌-ℤ◌, ltb_ℤ, leb_ℤ, eqb_ℤ}
use fedr.Decimal.{Decimal, zero_dec, dec, cents, mul, div, abs}
use fedr.Breakers.{CircuitBreakerManager, trip, funding_anomaly}
use fedr.Positions.{
  CarryPolicy, ExitReason, converged, funding_flipped, held_too_long, liquidation_near, widened,
  FundingPeriod, Position, PositionManager, Market, put,
}

-- The hours are milliseconds here, since they are only compared.
pub record Mark : Type 0 where
  pub spot_price : Decimal
  pub perp_price : Decimal
  pub basis_pct : Decimal
  pub unrealized_usd : Decimal
  pub funding_usd : Decimal
  pub liquidation_distance_pct : Decimal
  pub ms_open : ℤ

-- `book.best_bid if book and book.best_bid else ...`: None and 0 give way
abbrev pub price_or : Option Decimal → Decimal → Decimal
price_or none px = px
price_or (some x) px = if eqb_ℤ x zero_dec then px else x

abbrev pub since : ℕ → Option ℕ → ℤ
since now none = pos 0
since now (some t) = pos now -ℤ pos t

unfoldable pub mark : Market → Position → Mark
mark o p =
    let spot_px = price_or (o.best_bid p.spot_venue p.pair) p.entry_spot_price in
    let perp_px = price_or (o.best_ask p.perp_venue p.perp_symbol) p.entry_perp_price in
    let spot_pnl = mul (spot_px -ℤ p.entry_spot_price) p.size_base in
    let perp_pnl = mul (p.entry_perp_price -ℤ perp_px) p.size_base in
    record {
      spot_price = spot_px;
      perp_price = perp_px;
      basis_pct =
          if ltb_ℤ zero_dec spot_px
          then mul (div (perp_px -ℤ spot_px) spot_px) (dec 100)
          else zero_dec;
      unrealized_usd = spot_pnl +ℤ perp_pnl +ℤ p.funding_collected_usd -ℤ p.fees_usd;
      funding_usd = p.funding_collected_usd;
      liquidation_distance_pct =
          if ltb_ℤ zero_dec perp_px
          then mul (div (mul (mul (dec 2) p.entry_perp_price) (cents 95) -ℤ perp_px) perp_px)
              (dec 100)
          else zero_dec;
      ms_open = since o.now_ms p.opened_at_ms;
    }

-- The first exit rule that is met.
unfoldable pub exit_reason_for : CarryPolicy → Position → Mark → Option ExitReason
exit_reason_for c p m =
    if leb_ℤ m.basis_pct c.exit_basis_pct
    then some converged
    else if leb c.funding_flip_periods p.negative_funding_streak
    then some funding_flipped
    else if leb_ℤ (pos (c.max_hold_hours * 3600000)) m.ms_open
    then some held_too_long
    else if ltb_ℤ m.liquidation_distance_pct c.min_liquidation_distance_pct
    then some liquidation_near
    else if ltb_ℤ c.max_basis_widening_pct (m.basis_pct -ℤ p.entry_basis_pct)
    then some widened
    else none

-- `_funding_anomaly`, with a rate
unfoldable pub is_anomaly : CarryPolicy → Decimal → Bool
is_anomaly c rate = ltb_ℤ c.max_abs_funding_rate (abs rate)

abbrev pub carry_scope : String
carry_scope = "strategy:carry"

unfoldable pub note_anomaly :
    Market → CarryPolicy → Decimal → CircuitBreakerManager → CircuitBreakerManager
note_anomaly o c rate b =
    if is_anomaly c rate
    then (trip funding_anomaly "funding rate exceeds the limit" o.now_ms carry_scope true b).0
    else b

abbrev drop_first : ℕ → List FundingPeriod → List FundingPeriod
drop_first zero xs = xs
drop_first (suc n) [] = []
drop_first (suc n) (_ ∷ xs) = drop_first n xs

-- `periods[-200:]`
abbrev last_periods : List FundingPeriod → List FundingPeriod
last_periods xs = drop_first (length xs - 200) xs

unfoldable pub payment : Market → Decimal → Position → Decimal
payment o rate p = mul (mul rate (mark o p).perp_price) p.size_base

-- What the funding of one interval does to the position.
unfoldable pub funded : Market → Decimal → Position → Position
funded o rate p =
    let paid = payment o rate p in
    record p {
      funding_collected_usd = p.funding_collected_usd +ℤ paid;
      funding_periods =
          last_periods
            (p.funding_periods ++ record { ts = o.now_ms; rate = rate; payment_usd = paid } ∷ []);
      negative_funding_streak = if ltb_ℤ rate zero_dec then p.negative_funding_streak + 1 else 0;
    }

-- `accrue_funding`
unfoldable pub accrue_funding :
    Market → Option Decimal → Position → PositionManager → PositionManager
accrue_funding o none p m = m
accrue_funding o (some rate) p m =
    let e = record m.engine { breakers = note_anomaly o m.policy rate m.engine.breakers } in
    put (funded o rate p) (record m { engine = e })
