-- ===== src/Risk/Safety.antt =====
-- What `assess` of engine/risk_engine.py guarantees of a trade that it lets pass.
use fedr.Base.{
  ◌⊎◌, ℕ, String, ◌≡◌, refl, true, false, not, ◌||◌, Option, none, some, List, [], ◌∷◌, map, arith,
  when, is_none, is_empty, empty_parts, ◌==◌, eq_iff, Bool-cases, inl, inr,
}
use fedr.Int.{ℤ, pos, ◌+ℤ◌, ◌-ℤ◌, ◌≤ℤ◌, ◌<ℤ◌, ltb_ℤ, min_ℤ, max_ℤ, int_laws}
use fedr.Decimal.{Decimal, zero_dec, pct_of}
use fedr.Models.{strategy_value, live}
use fedr.Settings.{AppSettings, LiveActivationState, RiskSettings}
use fedr.Risk.{
  PortfolioState, RiskRequest, breaker, stage_reasons, small_test_reasons, route_reasons, route,
  size_reasons, state_reasons, request_reasons, is_listed, small_live_test_max_notional_usd,
  is_flash_loan, gas_too_high, not_allowlisted, test_flash_loan, test_strategy,
}
use fedr.Risk.Limits.{IsLoanBounded, IsCapitalBounded, loan_reasons-none, capital_reasons-none}
use fedr.Risk.Funded.{
  IsFunded, HasGas, IsFit, balance_reasons-none, reserve_reasons-none, all_health-none,
}
use fedr.Risk.Score.{
  health, capital_reasons, balance_reasons, reserve_reasons, all_health, venues, slip_total,
}
use fedr.Risk.Verdict.{assess, refusals, score_of, capital_breakdown}

-- The hard limits that a trade which passes keeps.
pub record IsWithinLimits (s : AppSettings) (q : RiskRequest) (p : PortfolioState) (score : ℤ)
    : Type 0 where
  pub at_most : is_none q.flash_loan_usd ≡ true → q.notional_usd ≤ℤ s.trading.max_trade_size_usd
  pub at_least : s.trading.min_trade_size_usd ≤ℤ q.notional_usd
  pub no_breaker : p.active_breakers ≡ []
  pub free_slot : p.open_trades <ℤ s.risk.max_concurrent_trades
  pub loss_bounded : zero_dec -ℤ s.risk.max_daily_loss_usd <ℤ p.daily_realized_pnl_usd
  pub few_failures : p.failed_trades_last_hour <ℤ s.risk.max_failed_trades_per_hour
  pub hedged : p.unhedged_seconds ≤ℤ s.risk.max_unhedged_seconds
  pub gas_bounded : q.gas_usd ≤ℤ s.risk.max_gas_usd
  pub base_listed : is_listed q.base s.risk.asset_allowlist ≡ true
  pub quote_listed : is_listed q.quote s.risk.asset_allowlist ≡ true
  pub slip_bounded : slip_total q ≤ℤ s.risk.max_slippage_pct
  pub score_bounded : score ≤ℤ s.trading.max_risk_score
  pub loan_bounded : IsLoanBounded s q.gas_usd q.flash_loan_usd
  pub capital_bounded : IsCapitalBounded s.risk q p
  pub funded : (is_none q.flash_loan_usd ≡ false) ⊎ IsFunded s.risk q p
  pub buy_gas : HasGas p q.buy.kind q.buy.chain
  pub sell_gas : HasGas p q.sell.kind q.sell.chain
  pub buy_fit : IsFit s.risk.allow_degraded_venues (health p q.buy.venue)
  pub sell_fit : IsFit s.risk.allow_degraded_venues (health p q.sell.venue)

map-breaker_none : (xs : List String) → is_empty (map breaker xs) ≡ true → xs ≡ []
map-breaker_none [] h = refl
map-breaker_none (_ ∷ _) h = ground arith

size_reasons-none :
    (s : AppSettings) (q : RiskRequest)
    → is_empty (size_reasons s q) ≡ true
    → (is_none q.flash_loan_usd ≡ true → q.notional_usd ≤ℤ s.trading.max_trade_size_usd)
      × (s.trading.min_trade_size_usd ≤ℤ q.notional_usd)
unfolding size_reasons
size_reasons-none s q h = (λ f. ground arith, ground arith)

state_reasons-none :
    (s : AppSettings) (p : PortfolioState)
    → is_empty (state_reasons s p) ≡ true
    → (p.active_breakers ≡ [])
      × (p.open_trades <ℤ s.risk.max_concurrent_trades)
      × (zero_dec -ℤ s.risk.max_daily_loss_usd <ℤ p.daily_realized_pnl_usd)
      × (p.failed_trades_last_hour <ℤ s.risk.max_failed_trades_per_hour)
      × (p.unhedged_seconds ≤ℤ s.risk.max_unhedged_seconds)
unfolding state_reasons
state_reasons-none s p h =
    let (b, r) = empty_parts (map breaker p.active_breakers) _ h in
    (map-breaker_none p.active_breakers b, ground arith, ground arith, ground arith, ground arith)

request_reasons-none :
    (s : AppSettings) (q : RiskRequest)
    → is_empty (request_reasons s q) ≡ true
    → (q.gas_usd ≤ℤ s.risk.max_gas_usd)
      × (is_listed q.base s.risk.asset_allowlist ≡ true)
      × (is_listed q.quote s.risk.asset_allowlist ≡ true)
      × IsLoanBounded s q.gas_usd q.flash_loan_usd
unfolding request_reasons
request_reasons-none s q h =
    let (_, r) =
      empty_parts
        (when (ltb_ℤ s.risk.max_gas_usd q.gas_usd) (gas_too_high q.gas_usd s.risk.max_gas_usd)) _
        h in
    let (_, l) =
      empty_parts
        (when
          (not (is_listed q.base s.risk.asset_allowlist)
            || not (is_listed q.quote s.risk.asset_allowlist))
          (not_allowlisted q.base q.quote))
        _ r in
    (ground arith, ground arith, ground arith, loan_reasons-none s q.gas_usd q.flash_loan_usd l)

-- The parts of the refusals that the theorems read.
refusals-none :
    (s : AppSettings) (q : RiskRequest) (p : PortfolioState) (score : ℤ)
    → is_empty (refusals s q p score) ≡ true
    → (is_empty (stage_reasons s q) ≡ true)
      × (is_empty (size_reasons s q) ≡ true)
      × (is_empty (state_reasons s p) ≡ true)
      × (is_empty (request_reasons s q) ≡ true)
      × (slip_total q ≤ℤ s.risk.max_slippage_pct)
      × (score ≤ℤ s.trading.max_risk_score)
      × (is_empty (capital_reasons s.risk q p) ≡ true)
      × (is_empty (balance_reasons s.risk q p) ≡ true)
      × (is_empty (reserve_reasons q p) ≡ true)
      × (is_empty (all_health s.risk.allow_degraded_venues p (venues q)).1 ≡ true)
unfolding refusals
refusals-none s q p score h =
    let (a, r1) = empty_parts (stage_reasons s q) _ h in
    let (b, r2) = empty_parts (size_reasons s q) _ r1 in
    let (c, r3) = empty_parts (state_reasons s p) _ r2 in
    let (d, r4) = empty_parts (request_reasons s q) _ r3 in
    let (k, r5) = empty_parts (capital_reasons s.risk q p) _ r4 in
    let (m, r6) = empty_parts (balance_reasons s.risk q p) _ r5 in
    let (g, r7) = empty_parts (reserve_reasons q p) _ r6 in
    let (t, r8) = empty_parts (all_health s.risk.allow_degraded_venues p (venues q)).1 _ r7 in
    (a, b, c, d, ground arith, ground arith, k, m, g, t)

-- A trade that passes keeps the hard limits on its size and on its flash loan, on the state of the
-- portfolio, on its gas, its assets and its slippage, and its risk score is not above the maximum. With
-- capital, the share it uses and the exposures to the venues, the chains and the asset are within their
-- limits; without capital, it requires none or borrows. Unless it borrows, the balances cover both legs.
-- No leg on a decentralised exchange has a gas reserve known to be low, and both venues are healthy, or degraded
-- where that is allowed.
pub assess-IsWithinLimits :
    (s : AppSettings) (q : RiskRequest) (p : PortfolioState) (now : ℕ)
    → (assess s q p now).passed ≡ true
    → IsWithinLimits s q p (assess s q p now).score
unfolding assess
assess-IsWithinLimits s q p now h =
    let (_, b, c, d, e, f, k, m, g, t) = refusals-none s q p (score_of s q p now) h in
    let (hi, lo) = size_reasons-none s q b in
    let (br, op, pl, fa, un) = state_reasons-none s p c in
    let (ga, ba, qu, lo') = request_reasons-none s q d in
    let (bg, sg) = reserve_reasons-none q p g in
    let (bf, sf) = all_health-none s.risk.allow_degraded_venues q p t in
    record {
      at_most = hi;
      at_least = lo;
      no_breaker = br;
      free_slot = op;
      loss_bounded = pl;
      few_failures = fa;
      hedged = un;
      gas_bounded = ga;
      base_listed = ba;
      quote_listed = qu;
      slip_bounded = e;
      score_bounded = f;
      loan_bounded = lo';
      capital_bounded = capital_reasons-none s.risk q p k;
      funded = balance_reasons-none s.risk q p m;
      buy_gas = bg;
      sell_gas = sg;
      buy_fit = bf;
      sell_fit = sf;
    }

-- What the small live test allows: no flash loan, one strategy, one route, a tiny size.
pub record IsSmallTest (l : LiveActivationState) (q : RiskRequest) : Type 0 where
  pub no_loan : is_none q.flash_loan_usd ≡ true
  pub same_strategy : strategy_value q.strategy ≡ l.small_test_strategy
  pub same_route : l.small_test_route ≡ some (route q)
  pub tiny : q.notional_usd ≤ℤ small_live_test_max_notional_usd

route_reasons-none :
    (o : Option String) (r : String) → is_empty (route_reasons o r) ≡ true → o ≡ some r
route_reasons-none none r h = ground arith
route_reasons-none (some x) r h = grind (arith, eq_iff r x)

small_test_reasons-none :
    (l : LiveActivationState) (q : RiskRequest)
    → is_empty (small_test_reasons l q) ≡ true
    → IsSmallTest l q
unfolding small_test_reasons
small_test_reasons-none l q h =
    let (f, r1) =
      empty_parts
        (when (not (is_none q.flash_loan_usd) || is_flash_loan q.strategy) test_flash_loan) _ h in
    let (v, r2) =
      empty_parts
        (when (not (strategy_value q.strategy == l.small_test_strategy))
          (test_strategy l.small_test_strategy (strategy_value q.strategy)))
        _ r1 in
    let (o, r3) = empty_parts (route_reasons l.small_test_route (route q)) _ r2 in
    record {
      no_loan = ground arith;
      same_strategy = grind (arith, eq_iff (strategy_value q.strategy) l.small_test_strategy);
      same_route = route_reasons-none l.small_test_route (route q) o;
      tiny = ground arith;
    }

stage_reasons-none :
    (s : AppSettings) (q : RiskRequest)
    → s.general.mode ≡ live
    → (s.live.stage == "full") ≡ false
    → is_empty (stage_reasons s q) ≡ true
    → is_empty (small_test_reasons s.live q) ≡ true
unfolding stage_reasons
stage_reasons-none s q m st = rw (m, st) (λ h. h)

-- In live mode, until the stage is "full", the risk engine passes only trades without a flash loan,
-- of the selected strategy, on the selected route, of at most 25 USD.
pub assess-IsSmallTest :
    (s : AppSettings) (q : RiskRequest) (p : PortfolioState) (now : ℕ)
    → s.general.mode ≡ live
    → (s.live.stage == "full") ≡ false
    → (assess s q p now).passed ≡ true
    → IsSmallTest s.live q
unfolding assess
assess-IsSmallTest s q p now m st h =
    let a = (refusals-none s q p (score_of s q p now) h).0 in
    small_test_reasons-none s.live q (stage_reasons-none s q m st a)

-- The score is a number from 0 to 100.
pub score_of_bounds :
    (s : AppSettings) (q : RiskRequest) (p : PortfolioState) (now : ℕ)
    → (pos 0 ≤ℤ (assess s q p now).score) × ((assess s q p now).score ≤ℤ pos 100)
unfolding assess score_of
score_of_bounds s q p now = (ground arith, ground arith)

split_capital :
    (total e i g : Decimal)
    → let usable = max_ℤ zero_dec (total -ℤ e -ℤ i -ℤ g) in
      (total ≤ℤ usable +ℤ (e +ℤ i +ℤ g)) × ((usable ≡ zero_dec) ⊎ (usable +ℤ (e +ℤ i +ℤ g) ≡ total))
split_capital total e i g =
    let x = total -ℤ e -ℤ i -ℤ g in
    elim (Bool-cases (ltb_ℤ zero_dec x)) [
      | inl h ↦ rw h (omega int_laws, inr (omega int_laws))
      | inr h ↦ rw h (grind int_laws, inl refl)
    ]

-- What is usable and what is reserved together are never less than the capital, and are exactly the
-- capital unless nothing is usable.
pub capital_breakdown_lem :
    (r : RiskSettings) (total_usd gas_usd at_risk_usd : Decimal)
    → let b = capital_breakdown r total_usd gas_usd at_risk_usd in
      (b.total ≤ℤ b.usable +ℤ b.reserved)
      × ((b.usable ≡ zero_dec) ⊎ (b.usable +ℤ b.reserved ≡ b.total))
unfolding capital_breakdown
capital_breakdown_lem r total gas risk =
    let e = min_ℤ total r.emergency_reserve_usd in
    split_capital total e (pct_of (total -ℤ e) r.inventory_reserve_pct) gas
