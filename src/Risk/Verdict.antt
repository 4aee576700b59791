-- ===== src/Risk/Verdict.antt =====
-- `assess` and `capital_breakdown` of engine/risk_engine.py.
use fedr.Base.{ℕ, Bool, List, ◌++◌, when, is_empty}
use fedr.Int.{ℤ, pos, ◌+ℤ◌, ◌-ℤ◌, ltb_ℤ, min_ℤ, max_ℤ}
use fedr.Decimal.{Decimal, zero_dec, pct_of}
use fedr.Settings.{AppSettings, RiskSettings}
use fedr.Risk.{
  PortfolioState, RiskRequest, Refusal, combined_slippage, score_too_high, stage_reasons,
  size_reasons, state_reasons, request_reasons,
}
use fedr.Risk.Score.{
  venues, capital_reasons, balance_reasons, reserve_reasons, all_health, slip_total, usage_score,
  soft_score,
}

pub record RiskAssessment : Type 0 where
  pub score : ℤ
  pub passed : Bool
  pub reasons : List Refusal

unfoldable pub score_of : AppSettings → RiskRequest → PortfolioState → ℕ → ℤ
score_of s q p now =
    let health_score = (all_health s.risk.allow_degraded_venues p (venues q)).0 in
    max_ℤ (pos 0)
      (min_ℤ (pos 100) (usage_score s.risk q p +ℤ health_score +ℤ soft_score s.risk q now))

-- The reasons in the order in which they are given.
unfoldable pub refusals : AppSettings → RiskRequest → PortfolioState → ℤ → List Refusal
refusals s q p score =
    let slip = slip_total q in
    stage_reasons s q
    ++ (size_reasons s q
        ++ (state_reasons s p
            ++ (request_reasons s q
                ++ (capital_reasons s.risk q p
                    ++ (balance_reasons s.risk q p
                        ++ (reserve_reasons q p
                            ++ ((all_health s.risk.allow_degraded_venues p (venues q)).1
                                ++ (when (ltb_ℤ s.risk.max_slippage_pct slip)
                                      (combined_slippage slip s.risk.max_slippage_pct)
                                    ++ when (ltb_ℤ s.trading.max_risk_score score)
                                        (score_too_high score s.trading.max_risk_score)))))))))

unfoldable pub assess : AppSettings → RiskRequest → PortfolioState → ℕ → RiskAssessment
assess s q p now =
    let score = score_of s q p now in
    let reasons = refusals s q p score in
    record { score = score; passed = is_empty reasons; reasons = reasons }

pub record CapitalBreakdown : Type 0 where
  pub total : Decimal
  pub usable : Decimal
  pub reserved : Decimal
  pub emergency_reserve : Decimal
  pub inventory_reserve : Decimal
  pub gas_reserve : Decimal
  pub at_risk : Decimal

unfoldable pub capital_breakdown : RiskSettings → Decimal → Decimal → Decimal → CapitalBreakdown
capital_breakdown r total_usd reserved_gas_usd at_risk_usd =
    let emergency = min_ℤ total_usd r.emergency_reserve_usd in
    let inventory = pct_of (total_usd -ℤ emergency) r.inventory_reserve_pct in
    record {
      total = total_usd;
      usable = max_ℤ zero_dec (total_usd -ℤ emergency -ℤ inventory -ℤ reserved_gas_usd);
      reserved = emergency +ℤ inventory +ℤ reserved_gas_usd;
      emergency_reserve = emergency;
      inventory_reserve = inventory;
      gas_reserve = reserved_gas_usd;
      at_risk = at_risk_usd;
    }
