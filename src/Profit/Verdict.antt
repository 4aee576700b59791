-- ===== src/Profit/Verdict.antt =====
-- The end of `assess` of engine/profit_guard.py: the result that its parts give.
use fedr.Base.{ℕ, Option, none, some, List, [], ◌∷◌, ◌++◌, if◌then◌else◌}
use fedr.Int.{◌+ℤ◌, ◌-ℤ◌, ltb_ℤ, leb_ℤ}
use fedr.Decimal.{Decimal, zero_dec, pct}
use fedr.Models.{blocked}
use fedr.Profit.{
  CostBreakdown, no_costs, total, FlashLoanTerms, ProfitGuardInputs, Reason, ProfitAssessment,
  size_is_zero,
}
use fedr.Profit.Steps.{gas_reasons}
use fedr.Profit.Assess.{
  trade_size, is_on_chain, buy_ref, sell_ref, buy_exec, all_costs, from_keys, min_profit, min_worst,
  depth_reasons, age_reasons, flash_reasons, extreme_reasons, unknown_reasons, min_reasons,
  gas_share_reasons, ratio_reasons, decide,
}

abbrev pub gas_cost : CostBreakdown → Decimal
gas_cost e = e.gas +ℤ e.priority_fee

abbrev pub gross_at : ProfitGuardInputs → Decimal → Decimal
gross_at inp size = sell_ref inp size -ℤ buy_ref inp size

abbrev pub expected_at : ProfitGuardInputs → Decimal → Decimal
expected_at inp size = gross_at inp size -ℤ total (all_costs inp size).exp

abbrev pub worst_at : ProfitGuardInputs → Decimal → Decimal
worst_at inp size = gross_at inp size -ℤ total (all_costs inp size).wc

-- A flash loan's principal is repaid in the same transaction, so only its costs need capital.
unfoldable pub capital_needed : Option FlashLoanTerms → Decimal → CostBreakdown → Decimal
capital_needed none paid e = paid +ℤ e.buy_trading_fee +ℤ e.gas +ℤ e.priority_fee
capital_needed (some _) paid e = e.gas +ℤ e.priority_fee +ℤ e.flash_loan_fee

abbrev pub capital_at : ProfitGuardInputs → Decimal → Decimal
capital_at inp size = capital_needed inp.flash_loan (buy_exec inp size) (all_costs inp size).exp

unfoldable pub roi_at : ProfitGuardInputs → Decimal → Decimal
roi_at inp size =
    if ltb_ℤ zero_dec (capital_at inp size)
    then pct (expected_at inp size) (capital_at inp size)
    else zero_dec

unfoldable pub reasons_at : ProfitGuardInputs → ℕ → Decimal → List Reason
reasons_at inp now size =
    let s = inp.settings in
    let c = all_costs inp size in
    let expected = expected_at inp size in
    let on_chain = is_on_chain inp in
    depth_reasons inp size
    ++ (age_reasons inp now
        ++ (gas_reasons s inp.gas on_chain
            ++ (flash_reasons s inp.flash_loan
                ++ (extreme_reasons inp.gas on_chain
                    ++ (unknown_reasons (from_keys c.unknown)
                        ++ (min_reasons expected (min_profit inp) (worst_at inp size)
                              (min_worst inp) (roi_at inp size) s.trading.min_roi_pct
                            ++ (gas_share_reasons s inp.gas on_chain (gross_at inp size)
                                  (gas_cost c.exp) expected
                                ++ ratio_reasons s inp.flash_loan (gas_cost c.exp) expected)))))))

-- `_blocked`
unfoldable pub blocked_by : ProfitGuardInputs → List Reason → ProfitAssessment
blocked_by inp reasons = record {
  gross_profit = zero_dec;
  expected_net_profit = zero_dec;
  worst_case_profit = zero_dec;
  capital_required = zero_dec;
  gross_spread_pct = zero_dec;
  expected_net_pct = zero_dec;
  worst_case_pct = zero_dec;
  net_roi_pct = zero_dec;
  required_min_profit = inp.settings.trading.min_profit_usd;
  required_min_worst_case = inp.settings.trading.min_worst_case_profit_usd;
  required_min_roi_pct = inp.settings.trading.min_roi_pct;
  expected_costs = no_costs;
  worst_case_costs = no_costs;
  unknown = [];
  decision = blocked;
  reasons = reasons;
}

unfoldable pub assess_at : ProfitGuardInputs → ℕ → Decimal → ProfitAssessment
assess_at inp now size =
    let c = all_costs inp size in
    let reasons = reasons_at inp now size in
    record {
      gross_profit = gross_at inp size;
      expected_net_profit = expected_at inp size;
      worst_case_profit = worst_at inp size;
      capital_required = capital_at inp size;
      gross_spread_pct =
          pct (inp.sell.reference_price -ℤ inp.buy.reference_price) inp.buy.reference_price;
      expected_net_pct = pct (expected_at inp size) (buy_ref inp size);
      worst_case_pct = pct (worst_at inp size) (buy_ref inp size);
      net_roi_pct = roi_at inp size;
      required_min_profit = min_profit inp;
      required_min_worst_case = min_worst inp;
      required_min_roi_pct = inp.settings.trading.min_roi_pct;
      expected_costs = c.exp;
      worst_case_costs = c.wc;
      unknown = from_keys c.unknown;
      decision = decide reasons;
      reasons = reasons;
    }

unfoldable pub assess : ProfitGuardInputs → ℕ → ProfitAssessment
assess inp now =
    if leb_ℤ (trade_size inp) zero_dec
    then blocked_by inp (size_is_zero ∷ [])
    else assess_at inp now (trade_size inp)
