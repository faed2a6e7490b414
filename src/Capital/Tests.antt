-- ===== src/Capital/Tests.antt =====
-- The capital allocator at concrete inputs. The unit of the metrics is a hundredth.
use blessing_ai.Prelude.{◌*◌, ◌≤◌, ◌<◌, ◌≡◌, refl, ◌⊎◌, inr, arith}
use blessing_ai.Prelude.Int.{pos}
use blessing_ai.Capital.{
  WealthPerformanceMetrics, DynamicCapitalAllocator, CapitalAllocationVerdict, quantize,
  scaled_multiplier, evaluate_allocation,
}
use blessing_ai.Capital.Bounds.{allocation_bounded, capital_held}

abbrev allocator : DynamicCapitalAllocator
allocator = record { min_multiplier = 0; max_multiplier = 1500000 }

-- a Sharpe ratio of 1.3, a profit factor of 1.6 and a positive expectancy
abbrev metrics : WealthPerformanceMetrics
metrics = record {
  unknown_risk_violations = 0;
  sharpe_ratio = pos 130;
  profit_factor = pos 160;
  expectancy_usdt = pos 5;
}

abbrev verdict : CapitalAllocationVerdict
verdict = evaluate_allocation 1 allocator "trend" metrics (pos 200) 0 1 1000000

-- 1.10 * 0.80 * 1.15 * 0.50 = 0.506, rounded to 0.51
rounded : verdict.scaled_allocation_multiplier ≡ 51
unfolding evaluate_allocation scaled_multiplier quantize
rounded = refl

allocation_bounded_example :
    (verdict.scaled_allocation_multiplier ≤ quantize (1500000 * 100000000))
    × ((0 < 0) ⊎ (0 < 0) ⊎ (quantize (0 * 100000000) ≤ verdict.scaled_allocation_multiplier))
allocation_bounded_example =
    allocation_bounded 1 allocator "trend" metrics (pos 200) 0 1 1000000 (omega arith)

capital_held_example :
    let v = evaluate_allocation 1 allocator "trend" metrics (pos 650) 0 0 1000000 in
    v.scaled_allocation_multiplier ≡ 0
capital_held_example =
    capital_held 1 allocator "trend" metrics (pos 650) 0 0 1000000 (omega arith)
      (inr (inr (refl, refl)))
