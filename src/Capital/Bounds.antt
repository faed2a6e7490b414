-- ===== src/Capital/Bounds.antt =====
-- The bounds of a strategy's capital multiplier.
use blessing_ai.Prelude.{ℕ, ◌*◌, ◌≤◌, ◌<◌, ◌≡◌, ◌⊎◌, inl, inr, String, true, arith, ap, ◌∙◌}
use blessing_ai.Prelude.Int.{ℤ, pos, leb_ℤ}
use blessing_ai.Capital.{
  WealthPerformanceMetrics, DynamicCapitalAllocator, perf_factor, dd_factor, const_factor,
  rel_factor, quantize, scaled_multiplier, evaluate_allocation,
}

scaled_bounds :
    (a : DynamicCapitalAllocator) (raw : ℕ)
    → a.min_multiplier ≤ a.max_multiplier
    → (quantize (a.min_multiplier * 100000000) ≤ scaled_multiplier a raw)
      × (scaled_multiplier a raw ≤ quantize (a.max_multiplier * 100000000))
unfolding quantize scaled_multiplier
scaled_bounds a raw le = ground arith

no_capital : (a : DynamicCapitalAllocator) → a.min_multiplier ≡ 0 → scaled_multiplier a 0 ≡ 0
unfolding quantize scaled_multiplier
no_capital a z = ground arith

no_factor : (b p d c r : ℕ) → d ≡ 0 → b * p * d * c * r ≡ 0
no_factor b p d c r h = rw h (ground arith)

-- The multiplier of any verdict is at most the largest multiplier, rounded to hundredths, if that is
-- not less than the smallest; and at least the smallest, rounded so, unless an unknown risk was
-- observed or a critical incident is active.
pub allocation_bounded :
    (hundredth : ℕ) (a : DynamicCapitalAllocator) (strategy : String) (m : WealthPerformanceMetrics)
    (drawdown : ℤ) (critical high base : ℕ)
    → a.min_multiplier ≤ a.max_multiplier
    → let v = evaluate_allocation hundredth a strategy m drawdown critical high base in
      (v.scaled_allocation_multiplier ≤ quantize (a.max_multiplier * 100000000))
      × ((0 < m.unknown_risk_violations)
          ⊎ (0 < critical)
          ⊎ (quantize (a.min_multiplier * 100000000) ≤ v.scaled_allocation_multiplier))
unfolding evaluate_allocation
allocation_bounded hundredth a strategy m drawdown critical high base le =
    let p = perf_factor hundredth m.sharpe_ratio in
    let d = dd_factor hundredth drawdown in
    let c = const_factor hundredth m.profit_factor m.expectancy_usdt in
    let r = rel_factor high in let b = scaled_bounds a (base * p * d * c * r) le in ground arith

-- No new capital: the multiplier is 0 if an unknown risk was observed, or a critical incident is
-- active, or the drawdown is 6 percent or more and the allocator's smallest multiplier is 0.
pub capital_held :
    (hundredth : ℕ) (a : DynamicCapitalAllocator) (strategy : String) (m : WealthPerformanceMetrics)
    (drawdown : ℤ) (critical high base : ℕ)
    → 0 < hundredth
    → (0 < m.unknown_risk_violations)
      ⊎ (0 < critical)
      ⊎ ((leb_ℤ (pos (600 * hundredth)) drawdown ≡ true) × (a.min_multiplier ≡ 0))
    → let v = evaluate_allocation hundredth a strategy m drawdown critical high base in
      v.scaled_allocation_multiplier ≡ 0
unfolding evaluate_allocation
capital_held hundredth a strategy m drawdown critical high base unit (inl h) = ground arith
capital_held hundredth a strategy m drawdown critical high base unit (inr (inl h)) = ground arith
capital_held hundredth a strategy m drawdown critical high base unit (inr (inr (h, z))) =
    let p = perf_factor hundredth m.sharpe_ratio in
    let d = dd_factor hundredth drawdown in
    let c = const_factor hundredth m.profit_factor m.expectancy_usdt in
    let r = rel_factor high in
    let off : d ≡ 0 = ground arith in
    let zero_raw : scaled_multiplier a (base * p * d * c * r) ≡ 0 =
      ap (scaled_multiplier a) (no_factor base p d c r off) ∙ no_capital a z in
    ground (arith, zero_raw)
