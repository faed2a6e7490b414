-- ===== src/Capital.antt =====
-- apps/learning_engine/capital_scaling.py: `DynamicCapitalAllocator`. Multipliers are millionths and
-- not negative, factors are hundredths, and the other decimals are whole numbers of a unit of which
-- `hundredth` make 0.01.
pub mod Bounds
mod Tests
use blessing_ai.Prelude.{ℕ, ◌+◌, ◌*◌, ◌/◌, String, Bool, true, false, ◌&&◌, ltb, if◌then◌else◌}
use blessing_ai.Prelude.Int.{ℤ, pos, ltb_ℤ, leb_ℤ}

-- The fields of `WealthPerformanceMetrics` that are read here.
pub record WealthPerformanceMetrics : Type 0 where
  pub unknown_risk_violations : ℕ
  pub sharpe_ratio : ℤ
  pub profit_factor : ℤ
  pub expectancy_usdt : ℤ

-- the three texts of a rationale
pub data Rationale : Type 0 where
  unknown_risk critical_incident composite : Rationale

pub record CapitalAllocationVerdict : Type 0 where
  pub strategy_id : String
  pub base_allocation_multiplier : ℕ
  -- in hundredths, as `quantize` gives it
  pub scaled_allocation_multiplier : ℕ
  pub performance_factor : ℕ
  pub drawdown_factor : ℕ
  pub consistency_factor : ℕ
  pub reliability_factor : ℕ
  pub rule_zero_compliant : Bool
  pub rationale : Rationale

pub record DynamicCapitalAllocator : Type 0 where
  pub min_multiplier : ℕ
  pub max_multiplier : ℕ

abbrev pub perf_factor : ℕ → ℤ → ℕ
perf_factor hundredth sharpe =
    if leb_ℤ (pos (180 * hundredth)) sharpe
    then 125
    else if leb_ℤ (pos (120 * hundredth)) sharpe
    then 110
    else if leb_ℤ (pos (80 * hundredth)) sharpe
    then 100
    else if ltb_ℤ (pos 0) sharpe
    then 85
    else 70

abbrev pub dd_factor : ℕ → ℤ → ℕ
dd_factor hundredth drawdown =
    if leb_ℤ drawdown (pos (100 * hundredth))
    then 100
    else if leb_ℤ drawdown (pos (250 * hundredth))
    then 80
    else if leb_ℤ drawdown (pos (400 * hundredth))
    then 50
    else if ltb_ℤ drawdown (pos (600 * hundredth))
    then 25
    else 0

abbrev pub const_factor : ℕ → ℤ → ℤ → ℕ
const_factor hundredth profit expectancy =
    if leb_ℤ (pos (150 * hundredth)) profit && ltb_ℤ (pos 0) expectancy
    then 115
    else if leb_ℤ (pos (120 * hundredth)) profit
    then 100
    else if leb_ℤ (pos (100 * hundredth)) profit
    then 85
    else 60

abbrev pub rel_factor : ℕ → ℕ
rel_factor active_high_incidents = if ltb 0 active_high_incidents then 50 else 100

abbrev pub min_of : ℕ → ℕ → ℕ
min_of a b = if ltb b a then b else a

abbrev pub max_of : ℕ → ℕ → ℕ
max_of a b = if ltb a b then b else a

-- `quantize` to hundredths, ROUND_HALF_UP, of a number of parts of which 10 ^ 12 make 0.01
unfoldable pub quantize : ℕ → ℕ
quantize n = (2 * n + 1000000000000) / 2000000000000

-- The clamped product of the base and the four factors: millionths and four times hundredths.
unfoldable pub scaled_multiplier : DynamicCapitalAllocator → ℕ → ℕ
scaled_multiplier a raw =
    quantize (max_of (a.min_multiplier * 100000000) (min_of (a.max_multiplier * 100000000) raw))

-- a verdict that holds all capital back
abbrev pub hold : String → ℕ → Bool → Rationale → CapitalAllocationVerdict
hold strategy base compliant why = record {
  strategy_id = strategy;
  base_allocation_multiplier = base;
  scaled_allocation_multiplier = 0;
  performance_factor = 0;
  drawdown_factor = 0;
  consistency_factor = 0;
  reliability_factor = 0;
  rule_zero_compliant = compliant;
  rationale = why;
}

unfoldable pub evaluate_allocation :
    ℕ
    → DynamicCapitalAllocator
    → String
    → WealthPerformanceMetrics
    → ℤ
    → ℕ
    → ℕ
    → ℕ
    → CapitalAllocationVerdict
evaluate_allocation hundredth a strategy m drawdown critical high base =
    let p = perf_factor hundredth m.sharpe_ratio in
    let d = dd_factor hundredth drawdown in
    let c = const_factor hundredth m.profit_factor m.expectancy_usdt in
    let r = rel_factor high in
    let verdict : CapitalAllocationVerdict = record {
      strategy_id = strategy;
      base_allocation_multiplier = base;
      scaled_allocation_multiplier = scaled_multiplier a (base * p * d * c * r);
      performance_factor = p;
      drawdown_factor = d;
      consistency_factor = c;
      reliability_factor = r;
      rule_zero_compliant = true;
      rationale = composite;
    } in
    if ltb 0 m.unknown_risk_violations
    then hold strategy base false unknown_risk
    else if ltb 0 critical
    then hold strategy base true critical_incident
    else verdict
