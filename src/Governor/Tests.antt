-- ===== src/Governor/Tests.antt =====
-- The risk governor at concrete inputs. The unit is a thousandth.
use blessing_ai.Prelude.{ℕ, ◌≤◌, ◌≡◌, ◌⊎◌, refl, true, false, some, none, List, [], ◌∷◌, arith}
use blessing_ai.Prelude.Int.{ℤ, pos, negsuc, abs, ◌+ℤ◌}
use blessing_ai.Domain.{
  MarketType, RiskState, EconomicRiskClass, TargetExposure, RiskSnapshot, finite, non_finite,
  amount, naive, aware,
}
use blessing_ai.Governor.{
  Governor, OrderIntent, ExecutionDecision, evaluate, judge, rejection, later_reason, classify_risk,
  is_position_reduction, order, rejected, drawdown_limit, crosses_zero, decided, order_decision,
}
use blessing_ai.Governor.Risk.{
  IsWellFormed, IsReduction, IsIncrease, IsWithinLimits, Submits, traded, submitted_order_lem,
  reduction_submitted,
}
use blessing_ai.Governor.Ids.{Request, IsIncreasing, ids_of_all, ids_increase}

abbrev governor : Governor
governor = record {
  max_leverage = pos 2000;
  max_drawdown_pct = pos 6000;
  max_margin_utilization_pct = pos 70000;
  hedge_mode = false;
  sequence = 0;
}

abbrev exposure_of : ℤ → TargetExposure
exposure_of delta = record {
  symbol = "BTCUSDT";
  market_type = MarketType.usdm_futures;
  target_net_delta_qty = finite delta;
  target_gross_limit_qty = finite (pos 5000);
  strategy_attributions = [];
  created_at = 0;
  expires_at = aware 60;
  exposure_id = "EXP-1";
  source_intent_ids = "I-1" ∷ [];
}

abbrev calm : RiskSnapshot
calm = record {
  margin_utilization_pct = finite (pos 10000);
  effective_leverage = finite (pos 1000);
  current_drawdown_pct = finite (pos 500);
  risk_state = some RiskState.normal;
}

-- past the drawdown limit, in a state that nobody knows
abbrev storm : RiskSnapshot
storm = record calm { current_drawdown_pct = finite (pos 9000); risk_state = none }

-- the governor buys into a long position while it is calm
buys :
    judge 1 governor (exposure_of (pos 500)) calm (finite (pos 1000)) 10
    ≡ order EconomicRiskClass.increase_risk
unfolding judge rejection later_reason classify_risk is_position_reduction
buys = refl

-- past the drawdown limit it does not
stops :
    judge 1 governor
      (exposure_of (pos 500))
      (record storm { risk_state = some RiskState.normal })
      (finite (pos 1000))
      10
    ≡ rejected drawdown_limit
unfolding judge rejection later_reason classify_risk is_position_reduction
stops = refl

-- a short of 1.5 on a long of 1 is two decisions
crosses :
    judge 1 governor (exposure_of (negsuc 1499)) calm (finite (pos 1000)) 10 ≡ rejected crosses_zero
unfolding judge rejection later_reason classify_risk is_position_reduction
crosses = refl

abbrev buy_decision : ExecutionDecision
buy_decision =
    order_decision governor (exposure_of (pos 500)) EconomicRiskClass.increase_risk (pos 500)
      (pos 1000) 10

bought :
    (evaluate 1 governor (exposure_of (pos 500)) calm (finite (pos 1000)) (aware 10) naive).0
    ≡ decided buy_decision
unfolding evaluate judge rejection later_reason classify_risk is_position_reduction
bought = refl

submitted_order_lem_example :
    let s = calm in
    let target = exposure_of (pos 500) in
    let delta = amount target.target_net_delta_qty in
    (now : ℕ) × (o : OrderIntent) × (aware 10 ≡ aware now)
    × IsWellFormed target s (finite (pos 1000)) now
    × (buy_decision.orders ≡ o ∷ [])
    × (o.symbol ≡ "BTCUSDT")
    × (traded o ≡ delta)
    × (o.quantity ≡ abs delta)
    × (1 ≤ o.quantity)
    × (((o.reduce_only ≡ true) × IsReduction delta (pos 1000))
        ⊎ ((o.reduce_only ≡ false) × IsIncrease delta (pos 1000) × IsWithinLimits governor s))
submitted_order_lem_example =
    submitted_order_lem 1 governor (exposure_of (pos 500)) calm (finite (pos 1000)) (aware 10) naive
      bought refl

storm-IsWellFormed : IsWellFormed (exposure_of (negsuc 999)) storm (finite (pos 1000)) 10
storm-IsWellFormed = record {
  delta_finite = refl;
  qty_finite = refl;
  deadline = 60;
  expires = refl;
  current = omega arith;
  fields = refl;
}

reduction_submitted_example :
    (d : ExecutionDecision) × ((evaluate 1 governor
        (exposure_of (negsuc 999))
        storm
        (finite (pos 1000))
        (aware 10)
        naive).0
      ≡ decided d)
    × Submits d (exposure_of (negsuc 999)) (negsuc 999)
reduction_submitted_example =
    reduction_submitted 1 10 governor (exposure_of (negsuc 999)) storm (finite (pos 1000)) naive
      storm-IsWellFormed (unfold ◌+ℤ◌ in refl) (omega arith) (omega arith)

abbrev requests : List Request
requests =
    record {
      target = exposure_of (pos 500);
      risk_snapshot = calm;
      current_position_qty = finite (pos 1000);
      first = aware 10;
      later = aware 11;
    }
    ∷ record {
      target = exposure_of (pos 500);
      risk_snapshot = calm;
      current_position_qty = non_finite;
      first = aware 20;
      later = aware 21;
    }
    ∷ []

ids_increase_example : IsIncreasing 0 (ids_of_all 1 requests governor)
ids_increase_example = ids_increase 1 requests governor
