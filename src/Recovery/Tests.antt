-- ===== src/Recovery/Tests.antt =====
-- The recovery engine at concrete inputs. The unit is a thousandth, also of percents and ratios.
use blessing_ai.Prelude.{◌≤◌, ◌≡◌, refl, true, false, some, List, [], ◌∷◌, arith}
use blessing_ai.Prelude.Int.{ℤ, pos, negsuc, neg}
use blessing_ai.Domain.{
  MarketType, RiskState, EconomicRiskClass, TargetExposure, RiskSnapshot, finite, amount, aware,
}
use blessing_ai.Governor.{
  Governor, OrderIntent, ExecutionDecision, evaluate, judge, rejection, later_reason, classify_risk,
  is_position_reduction, decided, order_decision,
}
use blessing_ai.Governor.Risk.{IsReduction, Submits, traded}
use blessing_ai.Recovery.{
  ExposureRecoveryEngine, process, toxic_delta, action_of, determine_action, grid_brake, act,
  hedged, required_hedge_ratio,
}
use blessing_ai.Recovery.Brake.{toxic_delta-IsReduction}
use blessing_ai.Recovery.Orders.{toxic_order-IsReduction, emergency_close_submitted}
use blessing_ai.Recovery.Episode.{Call, Tracks, after_all, episode_tracked}

abbrev engine : ExposureRecoveryEngine
engine = record { drawdown_trigger_pct = pos 2000; max_hedge_ratio = pos 800; states = [] }

abbrev governor : Governor
governor = record {
  max_leverage = pos 2000;
  max_drawdown_pct = pos 6000;
  max_margin_utilization_pct = pos 70000;
  hedge_mode = false;
  sequence = 0;
}

abbrev buy_more : TargetExposure
buy_more = record {
  symbol = "BTCUSDT";
  market_type = MarketType.usdm_futures;
  target_net_delta_qty = finite (pos 500);
  target_gross_limit_qty = finite (pos 5000);
  strategy_attributions = [];
  created_at = 0;
  expires_at = aware 60;
  exposure_id = "EXP-1";
  source_intent_ids = "I-1" ∷ [];
}

abbrev snapshot : ℤ → RiskSnapshot
snapshot drawdown = record {
  margin_utilization_pct = finite (pos 10000);
  effective_leverage = finite (pos 1000);
  current_drawdown_pct = finite drawdown;
  risk_state = some RiskState.normal;
}

-- a hedge of 0.3, an unwinding of a quarter, and the close
hedges : toxic_delta 1000 engine (pos 2500) (pos 1000) (pos 1000) (pos 500) ≡ negsuc 299
unfolding toxic_delta action_of determine_action grid_brake act hedged required_hedge_ratio neg
hedges = refl

unwinds : toxic_delta 1000 engine (pos 3500) (negsuc 999) (pos 1000) (pos 0) ≡ pos 250
unfolding toxic_delta action_of determine_action grid_brake act hedged required_hedge_ratio neg
unwinds = refl

flattens : toxic_delta 1000 engine (pos 5000) (pos 1000) (pos 1000) (pos 500) ≡ negsuc 999
unfolding toxic_delta action_of determine_action grid_brake act hedged required_hedge_ratio neg
flattens = refl

-- twice the volatility wants a hedge of 0.6, four times is cut to 0.8
cuts : toxic_delta 1000 engine (pos 2500) (pos 1000) (pos 4000) (pos 500) ≡ negsuc 799
unfolding toxic_delta action_of determine_action grid_brake act hedged required_hedge_ratio neg
cuts = refl

toxic_delta-IsReduction_example :
    IsReduction (toxic_delta 1000 engine (pos 2500) (pos 1000) (pos 1000) (pos 500)) (pos 1000)
toxic_delta-IsReduction_example =
    toxic_delta-IsReduction 1000 engine (pos 2500) (pos 1000) (pos 1000) (pos 500) (omega arith)
      (omega arith) (omega arith)

toxic_order-IsReduction_example :
    let t = (process 1000 engine buy_more (pos 2500) (pos 1000) (pos 1000) 5 6).0 in
    let delta = amount t.target_net_delta_qty in
    (o : OrderIntent) × (order_decision governor t EconomicRiskClass.reduce_risk delta
        (pos 1000)
        10).orders
      ≡ o ∷ []
    × (o.symbol ≡ "BTCUSDT")
    × (1 ≤ o.quantity)
    × (o.reduce_only ≡ true)
    × IsReduction (traded o) (pos 1000)
unfolding process toxic_delta action_of determine_action grid_brake act hedged required_hedge_ratio
    neg evaluate judge rejection later_reason classify_risk is_position_reduction
toxic_order-IsReduction_example =
    toxic_order-IsReduction 1000 1 engine governor buy_more (snapshot (pos 2500)) (pos 2500)
      (pos 1000) (pos 1000) 5 6 (aware 10) (aware 10) refl (omega arith) refl refl

emergency_close_submitted_example :
    let t = (process 1000 engine buy_more (pos 5000) (pos 1000) (pos 1000) 5 10).0 in
    (d : ExecutionDecision) × ((evaluate 1 governor t
        (snapshot (pos 5000))
        (finite (pos 1000))
        (aware 10)
        (aware 10)).0
      ≡ decided d)
    × Submits d buy_more (negsuc 999)
unfolding neg
emergency_close_submitted_example =
    emergency_close_submitted 1000 1 engine governor buy_more (snapshot (pos 5000)) (pos 5000)
      (pos 1000) (pos 1000) 5 10 (aware 10)
      record {
        delta_finite = refl;
        qty_finite = refl;
        deadline = 60;
        expires = refl;
        current = omega arith;
        fields = refl;
      }
      (omega arith) refl (omega arith) (omega arith)

abbrev call_at : ℤ → Call
call_at drawdown = record {
  target = buy_more;
  drawdown = drawdown;
  qty = pos 1000;
  vol = pos 1000;
  created = 5;
  now = 6;
}

abbrev calls : List Call
calls = call_at (pos 2100) ∷ call_at (pos 1900) ∷ call_at (pos 2300) ∷ call_at (pos 2600) ∷ []

episode_tracked_example : Tracks (after_all 1000 engine calls) "BTCUSDT" (some (pos 2300))
episode_tracked_example = episode_tracked 1000 engine calls "BTCUSDT" refl
