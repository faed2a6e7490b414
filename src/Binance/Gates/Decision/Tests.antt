-- ===== src/Binance/Gates/Decision/Tests.antt =====
-- The decision gate at concrete inputs. The unit is a hundredth.
use blessing_ai.Prelude.{◌≡◌, refl, true, false, some, [], ◌∷◌, All, str_eq}
use blessing_ai.Prelude.Dict.{get}
use blessing_ai.Domain.{EconomicRiskClass}
use blessing_ai.Binance.Gates.{Reason, allowed, refused}
use blessing_ai.Binance.Gates.Order.{stream_health}
use blessing_ai.Binance.Gates.Order.Inputs.{Adapter}
use blessing_ai.Binance.Gates.Samples.{settings}
use blessing_ai.Binance.Gates.Decision.Samples.{worker, decision}
use blessing_ai.Binance.Gates.Decision.{check_decision, canonical_strategy_id, is_live}
use blessing_ai.Binance.Gates.Decision.Lineage.{IsSampled, IsTraceable, IsLineage, new_risk_armed}

passes : check_decision 100 settings worker decision ≡ allowed tt
unfolding check_decision canonical_strategy_id get
passes = refl

-- a strategy that is not enabled is found by the lineage of a system order
refuses :
    check_decision 100 settings (record worker { enabled_strategies = "trend" ∷ [] }) decision
    ≡ refused Reason.strategy_disabled
unfolding check_decision canonical_strategy_id get
refuses = refl

-- but it may be unwound
unwinds :
    check_decision 100 settings
      (record worker { enabled_strategies = []; engine_state = "RECOVERY_ONLY" })
      (record decision { risk_class = EconomicRiskClass.close })
    ≡ allowed tt
unfolding check_decision canonical_strategy_id get
unwinds = refl

new_risk_armed_example :
    (worker.engine_state ≡ "ARMED")
    × (worker.kill_switch_active ≡ false)
    × (is_live worker ≡ true → settings.mainnet_live_approved ≡ true)
    × All (IsSampled worker) decision.orders
    × All (IsTraceable ("grid" ∷ [])) decision.orders
    × All (IsLineage ("grid" ∷ [])) ("GRID" ∷ [])
    × (a : Adapter) × (worker.execution_adapter ≡ some a)
    × (a.is_ready ≡ true)
    × (stream_health a ≡ true)
    × (str_eq a.last_status "IN_SYNC" ≡ true)
new_risk_armed_example = new_risk_armed 100 settings worker decision passes refl
