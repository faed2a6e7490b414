-- ===== src/Binance/Gates/Decision.antt =====
-- apps/trading_worker/venues/binance/gates.py: `DecisionExecutionGate.check`, which a decision passes before its
-- orders reach the adapter. Names of strategies are trimmed and in lower case, and of a lineage id only the
-- prefix before its first dash is kept, in upper case. An empty strategy is no alias.
pub mod Lineage
pub mod Samples
mod Tests
use blessing_ai.Prelude.{
  ℕ, String, Bool, true, false, ◌&&◌, ◌||◌, not, Option, none, some, List, [], ◌∷◌, ◌++◌,
  if◌then◌else◌, or_else, str_eq, is_some,
}
use blessing_ai.Prelude.Dict.{Dict, get}
use blessing_ai.Domain.{EconomicRiskClass, Timestamp}
use blessing_ai.Binance.Rules.{contains}
use blessing_ai.Binance.Gates.{
  ExchangeAccountSnapshot, Settings, Reason, Guards, GateResult, refused, allowed, guarded,
  is_risk_increasing, is_noop, available_balance_is_positive, margin_utilization_is_safe,
  liquidation_safety_is_known_and_positive, is_fresh,
}
use blessing_ai.Binance.Gates.Order.{stream_health, snapshot_of}
use blessing_ai.Binance.Gates.Order.Inputs.{Adapter}

pub record DecisionOrder : Type 0 where
  pub symbol : String
  pub strategy_id : String
  pub source_prefixes : List String

-- `ExecutionDecision`, as far as the gate reads it
pub record Decision : Type 0 where
  pub action : String
  pub risk_class : EconomicRiskClass
  pub orders : List DecisionOrder
  pub source_prefixes : List String

-- The worker's attributes, and what its methods answer: the routes that are configured, the strategies that are enabled,
-- and the account snapshot's readiness. `has_market_sample` is the adapter's answer for a symbol.
pub record Worker : Type 0 where
  pub execution_mode : String
  pub engine_state : String
  pub kill_switch_active : Bool
  pub mainnet_configured : Bool
  pub testnet_configured : Bool
  pub execution_adapter : Option Adapter
  pub enabled_strategies : List String
  pub pause_new_risk : Bool
  pub recovery_only : Bool
  pub is_account_snapshot_ready : Bool
  pub market_data_healthy : Bool
  pub has_market_sample : String → Bool
  pub last_market_event_at : Dict Timestamp
  pub adapter_market_event_at : Dict Timestamp
  pub now : ℕ

abbrev pub known_alpha_strategies : List String
known_alpha_strategies = "grid" ∷ "trend" ∷ "shock" ∷ "carry" ∷ []

abbrev pub system_strategies : List String
system_strategies = "meta_allocator" ∷ "portfolio" ∷ "recovery" ∷ "manual_testnet_trial" ∷ []

abbrev pub strategy_aliases : Dict String
strategy_aliases =
    ("structural grid", "grid")
    ∷ ("trend / breakout", "trend")
    ∷ ("trend/breakout", "trend")
    ∷ ("shock momentum", "shock")
    ∷ ("funding carry", "carry")
    ∷ ("funding_carry", "carry")
    ∷ []

abbrev pub lineage_prefix_to_strategy : Dict String
lineage_prefix_to_strategy =
    ("GRID", "grid") ∷ ("TREND", "trend") ∷ ("SHOCK", "shock") ∷ ("CARRY", "carry") ∷ []

-- `_canonical_strategy_id`
unfoldable pub canonical_strategy_id : String → Option String
canonical_strategy_id t =
    if contains t known_alpha_strategies then some t else get t strategy_aliases

-- the strategies that are enabled, but for unknown ones
abbrev pub known_only : List String → List String
known_only [] = []
known_only (t ∷ ts) =
    let rest = known_only ts in if contains t known_alpha_strategies then t ∷ rest else rest

abbrev pub is_enabled : List String → Option String → Bool
is_enabled enabled none = false
is_enabled enabled (some t) = contains t enabled

abbrev pub strategy_guards : List String → List DecisionOrder → Guards
strategy_guards enabled [] = []
strategy_guards enabled (o ∷ os) =
    let system = contains o.strategy_id system_strategies in
    let canonical = canonical_strategy_id o.strategy_id in
    (not system && not (is_some canonical), Reason.strategy_unknown)
    ∷ (not system && not (is_enabled enabled canonical), Reason.strategy_disabled)
    ∷ strategy_guards enabled os

abbrev pub lineage_guards : List String → List String → Guards
lineage_guards enabled [] = []
lineage_guards enabled (prefix ∷ ps) =
    let strategy = get prefix lineage_prefix_to_strategy in
    (is_some strategy && not (is_enabled enabled strategy), Reason.strategy_disabled)
    ∷ lineage_guards enabled ps

abbrev pub order_prefixes : List DecisionOrder → List String
order_prefixes [] = []
order_prefixes (o ∷ os) = o.source_prefixes ++ order_prefixes os

-- `_disabled_strategy_reason`
abbrev pub disabled_strategy_guards : Worker → Decision → Guards
disabled_strategy_guards w d =
    let enabled = known_only w.enabled_strategies in
    if is_risk_increasing d.risk_class
    then strategy_guards enabled d.orders
      ++ lineage_guards enabled (d.source_prefixes ++ order_prefixes d.orders)
    else []

abbrev pub is_live : Worker → Bool
is_live w = str_eq w.execution_mode "LIVE"

abbrev pub worker_guards : Settings → Worker → Guards
worker_guards c w =
    (not (str_eq w.execution_mode "TESTNET" || is_live w), Reason.mode_not_exchange)
    ∷ (is_live w && not c.mainnet_live_approved, Reason.mainnet_not_approved)
    ∷ (
      not (contains w.engine_state ("ARMED" ∷ "PAUSED_NEW_RISK" ∷ "RECOVERY_ONLY" ∷ [])),
      Reason.not_armed,
    )
    ∷ (w.kill_switch_active, Reason.kill_switch)
    ∷ (
      not (if is_live w then w.mainnet_configured else w.testnet_configured),
      Reason.not_configured,
    )
    ∷ []

abbrev pub adapter_guards : Adapter → Guards
adapter_guards a =
    (not a.is_ready, Reason.not_ready)
    ∷ (not a.authenticated, Reason.not_authenticated)
    ∷ (not a.trade_authorized, Reason.not_authorized)
    ∷ (not (stream_health a), Reason.stream_disconnected)
    ∷ (not (str_eq a.last_status "IN_SYNC"), Reason.not_in_sync)
    ∷ []

abbrev pub has_no_orders : List DecisionOrder → Bool
has_no_orders [] = true
has_no_orders (o ∷ os) = false

abbrev pub decision_guards : Decision → Guards
decision_guards d =
    (is_noop d.risk_class, Reason.invalid_risk_class)
    ∷ (has_no_orders d.orders, Reason.no_orders)
    ∷ (str_eq d.action "NOOP", Reason.noop_action)
    ∷ []

abbrev pub symbol_guards : Settings → Worker → List DecisionOrder → Guards
symbol_guards c w [] = []
symbol_guards c w (o ∷ os) =
    (not (w.has_market_sample o.symbol), Reason.sample_unavailable)
    ∷ (
      not (
          is_fresh c.max_market_data_age
            (or_else (get o.symbol w.last_market_event_at) (get o.symbol w.adapter_market_event_at))
            w.now),
      Reason.data_stale,
    )
    ∷ symbol_guards c w os

abbrev pub new_risk_guards : ℕ → Settings → Worker → Adapter → Decision → Guards
new_risk_guards one c w a d =
    let s = snapshot_of a in
    if is_risk_increasing d.risk_class
    then (w.pause_new_risk || str_eq w.engine_state "PAUSED_NEW_RISK", Reason.new_risk_paused)
      ∷ (w.recovery_only || str_eq w.engine_state "RECOVERY_ONLY", Reason.recovery_only)
      ∷ (not w.is_account_snapshot_ready, Reason.snapshot_not_ready)
      ∷ (not (available_balance_is_positive s), Reason.balance_not_positive)
      ∷ (not (margin_utilization_is_safe one c s), Reason.margin_unsafe)
      ∷ (not (liquidation_safety_is_known_and_positive s), Reason.liquidation_unknown)
      ∷ (not w.market_data_healthy, Reason.market_unhealthy)
      ∷ symbol_guards c w d.orders
    else []

abbrev pub with_adapter : ℕ → Settings → Worker → Decision → Option Adapter → GateResult {0} Unit
with_adapter one c w d none = refused Reason.adapter_unavailable
with_adapter one c w d (some a) = guarded (adapter_guards a) (
    guarded (decision_guards d)
      (guarded (disabled_strategy_guards w d) (guarded (new_risk_guards one c w a d) (allowed tt))))

unfoldable pub check_decision : ℕ → Settings → Worker → Decision → GateResult {0} Unit
check_decision one c w d = guarded (worker_guards c w) (with_adapter one c w d w.execution_adapter)
