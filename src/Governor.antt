-- ===== src/Governor.antt =====
-- apps/trading_worker/engines/risk_governor.py: `RiskGovernor`, the last gate before an order. The
-- governor's limits are finite decimals, and `thousandth` is `Decimal("0.001")` in the unit chosen.
pub mod Risk
pub mod Ids
mod Tests
use blessing_ai.Prelude.{
  ℕ, ◌+◌, String, Bool, true, false, ◌&&◌, ◌||◌, not, Option, none, some, List, [], ◌∷◌, ltb, leb,
  ◌==◌, if◌then◌else◌,
}
use blessing_ai.Prelude.Int.{ℤ, pos, abs, ltb_ℤ, leb_ℤ}
use blessing_ai.Domain.{
  MarketType, OrderSide, PositionSide, OrderType, TimeInForce, RiskState, EconomicRiskClass, Value,
  Timestamp, TargetExposure, RiskSnapshot, is_invalid, is_finite, amount, not_datetime, naive,
  aware,
}

-- `token` of `_next_id` is a function of the time, so an id is its three parts.
pub record IdParts : Type 0 where
  pub prefix : String
  pub observed_at : ℕ
  pub sequence : ℕ

pub record OrderIntent : Type 0 where
  pub client_order_id : IdParts
  pub symbol : String
  pub market_type : MarketType
  pub side : OrderSide
  pub position_side : PositionSide
  pub order_type : OrderType
  pub time_in_force : TimeInForce
  pub quantity : ℕ
  pub reduce_only : Bool
  pub strategy_id : String
  pub source_intent_ids : List String
  pub created_at : ℕ

pub data Action : Type 0 where
  no_action submit_order : Action

-- the `rational` of a decision, one constructor for each text
pub data Reason : Type 0 where
  target_invalid target_non_finite target_expired expiry_invalid state_unknown : Reason
  field_invalid : String → Reason
  risk_off : RiskState → Reason
  drawdown_limit leverage_limit margin_limit below_minimum crosses_zero approved : Reason

pub record ExecutionDecision : Type 0 where
  pub decision_id : IdParts
  pub symbol : String
  pub action : Action
  pub risk_class : EconomicRiskClass
  pub orders : List OrderIntent
  pub rational : Reason
  pub net_exposure_delta : ℤ
  pub timestamp : ℕ
  pub target_exposure_id : String
  pub source_intent_ids : List String

-- The governor's attributes.
pub record Governor : Type 0 where
  pub max_leverage : ℤ
  pub max_drawdown_pct : ℤ
  pub max_margin_utilization_pct : ℤ
  pub hedge_mode : Bool
  pub sequence : ℕ

-- `_RISK_OFF_STATES`
abbrev pub is_risk_off : RiskState → Bool
is_risk_off RiskState.normal = false
is_risk_off RiskState.caution = false
is_risk_off RiskState.no_new_risk = true
is_risk_off RiskState.recovery_only = true
is_risk_off RiskState.deleverage = true
is_risk_off RiskState.liquidating = true
is_risk_off RiskState.emergency = true

abbrev pub is_positive : ℤ → Bool
is_positive z = ltb_ℤ (pos 0) z

abbrev pub is_negative : ℤ → Bool
is_negative z = ltb_ℤ z (pos 0)

-- `_is_position_reduction`
unfoldable pub is_position_reduction : ℤ → ℤ → Bool
is_position_reduction delta qty =
    if is_positive qty
    then is_negative delta && leb (abs delta) (abs qty)
    else if is_negative qty
    then is_positive delta && leb (abs delta) (abs qty)
    else false

-- `_classify_risk`
unfoldable pub classify_risk : ℤ → ℤ → Option EconomicRiskClass
classify_risk delta qty =
    if abs qty == 0
    then some EconomicRiskClass.new_risk
    else if (is_positive qty && is_negative delta) || (is_negative qty && is_positive delta)
    then (if ltb (abs qty) (abs delta)
        then none
        else if abs delta == abs qty
        then some EconomicRiskClass.close
        else some EconomicRiskClass.reduce_risk)
    else some EconomicRiskClass.increase_risk

-- the test of the target's expiry
abbrev pub expiry_reason : Timestamp → ℕ → Option Reason
expiry_reason not_datetime now = some expiry_invalid
expiry_reason naive now = some target_expired
expiry_reason (aware t) now = if leb t now then some target_expired else none

abbrev pub bad_field : Value → Bool
bad_field v = not (is_finite v) || is_negative (amount v)

-- the loop over the three fields of the snapshot
abbrev pub field_reason : RiskSnapshot → Option Reason
field_reason s =
    if bad_field s.current_drawdown_pct
    then some (field_invalid "current_drawdown_pct")
    else if bad_field s.effective_leverage
    then some (field_invalid "effective_leverage")
    else if bad_field s.margin_utilization_pct
    then some (field_invalid "margin_utilization_pct")
    else none

-- An unknown state blocks new risk, and so does a state of `_RISK_OFF_STATES`.
abbrev pub unknown_reason : Option RiskState → Option Reason
unknown_reason none = some state_unknown
unknown_reason (some r) = none

abbrev pub state_reason : Option RiskState → Option Reason
state_reason none = none
state_reason (some r) = if is_risk_off r then some (risk_off r) else none

-- the tests of the state and the limits, in order; each is skipped for a reduction
abbrev pub limit_reason : Governor → RiskSnapshot → Option Reason
limit_reason g s =
    if leb_ℤ g.max_drawdown_pct (amount s.current_drawdown_pct)
    then some drawdown_limit
    else if leb_ℤ g.max_leverage (amount s.effective_leverage)
    then some leverage_limit
    else if leb_ℤ g.max_margin_utilization_pct (amount s.margin_utilization_pct)
    then some margin_limit
    else none

-- the first reason of two
abbrev pub or_reason : Option Reason → Option Reason → Option Reason
or_reason none r = r
or_reason (some r) _ = some r

abbrev pub unless : Bool → Option Reason → Option Reason
unless b r = if b then none else r

-- What `evaluate` comes to: a call of `_reject`, the decision below the minimum, or an order.
pub data Verdict : Type 0 where
  rejected : Reason → Verdict
  too_small : Verdict
  order : EconomicRiskClass → Verdict

-- the tests of hard constraints, leverage and margin
abbrev pub new_risk_reason : Governor → RiskSnapshot → Option Reason
new_risk_reason g s = or_reason (state_reason s.risk_state) (limit_reason g s)

-- the tests that follow those of the numbers
unfoldable pub later_reason : Governor → TargetExposure → RiskSnapshot → Bool → ℕ → Option Reason
later_reason g target s reducing now = or_reason (expiry_reason target.expires_at now) (
    or_reason (unless reducing (unknown_reason s.risk_state))
      (or_reason (field_reason s) (unless reducing (new_risk_reason g s))))

-- the first test of `evaluate` that rejects the target, in order
unfoldable pub rejection : Governor → TargetExposure → RiskSnapshot → Value → ℕ → Option Reason
rejection g target s qty now =
    let delta = target.target_net_delta_qty in
    if is_invalid delta || is_invalid qty
    then some target_invalid
    else if not (is_finite delta && is_finite qty)
    then some target_non_finite
    else later_reason g target s (is_position_reduction (amount delta) (amount qty)) now

abbrev pub classified : Option EconomicRiskClass → Verdict
classified none = rejected crosses_zero
classified (some c) = order c

unfoldable pub judge : ℕ → Governor → TargetExposure → RiskSnapshot → Value → ℕ → Verdict
judge thousandth g target s qty now =
    let delta = amount target.target_net_delta_qty in
    elim (rejection g target s qty now) [
      | some r ↦ rejected r
      | none ↦
          if ltb (abs delta) thousandth
          then too_small
          else classified (classify_risk delta (amount qty))
    ]

-- risk_class in {REDUCE_RISK, CLOSE}
abbrev pub reduces : EconomicRiskClass → Bool
reduces EconomicRiskClass.noop = false
reduces EconomicRiskClass.new_risk = false
reduces EconomicRiskClass.increase_risk = false
reduces EconomicRiskClass.reduce_risk = true
reduces EconomicRiskClass.recovery = false
reduces EconomicRiskClass.close = true
reduces EconomicRiskClass.emergency = false

abbrev pub position_side : Bool → EconomicRiskClass → ℤ → ℤ → PositionSide
position_side hedge_mode c delta qty =
    if not hedge_mode
    then PositionSide.both
    else if reduces c
    then (if is_positive qty then PositionSide.long else PositionSide.short)
    else if is_positive delta
    then PositionSide.long
    else PositionSide.short

-- the `OrderIntent` that `evaluate` builds
abbrev pub order_intent : Governor → TargetExposure → EconomicRiskClass → ℤ → ℤ → ℕ → OrderIntent
order_intent g target c delta qty now = record {
  client_order_id = record { prefix = "B-SYS"; observed_at = now; sequence = g.sequence + 1 };
  symbol = target.symbol;
  market_type = target.market_type;
  side = if is_positive delta then OrderSide.buy else OrderSide.sell;
  position_side = position_side g.hedge_mode c delta qty;
  order_type = OrderType.market;
  time_in_force = TimeInForce.gtc;
  quantity = abs delta;
  reduce_only = reduces c;
  strategy_id = "meta_allocator";
  source_intent_ids = target.source_intent_ids;
  created_at = now;
}

-- a decision to do nothing
abbrev pub no_decision : Governor → TargetExposure → Reason → ℕ → ExecutionDecision
no_decision g target reason now = record {
  decision_id = record { prefix = "DEC"; observed_at = now; sequence = g.sequence + 1 };
  symbol = target.symbol;
  action = no_action;
  risk_class = EconomicRiskClass.noop;
  orders = [];
  rational = reason;
  net_exposure_delta = pos 0;
  timestamp = now;
  target_exposure_id = target.exposure_id;
  source_intent_ids = target.source_intent_ids;
}

abbrev pub order_decision :
    Governor → TargetExposure → EconomicRiskClass → ℤ → ℤ → ℕ → ExecutionDecision
order_decision g target c delta qty now = record {
  decision_id = record { prefix = "DEC"; observed_at = now; sequence = g.sequence + 2 };
  symbol = target.symbol;
  action = submit_order;
  risk_class = c;
  orders = order_intent g target c delta qty now ∷ [];
  rational = approved;
  net_exposure_delta = delta;
  timestamp = now;
  target_exposure_id = target.exposure_id;
  source_intent_ids = target.source_intent_ids;
}

-- What a call gives: a decision, or the `ValueError` of a clock that is broken.
pub data Outcome : Type 0 where
  clock_error : Outcome
  decided : ExecutionDecision → Outcome

abbrev pub take_ids : ℕ → Governor → Governor
take_ids n g = record g { sequence = g.sequence + n }

-- `_reject` reads the clock again
abbrev pub reject : Governor → TargetExposure → Reason → Timestamp → Outcome × Governor
reject g target reason not_datetime = (clock_error, g)
reject g target reason naive = (clock_error, g)
reject g target reason (aware now) = (decided (no_decision g target reason now), take_ids 1 g)

abbrev pub decide : Governor → TargetExposure → Value → Verdict → ℕ → Timestamp → Outcome × Governor
decide g target qty (rejected r) now later = reject g target r later
decide g target qty too_small now later =
    (decided (no_decision g target below_minimum now), take_ids 1 g)
decide g target qty (order c) now later = (
  decided (order_decision g target c (amount target.target_net_delta_qty) (amount qty) now),
  take_ids 2 g,
)

-- `evaluate`; `first` and `later` are the readings of the clock
unfoldable pub evaluate :
    ℕ
    → Governor
    → TargetExposure
    → RiskSnapshot
    → Value
    → Timestamp
    → Timestamp
    → Outcome × Governor
evaluate thousandth g target s qty not_datetime later = (clock_error, g)
evaluate thousandth g target s qty naive later = (clock_error, g)
evaluate thousandth g target s qty (aware now) later =
    decide g target qty (judge thousandth g target s qty now) now later
