-- ===== src/Domain.antt =====
-- domain/enums.py and domain/models.py: what the engines of the trading worker exchange. A point in
-- time is a number of microseconds. A `Decimal` is a whole number of units, where the unit is any
-- power of ten of which all decimals at hand are multiples; they have at most 28 digits, so that
-- `abs` does not round them.
use blessing_ai.Prelude.{ℕ, String, Bool, true, false, Option, List}
use blessing_ai.Prelude.Int.{ℤ, pos}
use blessing_ai.Prelude.Dict.{Dict}

pub data MarketType : Type 0 where
  spot usdm_futures coinm_futures : MarketType

pub data OrderSide : Type 0 where
  buy sell : OrderSide

abbrev pub is_buy : OrderSide → Bool
is_buy OrderSide.buy = true
is_buy OrderSide.sell = false

pub data PositionSide : Type 0 where
  long short both : PositionSide

pub data OrderType : Type 0 where
  limit market stop stop_market take_profit take_profit_market : OrderType

pub data TimeInForce : Type 0 where
  gtc ioc fok post_only : TimeInForce

pub data RiskState : Type 0 where
  normal caution no_new_risk recovery_only deleverage liquidating emergency : RiskState

pub data EconomicRiskClass : Type 0 where
  noop new_risk increase_risk reduce_risk recovery close emergency : EconomicRiskClass

-- What `Decimal(str(x))` makes of an argument: it raises, or gives a NaN or an infinity, or a number.
pub data Value : Type 0 where
  invalid : Value
  non_finite : Value
  finite : ℤ → Value

abbrev pub is_invalid : Value → Bool
is_invalid invalid = true
is_invalid non_finite = false
is_invalid (finite n) = false

abbrev pub is_finite : Value → Bool
is_finite invalid = false
is_finite non_finite = false
is_finite (finite n) = true

-- the number, used only where `is_finite` holds
abbrev pub amount : Value → ℤ
amount invalid = pos 0
amount non_finite = pos 0
amount (finite n) = n

-- A `datetime`, or what is none: a value that does not compare with one, or has no time zone.
pub data Timestamp : Type 0 where
  not_datetime : Timestamp
  naive : Timestamp
  aware : ℕ → Timestamp

pub record TargetExposure : Type 0 where
  pub symbol : String
  pub market_type : MarketType
  pub target_net_delta_qty : Value
  pub target_gross_limit_qty : Value
  pub strategy_attributions : Dict Value
  pub created_at : ℕ
  pub expires_at : Timestamp
  pub exposure_id : String
  pub source_intent_ids : List String

-- The fields that the risk governor reads; an unknown risk state is `none`.
pub record RiskSnapshot : Type 0 where
  pub margin_utilization_pct : Value
  pub effective_leverage : Value
  pub current_drawdown_pct : Value
  pub risk_state : Option RiskState

-- A status is the exchange's text; a client order id is the key of the ledger's orders.
pub record ExecutionOrder : Type 0 where
  pub symbol : String
  pub side : OrderSide
  pub quantity : ℤ
  pub price : ℤ
  pub order_type : String
  pub client_order_id : String
  pub status : String
  pub exchange_order_id : Option String
  pub timestamp : ℕ
  pub market_type : MarketType
  pub position_side : PositionSide
  pub reduce_only : Bool
  pub time_in_force : TimeInForce
  pub strategy_id : String
  pub decision_id : Option String
  pub target_exposure_id : Option String
  pub source_intent_ids : List String
  pub risk_class : EconomicRiskClass

pub record ExchangePosition : Type 0 where
  pub symbol : String
  pub position_side : PositionSide
  pub quantity : ℤ
  pub entry_price : ℤ
  pub mark_price : Option ℤ
  pub unrealized_pnl : ℤ
  pub liquidation_price : Option ℤ
  pub leverage : ℤ
  pub margin_type : String
