-- ===== src/Binance/Gates/Order/Inputs.antt =====
-- apps/trading_worker/venues/binance/gates.py: what `OrderExecutionGate.check` is given, and the order
-- that it prepares.
use blessing_ai.Prelude.{ℕ, String, Bool, Option, List}
use blessing_ai.Prelude.Dict.{Dict}
use blessing_ai.Domain.{
  ExecutionOrder, ExchangePosition, MarketType, OrderSide, PositionSide, OrderType, TimeInForce,
  Value, Timestamp,
}
use blessing_ai.Binance.Rules.{SymbolTradingRules}
use blessing_ai.Binance.Limits.{BinanceEnvironment, TestnetSafetyLimits}
use blessing_ai.Binance.Gates.{ExchangeAccountSnapshot}

-- `OrderIntent`
pub record Intent : Type 0 where
  pub client_order_id : String
  pub symbol : String
  pub market_type : MarketType
  pub side : OrderSide
  pub position_side : PositionSide
  pub order_type : OrderType
  pub time_in_force : TimeInForce
  pub quantity : Value
  pub price : Option Value
  pub reduce_only : Bool
  pub post_only : Bool

-- the state of the adapter that the gate reads
pub record Adapter : Type 0 where
  pub env : BinanceEnvironment
  pub is_ready : Bool
  pub authenticated : Bool
  pub trade_authorized : Bool
  pub hedge_mode : Bool
  pub private_stream_healthy : Option Bool
  pub user_stream_connected : Bool
  pub last_status : String
  pub account_snapshot : Option ExchangeAccountSnapshot
  pub ledger_snapshot : Option ExchangeAccountSnapshot
  pub safety_limits : TestnetSafetyLimits
  pub symbol_rules : Dict SymbolTradingRules
  pub last_market_ask_qty : Dict Value
  pub last_market_bid_qty : Dict Value
  pub orders : List ExecutionOrder
  pub positions : List ExchangePosition

-- What the adapter's methods answer for the order's symbol, and the clock once they have.
pub record Answers : Type 0 where
  pub is_account_snapshot_fresh : Bool
  pub has_authoritative_market_sample : Bool
  pub fresh_price : Option Value
  pub market_reference_price : Option Value
  pub fresh_mark_price : Option Value
  pub last_market_event_at : Option Timestamp
  pub now : ℕ

-- the keyword arguments of `check`; the notional counts units of a product
pub record Options : Type 0 where
  pub reserved_open_orders : ℕ
  pub reserved_notional : ℕ
  pub exclude_client_order_id : Option String
  pub require_reduce_only_for_risk_reduction : Bool
  pub allow_emergency_fallback : Bool

pub record PreparedOrder : Type 0 where
  pub symbol : String
  pub order_type : OrderType
  pub quantity : ℕ
  pub price : Option ℕ
  pub estimated_price : ℕ
  pub notional : ℕ
