-- ===== src/Binance/Gates.antt =====
-- apps/trading_worker/venues/binance/gates.py: the tests that both gates share. Decimals are whole numbers of
-- a unit of which `one` make 1; a product of two counts units of which `one * one` make 1. Points in time
-- are microseconds. Enumerations hold their members and nothing else, as pydantic ensures, and texts are in
-- upper case.
pub mod Mainnet
pub mod Order
mod Passed
pub mod Account
mod Exposures
mod Chains
pub mod Increase
pub mod Reduce
pub mod Fits
pub mod Decision
pub mod Samples
mod Tests
use blessing_ai.Prelude.{
  ℕ, ◌*◌, ◌-◌, String, Bool, true, false, ◌&&◌, ◌||◌, not, Option, none, some, List, [], ◌∷◌, ltb,
  leb, if◌then◌else◌, str_eq,
}
use blessing_ai.Prelude.Int.{ℤ, pos, ltb_ℤ, leb_ℤ, abs}
use blessing_ai.Prelude.Dict.{Dict}
use blessing_ai.Domain.{
  MarketType, OrderSide, PositionSide, OrderType, TimeInForce, EconomicRiskClass, Value, Timestamp,
  invalid, non_finite, finite, aware, not_datetime, naive,
}
use blessing_ai.Binance.Rules.{SymbolTradingRules, is_above_zero, is_zero}
use blessing_ai.Binance.Limits.{BinanceEnvironment, TestnetSafetyLimits}

-- `_is_risk_increasing`
abbrev pub is_risk_increasing : EconomicRiskClass → Bool
is_risk_increasing EconomicRiskClass.new_risk = true
is_risk_increasing EconomicRiskClass.increase_risk = true
is_risk_increasing _ = false

-- `_is_risk_reducing`
abbrev pub is_risk_reducing : EconomicRiskClass → Bool
is_risk_reducing EconomicRiskClass.reduce_risk = true
is_risk_reducing EconomicRiskClass.recovery = true
is_risk_reducing EconomicRiskClass.close = true
is_risk_reducing EconomicRiskClass.emergency = true
is_risk_reducing _ = false

abbrev pub is_noop : EconomicRiskClass → Bool
is_noop EconomicRiskClass.noop = true
is_noop _ = false

abbrev pub is_emergency : EconomicRiskClass → Bool
is_emergency EconomicRiskClass.emergency = true
is_emergency _ = false

-- `ExchangeAccountSnapshot`: the fields that the gates read, as what `Decimal(str(x))` makes of them.
pub record ExchangeAccountSnapshot : Type 0 where
  pub wallet_balance : Value
  pub margin_balance : Value
  pub available_balance : Value
  pub unrealized_pnl : Value
  pub total_position_notional : Value
  pub effective_leverage : Value
  pub margin_utilization_pct : Value
  pub min_liquidation_distance_pct : Option Value
  pub liquidation_safety : String
  pub daily_realized_pnl : Value
  pub daily_loss_known : Bool
  pub collateral_asset : String
  pub risk_currency : String
  pub daily_loss_asset : String
  pub daily_pnl_includes_fees : Bool
  pub daily_pnl_includes_funding : Bool
  pub daily_loss_window_start : Timestamp
  pub daily_loss_window_end : Timestamp
  pub configured_leverage : Value
  pub configured_leverage_known : Bool
  pub margin_mode : String
  pub margin_mode_known : Bool

-- What the process environment sets: the parsed MAX_MARGIN_UTILIZATION_PCT, or 70 if it is not set, the
-- age that market data may have, and MAINNET_LIVE_APPROVED.
pub record Settings : Type 0 where
  pub margin_limit : Value
  pub max_market_data_age : ℕ
  pub mainnet_live_approved : Bool

abbrev pub is_positive_value : Value → Bool
is_positive_value (finite v) = is_above_zero v
is_positive_value _ = false

abbrev pub is_zero_value : Value → Bool
is_zero_value (finite v) = is_zero v
is_zero_value _ = false

abbrev pub distance_is_safe : Option Value → Value → Bool
distance_is_safe none notional = is_zero_value notional
distance_is_safe (some d) notional = is_positive_value d

-- `_liquidation_safety_is_known_and_positive`
abbrev pub liquidation_safety_is_known_and_positive : Option ExchangeAccountSnapshot → Bool
liquidation_safety_is_known_and_positive none = false
liquidation_safety_is_known_and_positive (some s) =
    str_eq s.liquidation_safety "KNOWN"
    && distance_is_safe s.min_liquidation_distance_pct s.total_position_notional

-- `_available_balance_is_positive`
abbrev pub available_balance_is_positive : Option ExchangeAccountSnapshot → Bool
available_balance_is_positive none = false
available_balance_is_positive (some s) = is_positive_value s.available_balance

-- a limit that is not above 0 and at most 100 is replaced by 70
abbrev pub configured_limit : ℕ → Value → ℤ
configured_limit one (finite l) =
    if is_above_zero l && leb_ℤ l (pos (100 * one)) then l else pos (70 * one)
configured_limit one _ = pos (70 * one)

abbrev pub is_below : Value → ℤ → Bool
is_below (finite u) l = leb_ℤ (pos 0) u && ltb_ℤ u l
is_below _ l = false

-- `_margin_utilization_is_safe`
abbrev pub margin_utilization_is_safe : ℕ → Settings → Option ExchangeAccountSnapshot → Bool
margin_utilization_is_safe one c none = false
margin_utilization_is_safe one c (some s) =
    is_below s.margin_utilization_pct (configured_limit one c.margin_limit)

-- `_age_seconds` is not None, not negative and at most the age allowed
abbrev pub is_fresh : ℕ → Option Timestamp → ℕ → Bool
is_fresh max_age (some (aware t)) now = leb t now && leb (now - t) max_age
is_fresh max_age _ now = false

-- why an order is refused
pub data Reason : Type 0 where
  invalid_risk_class not_ready not_authenticated not_authorized mainnet_not_approved : Reason
  stream_disconnected not_in_sync snapshot_not_ready balance_not_positive margin_unsafe : Reason
  liquidation_unknown mainnet_values_unknown collateral_unverified margin_mode_unsupported : Reason
  collateral_invalid collateral_cap leverage_cap configured_leverage_cap : Reason
  daily_loss_unknown window_unknown window_naive window_invalid daily_loss_invalid daily_loss_cap :
      Reason
  symbol_not_allowed market_unsupported order_type_unsupported rules_unavailable : Reason
  hedge_mode_side one_way_side post_only_type post_only_time : Reason
  quantity_invalid quantity_not_positive quantity_zero quantity_low quantity_high : Reason
  price_required price_invalid price_not_positive price_out_of_bounds time_unsupported : Reason
  price_not_allowed price_unavailable percent_price sample_unavailable data_stale : Reason
  depth_unknown depth_exceeded notional_invalid notional_low notional_high : Reason
  reduce_only_increase reduce_only_required exposure_exceeded : Reason
  open_order_count order_notional_unknown position_notional_unknown total_notional : Reason
  single_notional exposure_chains : Reason
  mode_not_exchange not_armed kill_switch not_configured adapter_unavailable no_orders noop_action :
      Reason
  strategy_unknown strategy_disabled new_risk_paused recovery_only market_unhealthy : Reason

-- A result, or the reason of the refusal: `GateResult`.
pub data GateResult {ℓ} (A : Type ℓ) : Type ℓ where
  refused : Reason → GateResult A
  allowed : A → GateResult A

-- A guard refuses if its condition holds; the guards are tried in order.
abbrev pub Guards : Type 0
Guards = List (Bool × Reason)

abbrev pub guarded {ℓ} : {A : Type ℓ} → Guards → GateResult A → GateResult A
guarded [] r = r
guarded ((b, reason) ∷ gs) r = let rest = guarded gs r in if b then refused reason else rest

infixl 5 ◌>>=◌
abbrev pub ◌>>=◌ {ℓ κ} :
    {A : Type ℓ} {B : Type κ} → GateResult A → (A → GateResult B) → GateResult B
refused e >>= f = refused e
allowed a >>= f = f a
