-- ===== src/Binance/Gates/Order.antt =====
-- apps/trading_worker/venues/binance/gates.py: `OrderExecutionGate.check`. What the adapter answers while the
-- gate waits, such as a fresh price, is an input, the `Answers`.
pub mod Inputs
pub mod Prepare
pub mod Exposure
use blessing_ai.Prelude.{
  ℕ, ◌*◌, ◌+◌, String, Bool, true, false, ◌&&◌, ◌||◌, not, Option, none, some, List, [], ◌∷◌, ◌++◌,
  ltb, leb, ◌==◌, if◌then◌else◌, or_else, is_some, length, str_eq,
}
use blessing_ai.Prelude.Int.{ℤ, pos, ltb_ℤ, leb_ℤ, abs}
use blessing_ai.Prelude.Dict.{Dict, get}
use blessing_ai.Domain.{
  ExecutionOrder, ExchangePosition, MarketType, OrderSide, PositionSide, OrderType, TimeInForce,
  EconomicRiskClass, Value, Timestamp, invalid, non_finite, finite, is_buy,
}
use blessing_ai.Binance.Rules.{
  SymbolTradingRules, is_above_zero, contains, or_nonzero, normalize_quantity, normalize_price,
  is_ready_for, has_percent_price_filter, validate_percent_price, min_notional_for,
  max_notional_for,
}
use blessing_ai.Binance.Limits.{BinanceEnvironment, TestnetSafetyLimits, is_mainnet}
use blessing_ai.Binance.Gates.{
  ExchangeAccountSnapshot, Settings, Reason, Guards, GateResult, refused, allowed, guarded, ◌>>=◌,
  is_risk_increasing, is_risk_reducing, is_noop, is_emergency, available_balance_is_positive,
  margin_utilization_is_safe, liquidation_safety_is_known_and_positive, is_fresh,
}
use blessing_ai.Binance.Gates.Mainnet.{mainnet_guards}
use blessing_ai.Binance.Gates.Order.Exposure.{
  current_orders, orders_notional, positions_notional, notional_or_zero, active_symbols,
  reducible_exposure, is_over,
}
use blessing_ai.Binance.Gates.Order.Inputs.{Intent, Adapter, Answers, Options, PreparedOrder}
use blessing_ai.Binance.Gates.Order.Prepare.{
  is_usdm, is_limit, is_market, type_text, intent_guards, ready_guards, ready_rules, rules_for,
  is_both, is_gtc, is_post_only_time, mode_guards, min_qty_for, max_qty_for, quantity_guards,
  prepare_quantity, limit_guards, limit_price, reference_price, percent_guards, prepare_limit,
  prepare_market, prepare_price,
}

abbrev pub is_fallback : Options → EconomicRiskClass → Bool
is_fallback o risk = o.allow_emergency_fallback && is_emergency risk

abbrev pub stream_health : Adapter → Bool
stream_health a = elim a.private_stream_healthy [ none ↦ a.user_stream_connected | some b ↦ b ]

abbrev pub route_guards : Settings → Adapter → Answers → Options → EconomicRiskClass → Guards
route_guards c a w o risk =
    let fallback = is_fallback o risk in
    (is_noop risk, Reason.invalid_risk_class)
    ∷ (not fallback && not a.is_ready, Reason.not_ready)
    ∷ (not a.authenticated, Reason.not_authenticated)
    ∷ (not a.trade_authorized, Reason.not_authorized)
    ∷ (is_mainnet a.env && not fallback && not c.mainnet_live_approved, Reason.mainnet_not_approved)
    ∷ (not fallback && not (stream_health a), Reason.stream_disconnected)
    ∷ (not fallback && not (str_eq a.last_status "IN_SYNC"), Reason.not_in_sync)
    ∷ (
      is_risk_increasing risk && not fallback && not w.is_account_snapshot_fresh,
      Reason.snapshot_not_ready,
    )
    ∷ []

abbrev pub snapshot_of : Adapter → Option ExchangeAccountSnapshot
snapshot_of a = or_else a.account_snapshot a.ledger_snapshot

-- A Mainnet account without a snapshot has no balance that is positive.
abbrev pub mainnet_account_guards : ℕ → Adapter → Option ExchangeAccountSnapshot → Guards
mainnet_account_guards one a none = []
mainnet_account_guards one a (some s) =
    if is_mainnet a.env then mainnet_guards one a.safety_limits s else []

abbrev pub account_guards : ℕ → Settings → Adapter → Options → EconomicRiskClass → Guards
account_guards one c a o risk =
    let s = snapshot_of a in
    if is_risk_increasing risk && not (is_fallback o risk)
    then (not (available_balance_is_positive s), Reason.balance_not_positive)
      ∷ (not (margin_utilization_is_safe one c s), Reason.margin_unsafe)
      ∷ (not (liquidation_safety_is_known_and_positive s), Reason.liquidation_unknown)
      ∷ mainnet_account_guards one a s
    else []

abbrev pub depth_of : Adapter → Intent → Option Value
depth_of a i =
    if is_buy i.side then get i.symbol a.last_market_ask_qty else get i.symbol a.last_market_bid_qty

abbrev pub depth_guards : ℕ → Option Value → Guards
depth_guards q (some (finite d)) =
    (not (is_above_zero d), Reason.depth_unknown) ∷ (ltb_ℤ d (pos q), Reason.depth_exceeded) ∷ []
depth_guards q _ = (true, Reason.depth_unknown) ∷ []

abbrev pub market_guards :
    Settings → Adapter → Intent → Answers → Options → EconomicRiskClass → ℕ → Guards
market_guards c a i w o risk q =
    if is_risk_increasing risk && not (is_fallback o risk)
    then (not w.has_authoritative_market_sample, Reason.sample_unavailable)
      ∷ (not (is_fresh c.max_market_data_age w.last_market_event_at w.now), Reason.data_stale)
      ∷ (if is_market i.order_type then depth_guards q (depth_of a i) else [])
    else []

-- a product of naturals is not positive where one factor is 0, or the price is not positive
abbrev pub value_guards : ℕ → ℤ → Guards
value_guards q p = (q * abs p == 0 || not (is_above_zero p), Reason.notional_invalid) ∷ []

-- `quantity * estimated_price`, in units of a product
abbrev pub notional_of : ℕ → Value → GateResult (ℕ × ℕ)
notional_of q (finite p) = guarded (value_guards q p) (allowed (abs p, q * abs p))
notional_of q _ = refused Reason.notional_invalid

abbrev pub notional_guards :
    ℕ → SymbolTradingRules → Intent → Options → EconomicRiskClass → ℕ → Guards
notional_guards one r i o risk n =
    let low = min_notional_for (is_market i.order_type) r in
    let high = max_notional_for (is_market i.order_type) r in
    (is_above_zero low && ltb n (one * abs low), Reason.notional_low)
    ∷ (is_above_zero high && ltb (one * abs high) n, Reason.notional_high)
    ∷ (i.reduce_only && is_risk_increasing risk, Reason.reduce_only_increase)
    ∷ (
      o.require_reduce_only_for_risk_reduction && is_risk_reducing risk && not i.reduce_only,
      Reason.reduce_only_required,
    )
    ∷ []

abbrev pub reduction_guards : Adapter → Intent → EconomicRiskClass → ℕ → Guards
reduction_guards a i risk q =
    if i.reduce_only && is_risk_reducing risk
    then (
      ltb (reducible_exposure i.symbol i.position_side i.side a.positions) q,
      Reason.exposure_exceeded,
    )
      ∷ []
    else []

abbrev pub exposure_guards : ℕ → Adapter → Intent → Options → EconomicRiskClass → ℕ → Guards
exposure_guards one a i o risk n =
    let l = a.safety_limits in
    let current = current_orders o.exclude_client_order_id a.orders in
    let existing =
      notional_or_zero (orders_notional current)
      + notional_or_zero (positions_notional a.positions) in
    let active = active_symbols current a.positions in
    if is_risk_increasing risk
    then (
      leb_ℤ l.max_open_orders (pos (length current + o.reserved_open_orders)),
      Reason.open_order_count,
    )
      ∷ (not (is_some (orders_notional current)), Reason.order_notional_unknown)
      ∷ (not (is_some (positions_notional a.positions)), Reason.position_notional_unknown)
      ∷ (
        is_over one l.max_total_open_notional (existing + o.reserved_notional + n),
        Reason.total_notional,
      )
      ∷ (is_over one l.max_single_order_notional n, Reason.single_notional)
      ∷ (
        not (contains i.symbol active) && leb_ℤ l.max_active_exposure_chains (pos (length active)),
        Reason.exposure_chains,
      )
      ∷ []
    else []

-- the order, once its quantity and price are prepared
abbrev pub order_of :
    ℕ
    → Settings
    → Adapter
    → Intent
    → Answers
    → Options
    → EconomicRiskClass
    → SymbolTradingRules
    → ℕ
    → Option ℕ × Value
    → GateResult PreparedOrder
order_of one c a i w o risk r q price = guarded (market_guards c a i w o risk q) (
    notional_of q price.1 >>= (λ n. guarded (notional_guards one r i o risk n.1) (
      guarded (reduction_guards a i risk q) (
        guarded (exposure_guards one a i o risk n.1) (
          allowed (record {
            symbol = i.symbol;
            order_type = i.order_type;
            quantity = q;
            price = price.0;
            estimated_price = n.0;
            notional = n.1;
          }))))))

unfoldable pub check :
    ℕ
    → Settings
    → Adapter
    → Intent
    → Answers
    → Options
    → EconomicRiskClass
    → GateResult PreparedOrder
check one c a i w o risk = guarded (route_guards c a w o risk) (
    guarded (account_guards one c a o risk) (
      guarded (intent_guards a i) (
        rules_for a i >>= (λ r. guarded (mode_guards a i) (
          prepare_quantity r (is_market i.order_type) i.quantity
          >>= (λ q. prepare_price one r i w >>= order_of one c a i w o risk r q))))))
