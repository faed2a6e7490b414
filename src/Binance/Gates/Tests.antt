-- ===== src/Binance/Gates/Tests.antt =====
-- The order gate at concrete inputs. The unit is a hundredth.
use blessing_ai.Prelude.{ℕ, ◌≤◌, ◌<◌, ◌≡◌, refl, true, false, some, none, [], ◌∷◌, In, str_eq}
use blessing_ai.Prelude.Int.{pos, neg, ◌+ℤ◌}
use blessing_ai.Prelude.Dict.{get}
use blessing_ai.Domain.{
  ExecutionOrder, ExchangePosition, MarketType, OrderSide, PositionSide, OrderType, TimeInForce,
  EconomicRiskClass, finite, aware,
}
use blessing_ai.Binance.Rules.{
  SymbolTradingRules, is_ready_for, percent_price_rules_ready, normalize_quantity, normalize_price,
  min_notional_for, max_notional_for, validate_percent_price, contains,
}
use blessing_ai.Binance.Gates.{ExchangeAccountSnapshot, Reason, allowed, refused}
use blessing_ai.Binance.Gates.Mainnet.{daily_loss}
use blessing_ai.Binance.Gates.Order.{check, snapshot_of, stream_health}
use blessing_ai.Binance.Gates.Order.Inputs.{Intent, Adapter, Answers, Options, PreparedOrder}
use blessing_ai.Binance.Gates.Order.Exposure.{
  orders_notional, positions_notional, reducible_exposure,
}
use blessing_ai.Binance.Gates.Increase.{
  IsWithinLimits, increase-IsWithinLimits, mainnet_increase_safe,
}
use blessing_ai.Binance.Gates.Account.{IsSafeAccount}
use blessing_ai.Binance.Gates.Reduce.{IsOpposite, reduction_only_reduces}
use blessing_ai.Binance.Gates.Samples.{settings, adapter}
use blessing_ai.Binance.Gates.Fits.{FitsRules, prepared_order-FitsRules}

abbrev intent : Intent
intent = record {
  client_order_id = "A";
  symbol = "ETHUSDC";
  market_type = MarketType.usdm_futures;
  side = OrderSide.buy;
  position_side = PositionSide.both;
  order_type = OrderType.limit;
  time_in_force = TimeInForce.gtc;
  quantity = finite (pos 103);
  price = some (finite (pos 1009));
  reduce_only = false;
  post_only = false;
}

abbrev answers : Answers
answers = record {
  is_account_snapshot_fresh = true;
  has_authoritative_market_sample = true;
  fresh_price = none;
  market_reference_price = some (finite (pos 1000));
  fresh_mark_price = none;
  last_market_event_at = some (aware 172900000000);
  now = 172901000000;
}

abbrev options : Options
options = record {
  reserved_open_orders = 0;
  reserved_notional = 0;
  exclude_client_order_id = none;
  require_reduce_only_for_risk_reduction = true;
  allow_emergency_fallback = false;
}

abbrev prepared : PreparedOrder
prepared = record {
  symbol = "ETHUSDC";
  order_type = OrderType.limit;
  quantity = 100;
  price = some 1000;
  estimated_price = 1000;
  notional = 100000;
}

-- a BUY of 1.03 at 10.09 is sent as 1.00 at 10.00
passes :
    check 100 settings adapter intent answers options EconomicRiskClass.increase_risk
    ≡ allowed prepared
unfolding check get is_ready_for percent_price_rules_ready normalize_quantity normalize_price
    min_notional_for max_notional_for validate_percent_price orders_notional positions_notional
    daily_loss neg ◌+ℤ◌
passes = refl

-- the same order may not be sent while one is open
abbrev open_order : ExecutionOrder
open_order = record {
  symbol = "ETHUSDC";
  side = OrderSide.buy;
  quantity = pos 100;
  price = pos 900;
  order_type = "LIMIT";
  client_order_id = "B";
  status = "NEW";
  exchange_order_id = none;
  timestamp = 0;
  market_type = MarketType.usdm_futures;
  position_side = PositionSide.both;
  reduce_only = false;
  time_in_force = TimeInForce.gtc;
  strategy_id = "portfolio";
  decision_id = none;
  target_exposure_id = none;
  source_intent_ids = [];
  risk_class = EconomicRiskClass.new_risk;
}

abbrev busy : Adapter
busy = record adapter { orders = open_order ∷ [] }

refuses :
    check 100 settings busy intent answers options EconomicRiskClass.increase_risk
    ≡ refused Reason.open_order_count
unfolding check get is_ready_for percent_price_rules_ready normalize_quantity normalize_price
    min_notional_for max_notional_for validate_percent_price orders_notional positions_notional
    daily_loss neg ◌+ℤ◌
refuses = refl

abbrev sale : Intent
sale = record intent { side = OrderSide.sell; reduce_only = true }

abbrev prepared_sale : PreparedOrder
prepared_sale = record prepared { price = some 1010; estimated_price = 1010; notional = 101000 }

sells :
    check 100 settings adapter sale answers options EconomicRiskClass.reduce_risk
    ≡ allowed prepared_sale
unfolding check get is_ready_for percent_price_rules_ready normalize_quantity normalize_price
    min_notional_for max_notional_for validate_percent_price reducible_exposure
sells = refl

increase-IsWithinLimits_example :
    (n number k : ℕ) × IsWithinLimits 100 adapter options prepared n number k
increase-IsWithinLimits_example =
    increase-IsWithinLimits 100 settings adapter intent answers options
      EconomicRiskClass.increase_risk prepared passes refl

mainnet_increase_safe_example :
    (settings.mainnet_live_approved ≡ true)
    × (stream_health adapter ≡ true)
    × (str_eq adapter.last_status "IN_SYNC" ≡ true)
    × (answers.is_account_snapshot_fresh ≡ true)
    × ((s : ExchangeAccountSnapshot) × (snapshot_of adapter ≡ some s)
        × IsSafeAccount 100 adapter.safety_limits s)
mainnet_increase_safe_example =
    mainnet_increase_safe 100 settings adapter intent answers options
      EconomicRiskClass.increase_risk prepared passes refl refl

reduction_only_reduces_example :
    (options.require_reduce_only_for_risk_reduction ≡ true → sale.reduce_only ≡ true)
    × (sale.reduce_only ≡ true
        → (0 < 100)
          × (100 ≤ reducible_exposure "ETHUSDC" PositionSide.both OrderSide.sell adapter.positions)
          × ((x : ExchangePosition) × (In x adapter.positions)
              × (x.symbol ≡ "ETHUSDC")
              × IsOpposite OrderSide.sell x.quantity))
reduction_only_reduces_example =
    reduction_only_reduces 100 settings adapter sale answers options EconomicRiskClass.reduce_risk
      prepared_sale sells refl

prepared_order-FitsRules_example :
    (contains "ETHUSDC" adapter.safety_limits.allowed_symbols ≡ true)
    × (r : SymbolTradingRules) × (get "ETHUSDC" adapter.symbol_rules ≡ some r)
    × FitsRules 100 intent answers r prepared
prepared_order-FitsRules_example =
    prepared_order-FitsRules 100 settings adapter intent answers options
      EconomicRiskClass.increase_risk prepared passes
