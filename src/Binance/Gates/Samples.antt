-- ===== src/Binance/Gates/Samples.antt =====
-- An account, a position and an adapter that the tests of the gates share. The unit is a hundredth.
use blessing_ai.Prelude.{true, false, some, none, [], ◌∷◌}
use blessing_ai.Prelude.Int.{pos, negsuc}
use blessing_ai.Domain.{ExchangePosition, PositionSide, finite, aware}
use blessing_ai.Binance.Rules.{SymbolTradingRules}
use blessing_ai.Binance.Limits.{BinanceEnvironment, defaults}
use blessing_ai.Binance.Gates.{ExchangeAccountSnapshot, Settings}
use blessing_ai.Binance.Gates.Order.Inputs.{Adapter}

abbrev pub rules : SymbolTradingRules
rules = record {
  symbol = "ETHUSDC";
  base_asset = "ETH";
  quote_asset = "USDC";
  margin_asset = "USDC";
  contract_type = "PERPETUAL";
  price_precision = some 2;
  quantity_precision = some 2;
  status = "TRADING";
  tick_size = pos 10;
  min_price = pos 100;
  max_price = pos 900000;
  step_size = pos 5;
  min_qty = pos 5;
  max_qty = pos 1000;
  market_min_qty = none;
  market_max_qty = none;
  market_step_size = none;
  min_notional = pos 700;
  max_notional = pos 9000;
  min_notional_apply_to_market = true;
  max_notional_apply_to_market = true;
  multiplier_up = some (pos 110);
  multiplier_down = some (pos 90);
  bid_multiplier_up = none;
  bid_multiplier_down = none;
  ask_multiplier_up = none;
  ask_multiplier_down = none;
  supported_order_types = "LIMIT" ∷ "MARKET" ∷ [];
  parsed_from_exchange_info = true;
  seen_filter_types =
      "PERCENT_PRICE" ∷ "NOTIONAL" ∷ "MIN_NOTIONAL" ∷ "LOT_SIZE" ∷ "PRICE_FILTER" ∷ [];
  min_notional_constraints = (pos 500, true) ∷ (pos 700, true) ∷ [];
  max_notional_constraints = (pos 9000, true) ∷ [];
}

abbrev pub snapshot : ExchangeAccountSnapshot
snapshot = record {
  wallet_balance = finite (pos 20000);
  margin_balance = finite (pos 20000);
  available_balance = finite (pos 15000);
  unrealized_pnl = finite (negsuc 99);
  total_position_notional = finite (pos 2000);
  effective_leverage = finite (pos 10);
  margin_utilization_pct = finite (pos 1000);
  min_liquidation_distance_pct = some (finite (pos 4000));
  liquidation_safety = "KNOWN";
  daily_realized_pnl = finite (pos 50);
  daily_loss_known = true;
  collateral_asset = "USDC";
  risk_currency = "USDC";
  daily_loss_asset = "USDC";
  daily_pnl_includes_fees = true;
  daily_pnl_includes_funding = true;
  daily_loss_window_start = aware 172800000000;
  daily_loss_window_end = aware 172900000000;
  configured_leverage = finite (pos 500);
  configured_leverage_known = true;
  margin_mode = "CROSS";
  margin_mode_known = true;
}

abbrev pub settings : Settings
settings = record {
  margin_limit = finite (pos 7000);
  max_market_data_age = 3000000;
  mainnet_live_approved = true;
}

-- long 2 at a mark price of 10.00
abbrev pub position : ExchangePosition
position = record {
  symbol = "ETHUSDC";
  position_side = PositionSide.both;
  quantity = pos 200;
  entry_price = pos 900;
  mark_price = some (pos 1000);
  unrealized_pnl = pos 200;
  liquidation_price = none;
  leverage = pos 500;
  margin_type = "cross";
}

abbrev pub adapter : Adapter
adapter = record {
  env = BinanceEnvironment.mainnet;
  is_ready = true;
  authenticated = true;
  trade_authorized = true;
  hedge_mode = false;
  private_stream_healthy = some true;
  user_stream_connected = false;
  last_status = "IN_SYNC";
  account_snapshot = some snapshot;
  ledger_snapshot = none;
  safety_limits = defaults 100 BinanceEnvironment.mainnet;
  symbol_rules = ("ETHUSDC", rules) ∷ [];
  last_market_ask_qty = [];
  last_market_bid_qty = [];
  orders = [];
  positions = position ∷ [];
}
