-- ===== src/Binance/Rules/Tests.antt =====
-- Symbol rules at concrete inputs. The unit is a hundredth.
use blessing_ai.Prelude.{
  ℕ, String, ◌+◌, ◌*◌, ◌≤◌, ◌<◌, ◌≡◌, ◌↔◌, refl, true, false, some, none, List, [], ◌∷◌, arith,
}
use blessing_ai.Prelude.Int.{pos}
use blessing_ai.Domain.{OrderSide, Value, finite}
use blessing_ai.Binance.Rules.{
  SymbolTradingRules, has_seen, percent_price_rules_ready, validate_percent_price, is_ready_for,
  normalize_quantity, normalize_price,
}
use blessing_ai.Binance.Rules.Parse.{Filter, SymbolData}
use blessing_ai.Binance.Rules.Normal.{normalize_price_lem}
use blessing_ai.Binance.Rules.PercentPrice.{validate_percent_price_lem}

abbrev filter_of : String → List (String × Value) → Filter
filter_of t ns = record { filter_type = t; numbers = ns; flags = [] }

abbrev symbol_data : SymbolData
symbol_data = record {
  status = "TRADING";
  base_asset = "ETH";
  quote_asset = "USDC";
  margin_asset = "USDC";
  contract_type = "PERPETUAL";
  order_types = "LIMIT" ∷ "MARKET" ∷ [];
  price_precision = some (some (pos 2));
  quantity_precision = none;
  filters =
      filter_of "PRICE_FILTER" (
        ("minPrice", finite (pos 100))
        ∷ ("maxPrice", finite (pos 900000))
        ∷ ("tickSize", finite (pos 10))
        ∷ [])
      ∷ filter_of "LOT_SIZE" (
          ("minQty", finite (pos 5))
          ∷ ("maxQty", finite (pos 1000))
          ∷ ("stepSize", finite (pos 5))
          ∷ [])
      ∷ filter_of "MIN_NOTIONAL" (("notional", finite (pos 500)) ∷ [])
      ∷ filter_of "NOTIONAL"
          (("minNotional", finite (pos 700)) ∷ ("maxNotional", finite (pos 9000)) ∷ [])
      ∷ filter_of "PERCENT_PRICE"
          (("multiplierUp", finite (pos 110)) ∷ ("multiplierDown", finite (pos 90)) ∷ [])
      ∷ [];
}

abbrev rules : SymbolTradingRules
rules = record {
  symbol = "ETHUSDC";
  base_asset = "ETH";
  quote_asset = "USDC";
  margin_asset = "USDC";
  contract_type = "PERPETUAL";
  price_precision = some 2;
  quantity_precision = some 2;
  status = "TRADING";
  tick_size = pos 10;
  min_price = pos 100;
  max_price = pos 900000;
  step_size = pos 5;
  min_qty = pos 5;
  max_qty = pos 1000;
  market_min_qty = none;
  market_max_qty = none;
  market_step_size = none;
  min_notional = pos 700;
  max_notional = pos 9000;
  min_notional_apply_to_market = true;
  max_notional_apply_to_market = true;
  multiplier_up = some (pos 110);
  multiplier_down = some (pos 90);
  bid_multiplier_up = none;
  bid_multiplier_down = none;
  ask_multiplier_up = none;
  ask_multiplier_down = none;
  supported_order_types = "LIMIT" ∷ "MARKET" ∷ [];
  parsed_from_exchange_info = true;
  seen_filter_types =
      "PERCENT_PRICE" ∷ "NOTIONAL" ∷ "MIN_NOTIONAL" ∷ "LOT_SIZE" ∷ "PRICE_FILTER" ∷ [];
  min_notional_constraints = (pos 500, true) ∷ (pos 700, true) ∷ [];
  max_notional_constraints = (pos 9000, true) ∷ [];
}

ready : (is_ready_for "LIMIT" rules ≡ true) × (is_ready_for "STOP" rules ≡ false)
unfolding is_ready_for percent_price_rules_ready
ready = (refl, refl)

-- a SELL at 12.34 is raised to 12.40, and a quantity of 0.13 is cut to 0.10
raised : normalize_price rules (pos 1234) true ≡ pos 1240
unfolding normalize_price
raised = refl

cut : normalize_quantity rules (pos 13) true ≡ pos 10
unfolding normalize_quantity
cut = refl

normalize_price_lem_example :
    (n k : ℕ) × (normalize_price rules (pos 1234) true ≡ pos n)
    × (n ≡ k * 10)
    × ((1234 ≤ n) × (n < 1234 + 10))
    × (normalize_price rules (pos n) true ≡ pos n)
normalize_price_lem_example = normalize_price_lem rules 1234 10 true refl (omega arith)

abbrev least_filter : Filter
least_filter = filter_of "MIN_NOTIONAL" (("notional", finite (pos 500)) ∷ [])

percent_price_ready : percent_price_rules_ready rules ≡ true
unfolding percent_price_rules_ready
percent_price_ready = refl

validate_percent_price_lem_example :
    (validate_percent_price 100 rules 1050 OrderSide.buy (some (finite (pos 1000))) ≡ true) ↔ (
      (has_seen "PERCENT_PRICE" rules ≡ true → (1000 * 90 ≤ 100 * 1050) × (100 * 1050 ≤ 1000 * 110))
      × (has_seen "PERCENT_PRICE_BY_SIDE" rules ≡ true
          → (1000 * 0 ≤ 100 * 1050) × (100 * 1050 ≤ 1000 * 0)))
validate_percent_price_lem_example =
    validate_percent_price_lem 100 rules 1050 OrderSide.buy (pos 1000) percent_price_ready refl
