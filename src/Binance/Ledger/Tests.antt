-- ===== src/Binance/Ledger/Tests.antt =====
-- The ledger at concrete inputs. The unit is a hundredth.
use blessing_ai.Prelude.{ℕ, ◌+◌, ◌≡◌, ◌≢◌, refl, String, false, some, none, List, [], ◌∷◌, All}
use blessing_ai.Prelude.Int.{pos}
use blessing_ai.Prelude.Dict.{get, put}
use blessing_ai.Domain.{
  ExecutionOrder, OrderSide, PositionSide, MarketType, TimeInForce, EconomicRiskClass, finite,
}
use blessing_ai.Binance.Gates.Order.Exposure.{positions_notional}
use blessing_ai.Binance.Ledger.{
  Notification, InMemoryLedger, ExchangeFill, RawOrder, Call, call, call_all, empty_ledger,
  upsert_raw_exchange_order, exchange_order, store_order, get_order_by_client_id, append_fill,
  has_fill, venue_of, upsert_position, fill, position, get_open_orders, open_orders,
}
use blessing_ai.Binance.Ledger.Positions.{RawPosition, to_exchange_position}
use blessing_ai.Binance.Ledger.Fills.{Added, fills_without_index}
use blessing_ai.Binance.Ledger.Marks.{IsMarked, positions_valued}
use blessing_ai.Binance.Ledger.Orders.{IsKept, IsReported, raw_order_round_trip}

abbrev submitted : ExecutionOrder
submitted = record {
  symbol = "ETHUSDC";
  side = OrderSide.buy;
  quantity = pos 100;
  price = pos 900;
  order_type = "LIMIT";
  client_order_id = "A";
  status = "PENDING";
  exchange_order_id = none;
  timestamp = 5;
  market_type = MarketType.usdm_futures;
  position_side = PositionSide.both;
  reduce_only = false;
  time_in_force = TimeInForce.gtc;
  strategy_id = "grid";
  decision_id = some "D-1";
  target_exposure_id = none;
  source_intent_ids = "GRID-1" ∷ [];
  risk_class = EconomicRiskClass.new_risk;
}

abbrev reported : RawOrder
reported = record {
  symbol = some "ETHUSDC";
  client_order_id = some "A";
  status = some "NEW";
  side = some OrderSide.buy;
  orig_qty = some (pos 100);
  order_id = some "77";
  price = some (pos 900);
  order_type = "LIMIT";
  position_side = some PositionSide.both;
  reduce_only = false;
  time_in_force = some TimeInForce.gtc;
}

abbrev known : InMemoryLedger
known = record empty_ledger { orders = ("A", submitted) ∷ [] }

abbrev acknowledged : ExecutionOrder
acknowledged = record submitted { status = "NEW"; exchange_order_id = some "77"; timestamp = 6 }

abbrev stored : InMemoryLedger
stored = record known {
  orders = ("A", acknowledged) ∷ [];
  version = 1;
  notified = Notification.order_update acknowledged ∷ [];
}

stores : upsert_raw_exchange_order 6 reported known ≡ some stored
unfolding upsert_raw_exchange_order exchange_order store_order get put
stores = refl

-- a report that lacks the exchange's id raises
raises : upsert_raw_exchange_order 6 (record reported { order_id = none }) known ≡ none
unfolding upsert_raw_exchange_order exchange_order
raises = refl

opens : (get_open_orders stored ≡ acknowledged ∷ []) × (get_open_orders known ≡ [])
unfolding open_orders
opens = (refl, refl)

raw_order_round_trip_example :
    (new : ExecutionOrder) × IsReported reported new
    × (get_order_by_client_id new.client_order_id stored ≡ some new)
    × IsKept (get_order_by_client_id new.client_order_id known) new
    × ((k : String)
        → new.client_order_id ≢ k
        → get_order_by_client_id k stored ≡ get_order_by_client_id k known)
    × (stored.version ≡ known.version + 1)
raw_order_round_trip_example = raw_order_round_trip 6 reported known stored stores

abbrev trade : ExchangeFill
trade = record {
  exchange_trade_id = "9";
  symbol = "ETHUSDC";
  source = "BINANCE_MAINNET_BOOTSTRAP";
  client_order_id = "A";
  quantity = pos 100;
  price = pos 900;
}

abbrev long : RawPosition
long = record {
  symbol = some "ETHUSDC";
  position_amt = some (finite (pos 100));
  position_side = some (some PositionSide.both);
  entry_price = some (finite (pos 900));
  mark_price = some (finite (pos 950));
  unrealized_profit = none;
  margin_type = none;
  leverage = none;
  liquidation_price = some (finite (pos 0));
}

-- the trade is seen twice, in two phases; a position that lacks its mark price raises
abbrev calls : List Call
calls =
    fill trade
    ∷ position long
    ∷ fill (record trade { source = "BINANCE_MAINNET_RECOVERY" })
    ∷ position (record long { mark_price = none })
    ∷ []

one_fill : (call_all calls empty_ledger).fills ≡ trade ∷ []
unfolding call_all call append_fill has_fill venue_of upsert_position to_exchange_position
one_fill = refl

fills_without_index_example : Added calls [] (call_all calls empty_ledger).fills
fills_without_index_example = fills_without_index calls

positions_valued_example :
    All IsMarked (call_all calls empty_ledger).positions
    × ((n : ℕ) × (positions_notional (call_all calls empty_ledger).positions ≡ some n))
positions_valued_example = positions_valued calls
