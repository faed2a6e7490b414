-- ===== src/Binance/Ledger.antt =====
-- apps/trading_worker/venues/binance/ledger.py: `InMemoryLedger`, method by method. A position
-- that is normalized already, and is kept as it is, is not among the calls; nor are the account snapshot and its
-- two methods.
pub mod Positions
pub mod Trades
pub mod Fills
pub mod Marks
pub mod Orders
mod Tests
use text.Mathlib.Text.{starts_with}
use blessing_ai.Prelude.{
  ℕ, ◌+◌, String, Bool, true, false, ◌&&◌, ◌||◌, not, Option, none, some, List, [], ◌∷◌, ◌++◌,
  if◌then◌else◌, str_eq, is_some, any, ◌>>=◌,
}
use blessing_ai.Prelude.Int.{ℤ, pos}
use blessing_ai.Prelude.Dict.{Dict, get, put}
use blessing_ai.Domain.{
  ExecutionOrder, ExchangePosition, OrderSide, PositionSide, MarketType, TimeInForce,
  EconomicRiskClass,
}
use blessing_ai.Binance.Rules.{is_zero}
use blessing_ai.Binance.Gates.Order.Exposure.{side_eq, is_open}
use blessing_ai.Binance.Ledger.Positions.{RawPosition, to_exchange_position}

-- A source and a symbol are as `strip` and `upper` leave them, and hold no colon.
pub record ExchangeFill : Type 0 where
  pub exchange_trade_id : String
  pub symbol : String
  pub source : String
  pub client_order_id : String
  pub quantity : ℤ
  pub price : ℤ

-- the text `venue:symbol:trade id`, by its parts
pub record FillKey : Type 0 where
  pub venue : String
  pub symbol : String
  pub trade_id : String

-- what the callbacks are called with
pub data Notification : Type 0 where
  order_update : ExecutionOrder → Notification
  fill_update : ExchangeFill → Notification
  position_update : ExchangePosition → Notification

-- The ledger's attributes, and the calls of its callbacks, the last one first.
pub record InMemoryLedger : Type 0 where
  pub orders : Dict ExecutionOrder
  pub fills : List ExchangeFill
  pub fill_keys : List FillKey
  pub positions : List ExchangePosition
  pub version : ℕ
  pub initialized : Bool
  pub wallet_balance : ℤ
  pub margin_balance : ℤ
  pub notified : List Notification

unfoldable pub update_balances : ℤ → ℤ → InMemoryLedger → InMemoryLedger
update_balances wallet margin l = record l { wallet_balance = wallet; margin_balance = margin }

unfoldable pub mark_initialized : InMemoryLedger → InMemoryLedger
mark_initialized l = record l { initialized = true }

unfoldable pub upsert_order : ExecutionOrder → InMemoryLedger → InMemoryLedger
upsert_order order l = record l { orders = put order.client_order_id order l.orders }

-- An order as the exchange sends it, its texts parsed; a required field that is missing or blank, or a text that does not
-- parse, is `none`; a price that is missing is 0.
pub record RawOrder : Type 0 where
  pub symbol : Option String
  pub client_order_id : Option String
  pub status : Option String
  pub side : Option OrderSide
  pub orig_qty : Option ℤ
  pub order_id : Option String
  pub price : Option ℤ
  pub order_type : String
  pub position_side : Option PositionSide
  pub reduce_only : Bool
  pub time_in_force : Option TimeInForce

abbrev pub strategy_of : Option ExecutionOrder → String
strategy_of none = "portfolio"
strategy_of (some order) = order.strategy_id

abbrev pub decision_of : Option ExecutionOrder → Option String
decision_of none = none
decision_of (some order) = order.decision_id

abbrev pub target_of : Option ExecutionOrder → Option String
target_of none = none
target_of (some order) = order.target_exposure_id

abbrev pub intents_of : Option ExecutionOrder → List String
intents_of none = []
intents_of (some order) = order.source_intent_ids

abbrev pub class_of : Option ExecutionOrder → EconomicRiskClass
class_of none = EconomicRiskClass.noop
class_of (some order) = order.risk_class

-- the order that is stored: what the exchange does not know is kept from the order of the same id
unfoldable pub exchange_order : ℕ → RawOrder → InMemoryLedger → Option ExecutionOrder
exchange_order now raw l = do
  symbol ← raw.symbol
  client_order_id ← raw.client_order_id
  status ← raw.status
  side ← raw.side
  quantity ← raw.orig_qty
  order_id ← raw.order_id
  price ← raw.price
  position_side ← raw.position_side
  time_in_force ← raw.time_in_force
  let old = get client_order_id l.orders
  some (record {
    symbol = symbol;
    side = side;
    quantity = quantity;
    price = price;
    order_type = raw.order_type;
    client_order_id = client_order_id;
    status = status;
    exchange_order_id = some order_id;
    timestamp = now;
    market_type = MarketType.usdm_futures;
    position_side = position_side;
    reduce_only = raw.reduce_only;
    time_in_force = time_in_force;
    strategy_id = strategy_of old;
    decision_id = decision_of old;
    target_exposure_id = target_of old;
    source_intent_ids = intents_of old;
    risk_class = class_of old;
  })

unfoldable pub store_order : ExecutionOrder → InMemoryLedger → InMemoryLedger
store_order order l = record l {
  orders = put order.client_order_id order l.orders;
  version = l.version + 1;
  notified = order_update order ∷ l.notified;
}

-- `upsert_raw_exchange_order`; none where it raises
unfoldable pub upsert_raw_exchange_order : ℕ → RawOrder → InMemoryLedger → Option InMemoryLedger
upsert_raw_exchange_order now raw l =
    exchange_order now raw l >>= (λ order. some (store_order order l))

abbrev pub is_labelled : String → String → String → Bool
is_labelled label prefix source = str_eq source label || starts_with source prefix

-- the venue of a source, whose phase is no part of it
unfoldable pub venue_of : String → String
venue_of source =
    if is_labelled "BINANCE_TESTNET" "BINANCE_TESTNET_" source
    then "BINANCE_TESTNET"
    else if is_labelled "BINANCE_MAINNET" "BINANCE_MAINNET_" source
    then "BINANCE_MAINNET"
    else if str_eq source ""
    then "UNKNOWN"
    else source

-- `_get_fill_key`
abbrev pub get_fill_key : ExchangeFill → FillKey
get_fill_key f = record {
  venue = venue_of f.source;
  symbol = f.symbol;
  trade_id = f.exchange_trade_id;
}

abbrev pub key_eq : FillKey → FillKey → Bool
key_eq j k = str_eq j.venue k.venue && str_eq j.symbol k.symbol && str_eq j.trade_id k.trade_id

abbrev pub holds_key : FillKey → List FillKey → Bool
holds_key k [] = false
holds_key k (j ∷ js) = key_eq j k || holds_key k js

abbrev pub scan : FillKey → List ExchangeFill → Bool
scan k [] = false
scan k (f ∷ fs) = key_eq (get_fill_key f) k || scan k fs

-- `has_fill`, of a key as `_get_fill_key` makes it
unfoldable pub has_fill : FillKey → InMemoryLedger → Bool
has_fill k l = if holds_key k l.fill_keys then true else scan k l.fills

unfoldable pub append_fill : ExchangeFill → InMemoryLedger → InMemoryLedger
append_fill f l =
    let k = get_fill_key f in
    if holds_key k l.fill_keys || has_fill k l then l else record l {
      fills = l.fills ++ f ∷ [];
      fill_keys = k ∷ l.fill_keys;
      version = l.version + 1;
      notified = fill_update f ∷ l.notified;
    }

unfoldable pub get_order_by_client_id : String → InMemoryLedger → Option ExecutionOrder
get_order_by_client_id k l = get k l.orders

abbrev pub has_exchange_id : String → ExecutionOrder → Bool
has_exchange_id k order = elim order.exchange_order_id [
  | none ↦ str_eq k "None"
  | some j ↦ str_eq j k
]

unfoldable pub first_with : String → Dict ExecutionOrder → Option ExecutionOrder
first_with k [] = none
first_with k ((j, order) ∷ os) = if has_exchange_id k order then some order else first_with k os

abbrev pub get_order_by_exchange_id : String → InMemoryLedger → Option ExecutionOrder
get_order_by_exchange_id k l = first_with k l.orders

-- the position that may carry a key
abbrev pub is_same_position : ExchangePosition → ExchangePosition → Bool
is_same_position p q = str_eq p.symbol q.symbol && side_eq p.position_side q.position_side

abbrev pub is_active : ExchangePosition → Bool
is_active p = not (is_zero p.quantity)

abbrev pub was_active : List ExchangePosition → ExchangePosition → Bool
was_active [] p = false
was_active (q ∷ qs) p = (is_active q && is_same_position q p) || was_active qs p

-- the updates of `replace_positions`: of positions that are active, or were
abbrev pub replaced_updates :
    List ExchangePosition → List ExchangePosition → List Notification → List Notification
replaced_updates old [] ns = ns
replaced_updates old (p ∷ ps) ns =
    replaced_updates old ps (if is_active p || was_active old p then position_update p ∷ ns else ns)

unfoldable pub read_positions : List RawPosition → Option (List ExchangePosition)
read_positions [] = some []
read_positions (raw ∷ raws) =
    to_exchange_position raw >>= (λ p. read_positions raws >>= (λ ps. some (p ∷ ps)))

unfoldable pub replace_positions : List RawPosition → Bool → InMemoryLedger → Option InMemoryLedger
replace_positions raws mark l = read_positions raws >>= (λ ps. some (record l {
  positions = ps;
  initialized = l.initialized || mark;
  notified = replaced_updates l.positions ps l.notified;
}))

-- the first position of the same symbol and side is replaced, or the new one is appended
abbrev pub put_position : ExchangePosition → List ExchangePosition → List ExchangePosition
put_position p [] = p ∷ []
put_position p (q ∷ qs) =
    let rest = put_position p qs in if is_same_position q p then p ∷ qs else q ∷ rest

-- the update is announced if the position is active, or the one that it replaces was
abbrev pub announces : ExchangePosition → List ExchangePosition → Bool
announces p [] = is_active p
announces p (q ∷ qs) =
    let rest = announces p qs in if is_same_position q p then is_active p || is_active q else rest

unfoldable pub upsert_position : RawPosition → InMemoryLedger → Option InMemoryLedger
upsert_position raw l = to_exchange_position raw >>= (λ p. some (record l {
  positions = put_position p l.positions;
  version = l.version + 1;
  notified = if announces p l.positions then position_update p ∷ l.notified else l.notified;
}))

abbrev pub without_symbol : String → List ExchangePosition → List ExchangePosition
without_symbol t [] = []
without_symbol t (p ∷ ps) =
    let rest = without_symbol t ps in if str_eq p.symbol t then rest else p ∷ rest

unfoldable pub clear_positions_for_symbol : String → InMemoryLedger → InMemoryLedger
clear_positions_for_symbol t l = record l {
  positions = without_symbol t l.positions;
  version = l.version + 1;
}

unfoldable pub open_orders : Dict ExecutionOrder → List ExecutionOrder
open_orders [] = []
open_orders ((k, order) ∷ os) =
    let rest = open_orders os in if is_open order then order ∷ rest else rest

abbrev pub get_open_orders : InMemoryLedger → List ExecutionOrder
get_open_orders l = open_orders l.orders

-- a call of a method that changes the ledger
pub data Call : Type 0 where
  balances : ℤ → ℤ → Call
  initialize : Call
  order : ExecutionOrder → Call
  raw_order : ℕ → RawOrder → Call
  fill : ExchangeFill → Call
  all_positions : List RawPosition → Bool → Call
  position : RawPosition → Call
  clear : String → Call

-- The ledger after a call; a call that raises leaves it as it is.
abbrev pub or_same : Option InMemoryLedger → InMemoryLedger → InMemoryLedger
or_same none l = l
or_same (some m) l = m

unfoldable pub call : Call → InMemoryLedger → InMemoryLedger
call (balances wallet margin) l = update_balances wallet margin l
call initialize l = mark_initialized l
call (order o) l = upsert_order o l
call (raw_order now raw) l = or_same (upsert_raw_exchange_order now raw l) l
call (fill f) l = append_fill f l
call (all_positions raws mark) l = or_same (replace_positions raws mark l) l
call (position raw) l = or_same (upsert_position raw l) l
call (clear t) l = clear_positions_for_symbol t l

unfoldable pub call_all : List Call → InMemoryLedger → InMemoryLedger
call_all [] l = l
call_all (c ∷ cs) l = call_all cs (call c l)

abbrev pub empty_ledger : InMemoryLedger
empty_ledger = record {
  orders = [];
  fills = [];
  fill_keys = [];
  positions = [];
  version = 0;
  initialized = false;
  wallet_balance = pos 0;
  margin_balance = pos 0;
  notified = [];
}
