-- ===== src/Binance/Market.antt =====
-- apps/trading_worker/venues/binance/execution.py: the market samples that `BinanceExecutionAdapter` records from its
-- stream and from its REST answers, and what the order gate asks of them. Prices are finite, symbols and venues in upper case.
mod Fresh
pub mod Provenance
mod Tests
use blessing_ai.Prelude.{
  ℕ, String, Bool, true, false, ◌&&◌, ◌||◌, not, Option, none, some, if◌then◌else◌, str_eq,
}
use blessing_ai.Prelude.Int.{ℤ, leb_ℤ}
use blessing_ai.Prelude.Dict.{Dict, get, put}
use blessing_ai.Domain.{MarketType, Timestamp, not_datetime, naive, aware}
use blessing_ai.Binance.Rules.{is_above_zero, or_nonzero}
use blessing_ai.Binance.Limits.{BinanceEnvironment}
use blessing_ai.Binance.Gates.{is_fresh}
use blessing_ai.Binance.Gates.Order.Prepare.{is_usdm}

pub record MarketEvent : Type 0 where
  pub event_time : Timestamp
  pub symbol : String
  pub venue : String
  pub market_type : MarketType
  pub last_price : ℤ
  pub best_bid : ℤ
  pub best_ask : ℤ
  pub mark_price : Option ℤ

-- The adapter's dicts, by symbol.
pub record Samples : Type 0 where
  pub last_market_event_at : Dict Timestamp
  pub last_market_price : Dict ℤ
  pub last_market_event_source : Dict String
  pub last_market_event_venue : Dict String
  pub last_market_event_market_type : Dict MarketType
  pub last_market_reference_price : Dict ℤ
  pub last_market_reference_at : Dict Timestamp
  pub last_market_bid : Dict ℤ
  pub last_market_ask : Dict ℤ
  pub last_market_bid_qty : Dict ℤ
  pub last_market_ask_qty : Dict ℤ

-- `environment_label`
abbrev pub environment_label : BinanceEnvironment → String
environment_label BinanceEnvironment.testnet = "BINANCE_TESTNET"
environment_label BinanceEnvironment.mainnet = "BINANCE_MAINNET"

abbrev pub stream_source : BinanceEnvironment → String
stream_source BinanceEnvironment.testnet = "BINANCE_TESTNET_WS"
stream_source BinanceEnvironment.mainnet = "BINANCE_MAINNET_WS"

abbrev pub rest_source : BinanceEnvironment → String
rest_source BinanceEnvironment.testnet = "BINANCE_TESTNET_REST"
rest_source BinanceEnvironment.mainnet = "BINANCE_MAINNET_REST"

abbrev pub has_zone : Timestamp → Bool
has_zone (aware t) = true
has_zone _ = false

-- an event of the route, with a price above 0 and a time
abbrev pub is_recorded : BinanceEnvironment → MarketEvent → Bool
is_recorded env e =
    is_usdm e.market_type
    && str_eq e.venue (environment_label env)
    && is_above_zero (or_nonzero e.mark_price e.last_price)
    && has_zone e.event_time

abbrev pub with_sample : BinanceEnvironment → MarketEvent → Samples → Samples
with_sample env e s = record s {
  last_market_event_at = put e.symbol e.event_time s.last_market_event_at;
  last_market_price = put e.symbol (or_nonzero e.mark_price e.last_price) s.last_market_price;
  last_market_event_source = put e.symbol (stream_source env) s.last_market_event_source;
  last_market_event_venue = put e.symbol (environment_label env) s.last_market_event_venue;
  last_market_event_market_type =
      put e.symbol MarketType.usdm_futures s.last_market_event_market_type;
}

abbrev pub with_reference : String → Timestamp → Option ℤ → Samples → Samples
with_reference symbol at none s = s
with_reference symbol at (some m) s =
    if is_above_zero m
    then record s {
      last_market_reference_price = put symbol m s.last_market_reference_price;
      last_market_reference_at = put symbol at s.last_market_reference_at;
    }
    else s

abbrev pub with_mark : MarketEvent → Samples → Samples
with_mark e s = with_reference e.symbol e.event_time e.mark_price s

abbrev pub with_quotes : MarketEvent → Samples → Samples
with_quotes e s =
    if is_above_zero e.best_bid && leb_ℤ e.best_bid e.best_ask
    then record s {
      last_market_bid = put e.symbol e.best_bid s.last_market_bid;
      last_market_ask = put e.symbol e.best_ask s.last_market_ask;
    }
    else s

-- `record_market_event`: the samples, and whether the event was taken
unfoldable pub record_market_event : BinanceEnvironment → MarketEvent → Samples → Samples × Bool
record_market_event env e s =
    if is_recorded env e
    then (with_quotes e (with_mark e (with_sample env e s)), true)
    else (s, false)

-- What `_record_rest_market_sample` is called with: the prices and quantities, each none where it is not
-- given or not finite, and the time of the answer, none where `_exchange_event_time` finds none.
pub record RestSample : Type 0 where
  pub symbol : String
  pub price : Option ℤ
  pub timestamp : Option ℕ
  pub reference_price : Option ℤ
  pub bid : Option ℤ
  pub ask : Option ℤ
  pub bid_qty : Option ℤ
  pub ask_qty : Option ℤ

abbrev pub put_above_zero : String → Option ℤ → Dict ℤ → Dict ℤ
put_above_zero symbol none d = d
put_above_zero symbol (some q) d = if is_above_zero q then put symbol q d else d

abbrev pub with_book : RestSample → Option ℤ → Option ℤ → Samples → Samples
with_book r (some bid) (some ask) s = record s {
  last_market_bid = put r.symbol bid s.last_market_bid;
  last_market_ask = put r.symbol ask s.last_market_ask;
  last_market_bid_qty = put_above_zero r.symbol r.bid_qty s.last_market_bid_qty;
  last_market_ask_qty = put_above_zero r.symbol r.ask_qty s.last_market_ask_qty;
}
with_book r _ _ s = s

abbrev pub with_rest_sample : BinanceEnvironment → RestSample → ℤ → ℕ → Samples → Samples
with_rest_sample env r price t s = record s {
  last_market_event_at = put r.symbol (aware t) s.last_market_event_at;
  last_market_price = put r.symbol price s.last_market_price;
  last_market_event_source = put r.symbol (rest_source env) s.last_market_event_source;
  last_market_event_venue = put r.symbol (environment_label env) s.last_market_event_venue;
  last_market_event_market_type =
      put r.symbol MarketType.usdm_futures s.last_market_event_market_type;
}

abbrev pub rest_recorded :
    BinanceEnvironment → RestSample → Option ℤ → Option ℕ → Samples → Samples × Bool
rest_recorded env r (some price) (some t) s =
    if is_above_zero price
    then (
      with_book r r.bid r.ask
          (with_reference r.symbol (aware t) r.reference_price (with_rest_sample env r price t s)),
      true,
    )
    else (s, false)
rest_recorded env r _ _ s = (s, false)

-- `_record_rest_market_sample`
unfoldable pub record_rest_market_sample :
    BinanceEnvironment → RestSample → Samples → Samples × Bool
record_rest_market_sample env r s = rest_recorded env r r.price r.timestamp s

abbrev pub is_text : Option String → String → Bool
is_text none t = false
is_text (some s) t = str_eq s t

abbrev pub is_usdm_sample : Option MarketType → Bool
is_usdm_sample none = false
is_usdm_sample (some t) = is_usdm t

unfoldable pub has_authoritative_market_sample : BinanceEnvironment → String → Samples → Bool
has_authoritative_market_sample env symbol s =
    (is_text (get symbol s.last_market_event_source) (stream_source env)
      || is_text (get symbol s.last_market_event_source) (rest_source env))
    && is_text (get symbol s.last_market_event_venue) (environment_label env)
    && is_usdm_sample (get symbol s.last_market_event_market_type)

abbrev pub fresh_price : ℕ → Option Timestamp → ℕ → Option ℤ → Option ℤ
fresh_price max_age at now none = none
fresh_price max_age at now (some p) =
    if is_above_zero p && is_fresh max_age at now then some p else none

-- `get_market_reference_price`
unfoldable pub get_market_reference_price : ℕ → ℕ → String → Samples → Option ℤ
get_market_reference_price max_age now symbol s =
    fresh_price max_age (get symbol s.last_market_reference_at) now
      (get symbol s.last_market_reference_price)
