-- ===== src/Binance/Market/Tests.antt =====
-- Market samples at concrete inputs.
use blessing_ai.Prelude.{ℕ, ◌-◌, ◌≤◌, ◌≡◌, refl, true, false, some, none, List, [], ◌∷◌, In}
use blessing_ai.Prelude.Int.{pos}
use blessing_ai.Prelude.Dict.{get, put}
use blessing_ai.Domain.{MarketType, aware}
use blessing_ai.Binance.Rules.{is_above_zero}
use blessing_ai.Binance.Limits.{BinanceEnvironment}
use blessing_ai.Binance.Market.{
  MarketEvent, record_market_event, has_authoritative_market_sample, get_market_reference_price,
  RestSample, record_rest_market_sample,
}
use blessing_ai.Binance.Market.Provenance.{
  Report, stream, rest, IsSource, record_all, no_samples, reference_price_traced,
}

abbrev event : MarketEvent
event = record {
  event_time = aware 100;
  symbol = "ETHUSDC";
  venue = "BINANCE_MAINNET";
  market_type = MarketType.usdm_futures;
  last_price = pos 1001;
  best_bid = pos 999;
  best_ask = pos 1001;
  mark_price = some (pos 1000);
}

-- an event of the other route is not taken, and one without a mark price leaves the reference price
abbrev events : List Report
events =
    stream (record event { event_time = aware 120; mark_price = none })
    ∷ stream (record event { venue = "BINANCE_TESTNET"; mark_price = some (pos 7) })
    ∷ stream event
    ∷ []

-- the answer to a poll for the mark price
abbrev polled : RestSample
polled = record {
  symbol = "ETHUSDC";
  price = some (pos 1003);
  timestamp = some 122;
  reference_price = some (pos 1002);
  bid = none;
  ask = none;
  bid_qty = none;
  ask_qty = none;
}

polls :
    get_market_reference_price 30 125 "ETHUSDC"
      (record_all BinanceEnvironment.mainnet (rest polled ∷ events))
    ≡ some (pos 1002)
unfolding get_market_reference_price record_all record_market_event record_rest_market_sample get
    put
polls = refl

references :
    get_market_reference_price 30 125 "ETHUSDC" (record_all BinanceEnvironment.mainnet events)
    ≡ some (pos 1000)
unfolding get_market_reference_price record_all record_market_event get put
references = refl

too_old :
    get_market_reference_price 30 131 "ETHUSDC" (record_all BinanceEnvironment.mainnet events)
    ≡ none
unfolding get_market_reference_price record_all record_market_event get put
too_old = refl

sampled :
    (has_authoritative_market_sample BinanceEnvironment.mainnet "ETHUSDC"
        (record_all BinanceEnvironment.mainnet events)
      ≡ true)
    × (has_authoritative_market_sample BinanceEnvironment.mainnet "ETHUSDC" no_samples ≡ false)
unfolding has_authoritative_market_sample record_all record_market_event get put
sampled = (refl, refl)

reference_price_traced_example :
    (is_above_zero (pos 1000) ≡ true)
    × (x : Report) × In x events
    × (t : ℕ) × IsSource BinanceEnvironment.mainnet "ETHUSDC" (pos 1000) t x
    × (t ≤ 125)
    × (125 - t ≤ 30)
reference_price_traced_example =
    reference_price_traced BinanceEnvironment.mainnet events 30 125 "ETHUSDC" (pos 1000) references
