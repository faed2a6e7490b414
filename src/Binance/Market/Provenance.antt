-- ===== src/Binance/Market/Provenance.antt =====
-- Where a reference price comes from.
use blessing_ai.Prelude.{
  ℕ, ◌-◌, ◌≤◌, String, Bool, true, false, Option, none, some, List, [], ◌∷◌, arith, ◌≡◌, refl, sym,
  ap, ◌∙◌, subst, inl, inr, Bool-cases, str_eq, eq_iff, In, here, there, on_branches,
}
use blessing_ai.Prelude.Int.{ℤ}
use blessing_ai.Prelude.Dict.{Dict, get, put, get-put}
use blessing_ai.Domain.{MarketType, Timestamp, aware, naive, not_datetime}
use blessing_ai.Binance.Rules.{is_above_zero}
use blessing_ai.Binance.Limits.{BinanceEnvironment}
use blessing_ai.Binance.Gates.{is_fresh}
use blessing_ai.Binance.Gates.Order.Prepare.{is_usdm}
use blessing_ai.Binance.Market.Fresh.{fresh_price-lem, is_fresh-lem}
use blessing_ai.Binance.Market.{
  MarketEvent, RestSample, Samples, is_recorded, has_zone, environment_label, with_sample,
  with_reference, with_mark, with_quotes, record_market_event, with_book, with_rest_sample,
  rest_recorded, record_rest_market_sample, get_market_reference_price,
}

abbrev pub no_samples : Samples
no_samples = record {
  last_market_event_at = [];
  last_market_price = [];
  last_market_event_source = [];
  last_market_event_venue = [];
  last_market_event_market_type = [];
  last_market_reference_price = [];
  last_market_reference_at = [];
  last_market_bid = [];
  last_market_ask = [];
  last_market_bid_qty = [];
  last_market_ask_qty = [];
}

-- what is recorded: an event of the stream, or an answer of the REST interface
pub data Report : Type 0 where
  stream : MarketEvent → Report
  rest : RestSample → Report

abbrev pub record_report : BinanceEnvironment → Report → Samples → Samples
record_report env (stream e) s = (record_market_event env e s).0
record_report env (rest r) s = (record_rest_market_sample env r s).0

-- the samples after some reports, the last one first
unfoldable pub record_all : BinanceEnvironment → List Report → Samples
record_all env [] = no_samples
record_all env (x ∷ xs) = record_report env x (record_all env xs)

-- The report carried the price as the mark price of the symbol at a time; an event of the stream came
-- from the venue of the environment, for the USDⓈ-M market.
abbrev pub IsSource : BinanceEnvironment → String → ℤ → ℕ → Report → Type 0
IsSource env symbol p t (stream e) =
    (e.symbol ≡ symbol)
    × (e.venue ≡ environment_label env)
    × (e.market_type ≡ MarketType.usdm_futures)
    × (e.mark_price ≡ some p)
    × (e.event_time ≡ aware t)
IsSource env symbol p t (rest r) =
    (r.symbol ≡ symbol) × (r.reference_price ≡ some p) × (r.timestamp ≡ some t)

abbrev IsTraced : BinanceEnvironment → String → List Report → Samples → Type 0
IsTraced env symbol xs s =
    (p : ℤ)
    → get symbol s.last_market_reference_price ≡ some p
    → (x : Report) × In x xs
      × (t : ℕ) × (get symbol s.last_market_reference_at ≡ some (aware t))
      × IsSource env symbol p t x

later :
    (env : BinanceEnvironment) (symbol : String) (x : Report) (xs : List Report) (s : Samples)
    → IsTraced env symbol xs s
    → IsTraced env symbol (x ∷ xs) s
later env symbol x xs s h p f = let (y, i, t, time, src) = h p f in (y, there i, t, time, src)

put_same {ℓ} :
    {V : Type ℓ} (k j : String) (v : V) (d : Dict V)
    → str_eq k j ≡ true
    → get j (put k v d) ≡ some v
put_same k j v d e = get-put k j v d ∙ rw e refl

put_other {ℓ} :
    {V : Type ℓ} (k j : String) (v : V) (d : Dict V)
    → str_eq k j ≡ false
    → get j (put k v d) ≡ get j d
put_other k j v d e = get-put k j v d ∙ rw e refl

some_eq : {a b : ℤ} → some a ≡ some b → a ≡ b
some_eq e = cc

with_reference-IsTraced :
    (env : BinanceEnvironment) (symbol u : String) (at : Timestamp) (t : ℕ) (x : Report)
    (xs : List Report) (s : Samples) (o : Option ℤ)
    → at ≡ aware t
    → ((m : ℤ) → o ≡ some m → u ≡ symbol → IsSource env symbol m t x)
    → IsTraced env symbol xs s
    → IsTraced env symbol (x ∷ xs) (with_reference u at o s)
with_reference-IsTraced env symbol u at t x xs s none time src h = later env symbol x xs s h
with_reference-IsTraced env symbol u at t x xs s (some m) time src h =
    on_branches (IsTraced env symbol (x ∷ xs)) (is_above_zero m)
      (λ positive p g. elim (Bool-cases (str_eq u symbol)) [
        | inl same ↦
            let found : m ≡ p =
              some_eq (sym (put_same u symbol m s.last_market_reference_price same) ∙ g) in
            (
              x,
              here,
              t,
              put_same u symbol at s.last_market_reference_at same ∙ ap some time,
              subst (λ q. IsSource env symbol q t x) found (src m refl ((eq_iff u symbol).0 same)),
            )
        | inr other ↦
            let (y, i, v, old, known) =
              h p (sym (put_other u symbol m s.last_market_reference_price other) ∙ g) in
            (y, there i, v, put_other u symbol at s.last_market_reference_at other ∙ old, known)
      ])
      (λ negative. later env symbol x xs s h)

with_quotes-IsTraced :
    (env : BinanceEnvironment) (symbol : String) (e : MarketEvent) (xs : List Report) (s : Samples)
    → IsTraced env symbol xs s
    → IsTraced env symbol xs (with_quotes e s)
with_quotes-IsTraced env symbol e xs s h = on_branches (IsTraced env symbol xs) _ (λ q. h) (λ q. h)

with_book-IsTraced :
    (env : BinanceEnvironment) (symbol : String) (r : RestSample) (bid ask : Option ℤ)
    (xs : List Report) (s : Samples)
    → IsTraced env symbol xs s
    → IsTraced env symbol xs (with_book r bid ask s)
with_book-IsTraced env symbol r none ask xs s h = h
with_book-IsTraced env symbol r (some b) none xs s h = h
with_book-IsTraced env symbol r (some b) (some a) xs s h = h

usdm_market : (m : MarketType) → is_usdm m ≡ true → m ≡ MarketType.usdm_futures
usdm_market m h = ground (arith, h)

zoned : (at : Timestamp) → has_zone at ≡ true → (t : ℕ) × (at ≡ aware t)
zoned (aware t) h = (t, refl)
zoned naive h = cc
zoned not_datetime h = cc

-- the route and the time of an event that is recorded
recorded_route :
    (env : BinanceEnvironment) (e : MarketEvent)
    → is_recorded env e ≡ true
    → (e.venue ≡ environment_label env)
      × (e.market_type ≡ MarketType.usdm_futures)
      × (t : ℕ) × (e.event_time ≡ aware t)
recorded_route env e h =
    let (t, time) = zoned e.event_time (ground (arith, h)) in
    (
      (eq_iff e.venue (environment_label env)).0 (ground (arith, h)),
      usdm_market e.market_type (ground (arith, h)),
      t,
      time,
    )

stream-IsTraced :
    (env : BinanceEnvironment) (symbol : String) (e : MarketEvent) (xs : List Report) (s : Samples)
    → IsTraced env symbol xs s
    → IsTraced env symbol (stream e ∷ xs) ((record_market_event env e s).0)
unfolding record_market_event
stream-IsTraced env symbol e xs s h =
    on_branches (λ (x : Samples × Bool). IsTraced env symbol (stream e ∷ xs) x.0)
      (is_recorded env e)
      (λ r.
        let (venue, market, t, time) = recorded_route env e r in
        with_quotes-IsTraced env symbol e (stream e ∷ xs) (with_mark e (with_sample env e s)) (
          with_reference-IsTraced env symbol e.symbol e.event_time t (stream e) xs
            (with_sample env e s) e.mark_price time (λ m f same. (same, venue, market, f, time)) h))
      (λ r. later env symbol (stream e) xs s h)

rest-IsTraced :
    (env : BinanceEnvironment) (symbol : String) (r : RestSample) (price : Option ℤ) (at : Option ℕ)
    (xs : List Report) (s : Samples)
    → r.timestamp ≡ at
    → IsTraced env symbol xs s
    → IsTraced env symbol (rest r ∷ xs) ((rest_recorded env r price at s).0)
rest-IsTraced env symbol r none at xs s e h = later env symbol (rest r) xs s h
rest-IsTraced env symbol r (some price) none xs s e h = later env symbol (rest r) xs s h
rest-IsTraced env symbol r (some price) (some t) xs s e h =
    let sampled = with_rest_sample env r price t s in
    on_branches (λ (x : Samples × Bool). IsTraced env symbol (rest r ∷ xs) x.0)
      (is_above_zero price)
      (λ positive.
        with_book-IsTraced env symbol r r.bid r.ask (rest r ∷ xs)
          (with_reference r.symbol (aware t) r.reference_price sampled)
          (with_reference-IsTraced env symbol r.symbol (aware t) t (rest r) xs sampled
            r.reference_price refl (λ m f same. (same, f, e)) h))
      (λ negative. later env symbol (rest r) xs s h)

record_all-IsTraced :
    (env : BinanceEnvironment) (symbol : String) (xs : List Report)
    → IsTraced env symbol xs (record_all env xs)
unfolding record_all record_rest_market_sample get
record_all-IsTraced env symbol [] = λ p f. ground arith
record_all-IsTraced env symbol (stream e ∷ xs) =
    stream-IsTraced env symbol e xs (record_all env xs) (record_all-IsTraced env symbol xs)
record_all-IsTraced env symbol (rest r ∷ xs) =
    rest-IsTraced env symbol r r.price r.timestamp xs (record_all env xs) refl
      (record_all-IsTraced env symbol xs)

-- A reference price that the adapter gives is above 0, and was reported for the same symbol at a time that
-- is not later than now and at most the age allowed before it: as the reference price of a REST answer,
-- or as the mark price of an event of the stream that came from the venue of the environment for the
-- USDⓈ-M market.
pub reference_price_traced :
    (env : BinanceEnvironment) (xs : List Report) (max_age now : ℕ) (symbol : String) (p : ℤ)
    → get_market_reference_price max_age now symbol (record_all env xs) ≡ some p
    → (is_above_zero p ≡ true)
      × (x : Report) × In x xs
      × (t : ℕ) × IsSource env symbol p t x
      × (t ≤ now)
      × (now - t ≤ max_age)
unfolding get_market_reference_price
reference_price_traced env xs max_age now symbol p e =
    let s = record_all env xs in
    let (found, positive, fresh) =
      fresh_price-lem max_age now (get symbol s.last_market_reference_at)
        (get symbol s.last_market_reference_price) p e in
    let (x, i, t, time, src) = record_all-IsTraced env symbol xs p found in
    let (past, young) =
      is_fresh-lem max_age now t (subst (λ o. is_fresh max_age o now ≡ true) time fresh) in
    (positive, x, i, t, src, past, young)
