-- ===== src/Binance/Rules.antt =====
-- apps/trading_worker/venues/binance/symbol_rules.py: `SymbolTradingRules`. Decimals are whole numbers
-- of a unit of which `one` make 1, so a product of two counts units of which `one * one` make 1; they
-- have at most 14 digits, so that Python's quotients and products do not lose the digits that count.
-- The rules that are stored are finite numbers, as the parser makes them. Texts such as symbols and
-- order types are in upper case, as the exchange writes them.
pub mod Parse
pub mod Normal
mod Kept
pub mod Notional
pub mod Filters
pub mod PercentPrice
pub mod Contains
mod Tests
use blessing_ai.Prelude.{
  ℕ, ◌+◌, ◌-◌, ◌*◌, ◌/◌, String, Bool, true, false, ◌&&◌, ◌||◌, not, Option, none, some, List, [],
  ◌∷◌, any, ltb, leb, ◌==◌, str_eq, if◌then◌else◌,
}
use blessing_ai.Prelude.Int.{ℤ, pos, abs, neg, ltb_ℤ, leb_ℤ}
use blessing_ai.Domain.{OrderSide, Value, finite, is_buy}

pub record SymbolTradingRules : Type 0 where
  pub symbol : String
  pub base_asset : String
  pub quote_asset : String
  pub margin_asset : String
  pub contract_type : String
  pub price_precision : Option ℕ
  pub quantity_precision : Option ℕ
  pub status : String
  pub tick_size : ℤ
  pub min_price : ℤ
  pub max_price : ℤ
  pub step_size : ℤ
  pub min_qty : ℤ
  pub max_qty : ℤ
  pub market_min_qty : Option ℤ
  pub market_max_qty : Option ℤ
  pub market_step_size : Option ℤ
  pub min_notional : ℤ
  pub max_notional : ℤ
  pub min_notional_apply_to_market : Bool
  pub max_notional_apply_to_market : Bool
  pub multiplier_up : Option ℤ
  pub multiplier_down : Option ℤ
  pub bid_multiplier_up : Option ℤ
  pub bid_multiplier_down : Option ℤ
  pub ask_multiplier_up : Option ℤ
  pub ask_multiplier_down : Option ℤ
  pub supported_order_types : List String
  pub parsed_from_exchange_info : Bool
  pub seen_filter_types : List String
  pub min_notional_constraints : List (ℤ × Bool)
  pub max_notional_constraints : List (ℤ × Bool)

abbrev pub contains : String → List String → Bool
contains t ts = any (str_eq t) ts

abbrev pub has_seen : String → SymbolTradingRules → Bool
has_seen t r = contains t r.seen_filter_types

abbrev pub has_percent_price_filter : SymbolTradingRules → Bool
has_percent_price_filter r = has_seen "PERCENT_PRICE" r || has_seen "PERCENT_PRICE_BY_SIDE" r

abbrev pub is_above_zero : ℤ → Bool
is_above_zero z = ltb_ℤ (pos 0) z

-- `_valid_multiplier`
abbrev pub valid_multiplier : Option ℤ → Bool
valid_multiplier none = false
valid_multiplier (some m) = is_above_zero m

-- `up >= down`, only read where both are valid
abbrev pub not_below : Option ℤ → Option ℤ → Bool
not_below (some up) (some down) = leb_ℤ down up
not_below (some up) none = false
not_below none down = false

abbrev pub band_ready : Option ℤ → Option ℤ → Bool
band_ready down up = valid_multiplier up && valid_multiplier down && not_below up down

-- `_percent_price_rules_ready`
unfoldable pub percent_price_rules_ready : SymbolTradingRules → Bool
percent_price_rules_ready r =
    (not (has_seen "PERCENT_PRICE" r) || band_ready r.multiplier_down r.multiplier_up)
    && (not (has_seen "PERCENT_PRICE_BY_SIDE" r)
        || (band_ready r.bid_multiplier_down r.bid_multiplier_up
            && band_ready r.ask_multiplier_down r.ask_multiplier_up))

abbrev pub max_ℤ : ℤ → ℤ → ℤ
max_ℤ a b = if ltb_ℤ a b then b else a

abbrev pub min_ℤ : ℤ → ℤ → ℤ
min_ℤ a b = if ltb_ℤ b a then b else a

-- the values of the constraints that apply to a market order
abbrev pub applicable : List (ℤ × Bool) → List ℤ
applicable [] = []
applicable ((v, applies) ∷ cs) = let rest = applicable cs in if applies then v ∷ rest else rest

abbrev pub values : List (ℤ × Bool) → List ℤ
values [] = []
values ((v, applies) ∷ cs) = v ∷ values cs

-- `max(values, default=Decimal("0"))` and `min(values, default=Decimal("0"))`
unfoldable pub largest : List ℤ → ℤ
largest [] = pos 0
largest (v ∷ []) = v
largest (v ∷ w ∷ vs) = max_ℤ v (largest (w ∷ vs))

unfoldable pub smallest : List ℤ → ℤ
smallest [] = pos 0
smallest (v ∷ []) = v
smallest (v ∷ w ∷ vs) = min_ℤ v (smallest (w ∷ vs))

abbrev pub is_empty : List (ℤ × Bool) → Bool
is_empty [] = true
is_empty (c ∷ cs) = false

unfoldable pub min_notional_for : Bool → SymbolTradingRules → ℤ
min_notional_for is_market r =
    if not is_market || is_empty r.min_notional_constraints
    then r.min_notional
    else largest (applicable r.min_notional_constraints)

unfoldable pub max_notional_for : Bool → SymbolTradingRules → ℤ
max_notional_for is_market r =
    if not is_market || is_empty r.max_notional_constraints
    then r.max_notional
    else smallest (applicable r.max_notional_constraints)

-- `lower` and `upper` of `validate_percent_price`, in units of a product
pub record Band : Type 0 where
  pub lower : ℕ
  pub upper : Option ℕ

abbrev pub factor : Option ℤ → ℕ
factor none = 0
factor (some m) = abs m

abbrev pub lesser : Option ℕ → ℕ → ℕ
lesser none u = u
lesser (some v) u = if ltb u v then u else v

-- `intersect`, for multipliers and a reference that are not negative
abbrev pub intersect : ℕ → Option ℤ → Option ℤ → Band → Band
intersect reference down up b = record {
  lower = if ltb b.lower (reference * factor down) then reference * factor down else b.lower;
  upper = some (lesser b.upper (reference * factor up));
}

abbrev pub intersect_if : Bool → ℕ → Option ℤ → Option ℤ → Band → Band
intersect_if seen reference down up b = if seen then intersect reference down up b else b

abbrev pub price_band : SymbolTradingRules → OrderSide → ℕ → Band
price_band r side reference =
    let b =
      intersect_if (has_seen "PERCENT_PRICE" r) reference r.multiplier_down r.multiplier_up
        (record { lower = 0; upper = none }) in
    intersect_if (has_seen "PERCENT_PRICE_BY_SIDE" r) reference
      (if is_buy side then r.bid_multiplier_down else r.ask_multiplier_down)
      (if is_buy side then r.bid_multiplier_up else r.ask_multiplier_up) b

abbrev pub above : ℕ → Option ℕ → Bool
above p none = false
above p (some u) = ltb u p

abbrev pub is_positive_reference : Option Value → Bool
is_positive_reference (some (finite p)) = is_above_zero p
is_positive_reference _ = false

abbrev pub reference_amount : Option Value → ℕ
reference_amount (some (finite p)) = abs p
reference_amount _ = 0

-- `validate_percent_price` of a positive price, for a side that is BUY or SELL
unfoldable pub validate_percent_price : ℕ → SymbolTradingRules → ℕ → OrderSide → Option Value → Bool
validate_percent_price one r price side reference =
    let b = price_band r side (reference_amount reference) in
    if not (has_percent_price_filter r)
    then true
    else percent_price_rules_ready r
      && is_positive_reference reference
      && not (ltb (one * price) b.lower || above (one * price) b.upper)

abbrev pub is_market_ready : SymbolTradingRules → Bool
is_market_ready r = elim r.market_step_size [
  | none ↦ false
  | some step ↦ elim r.market_min_qty [
    | none ↦ false
    | some low ↦ elim r.market_max_qty [
      | none ↦ false
      | some high ↦ is_above_zero step && is_above_zero low && leb_ℤ low high
    ]
  ]
]

abbrev pub no_texts : List String → Bool
no_texts [] = true
no_texts (t ∷ ts) = false

-- `is_ready_for`
unfoldable pub is_ready_for : String → SymbolTradingRules → Bool
is_ready_for order_type r =
    str_eq r.status "TRADING"
    && is_above_zero r.tick_size
    && (not r.parsed_from_exchange_info
        || (is_above_zero r.min_price && leb_ℤ r.min_price r.max_price))
    && is_above_zero r.step_size
    && is_above_zero r.min_qty
    && leb_ℤ r.min_qty r.max_qty
    && is_above_zero r.min_notional
    && (not r.parsed_from_exchange_info
        || (has_seen "PRICE_FILTER" r
            && has_seen "LOT_SIZE" r
            && (has_seen "MIN_NOTIONAL" r || has_seen "NOTIONAL" r)
            && (not (str_eq order_type "MARKET" && has_seen "MARKET_LOT_SIZE" r)
                || is_market_ready r)
            && percent_price_rules_ready r
            && not (no_texts r.supported_order_types)))
    && (no_texts r.supported_order_types || contains order_type r.supported_order_types)

unfoldable pub is_usdc_perpetual : SymbolTradingRules → Bool
is_usdc_perpetual r =
    str_eq r.status "TRADING"
    && str_eq r.contract_type "PERPETUAL"
    && str_eq r.quote_asset "USDC"
    && str_eq r.margin_asset "USDC"

abbrev pub is_zero : ℤ → Bool
is_zero z = abs z == 0

-- `x if x else y`, where None and zero count as false
abbrev pub or_nonzero : Option ℤ → ℤ → ℤ
or_nonzero none y = y
or_nonzero (some x) y = if is_zero x then y else x

-- `int(x / y) * y` for a positive `x`: the quotient is cut towards zero
abbrev pub whole_steps : ℕ → ℤ → ℕ
whole_steps x y = x / abs y * abs y

unfoldable pub normalize_quantity : SymbolTradingRules → ℤ → Bool → ℤ
normalize_quantity r quantity is_market =
    let step = or_nonzero (if is_market then r.market_step_size else none) r.step_size in
    if is_zero step
    then quantity
    else if not (is_above_zero quantity)
    then pos 0
    else pos (whole_steps (abs quantity) step)

-- The result one tick further on: a negative tick, which no rule that is ready has, counts down.
abbrev pub next_tick : ℕ → ℤ → ℤ
next_tick n tick =
    if is_above_zero tick then pos (n + abs tick) else if n == 0 then tick else pos (n - abs tick)

unfoldable pub normalize_price : SymbolTradingRules → ℤ → Bool → ℤ
normalize_price r price round_up =
    let n = whole_steps (abs price) r.tick_size in
    if is_zero r.tick_size
    then price
    else if not (is_above_zero price)
    then pos 0
    else if round_up && ltb n (abs price)
    then next_tick n r.tick_size
    else pos n
