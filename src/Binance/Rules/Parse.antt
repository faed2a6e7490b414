-- ===== src/Binance/Rules/Parse.antt =====
-- apps/trading_worker/venues/binance/symbol_rules.py: `parse_exchange_info`. A
-- filter's fields are the values that `Decimal(str(raw))` and the reading of a flag make of them,
-- blank fields left out; `none` is the `ValueError` that is raised.
use blessing_ai.Prelude.{
  ℕ, String, Bool, true, false, ◌&&◌, ◌||◌, not, Option, none, some, List, [], ◌∷◌, ◌++◌, str_eq,
  if◌then◌else◌, ◌>>=◌,
}
use blessing_ai.Prelude.Int.{ℤ, pos}
use blessing_ai.Prelude.Dict.{Dict, get}
use blessing_ai.Domain.{Value, invalid, non_finite, finite}
use blessing_ai.Binance.Rules.{SymbolTradingRules, is_above_zero, is_zero, max_ℤ, smallest, values}

-- One entry of `filters`; a flag that cannot be read is `none`.
pub record Filter : Type 0 where
  pub filter_type : String
  pub numbers : Dict Value
  pub flags : Dict (Option Bool)

-- The fields of `symbol_data`. A precision that `int` refuses is `some none`.
pub record SymbolData : Type 0 where
  pub status : String
  pub base_asset : String
  pub quote_asset : String
  pub margin_asset : String
  pub contract_type : String
  pub order_types : List String
  pub price_precision : Option (Option ℤ)
  pub quantity_precision : Option (Option ℤ)
  pub filters : List Filter

abbrev pub finite_only : Value → Option ℤ
finite_only invalid = none
finite_only non_finite = none
finite_only (finite n) = some n

-- `decimal_filter_value`
unfoldable pub decimal_filter_value : Filter → List String → Option ℤ
decimal_filter_value f [] = none
decimal_filter_value f (name ∷ names) = elim (get name f.numbers) [
  | none ↦ decimal_filter_value f names
  | some v ↦ finite_only v
]

-- `bool_filter_value`
abbrev pub bool_filter_value : Filter → String → Option Bool
bool_filter_value f name = elim (get name f.flags) [ none ↦ some true | some b ↦ b ]

abbrev pub any_applies : List (ℤ × Bool) → Bool
any_applies [] = false
any_applies ((v, applies) ∷ cs) = applies || any_applies cs

abbrev pub all_apply : List (ℤ × Bool) → Bool
all_apply [] = true
all_apply ((v, applies) ∷ cs) = applies && all_apply cs

abbrev pub add_min_notional : ℤ → Bool → SymbolTradingRules → Option SymbolTradingRules
add_min_notional value applies r =
    let cs = r.min_notional_constraints ++ (value, applies) ∷ [] in
    if not (is_above_zero value)
    then none
    else some (record r {
      min_notional_constraints = cs;
      min_notional = max_ℤ r.min_notional value;
      min_notional_apply_to_market = any_applies cs;
    })

abbrev pub add_max_notional : ℤ → Bool → SymbolTradingRules → Option SymbolTradingRules
add_max_notional value applies r =
    let cs = r.max_notional_constraints ++ (value, applies) ∷ [] in
    if is_zero value
    then some r
    else if not (is_above_zero value)
    then none
    else some (record r {
      max_notional_constraints = cs;
      max_notional = smallest (values cs);
      max_notional_apply_to_market = all_apply cs;
    })

unfoldable pub price_filter : Filter → SymbolTradingRules → Option SymbolTradingRules
price_filter f r = do
  low ← decimal_filter_value f ("minPrice" ∷ [])
  high ← decimal_filter_value f ("maxPrice" ∷ [])
  tick ← decimal_filter_value f ("tickSize" ∷ [])
  some (record r { min_price = low; max_price = high; tick_size = tick })

unfoldable pub lot_size : Filter → SymbolTradingRules → Option SymbolTradingRules
lot_size f r = do
  low ← decimal_filter_value f ("minQty" ∷ [])
  high ← decimal_filter_value f ("maxQty" ∷ [])
  step ← decimal_filter_value f ("stepSize" ∷ [])
  some (record r { min_qty = low; max_qty = high; step_size = step })

unfoldable pub market_lot_size : Filter → SymbolTradingRules → Option SymbolTradingRules
market_lot_size f r = do
  low ← decimal_filter_value f ("minQty" ∷ [])
  high ← decimal_filter_value f ("maxQty" ∷ [])
  step ← decimal_filter_value f ("stepSize" ∷ [])
  some (record r {
    market_min_qty = some low;
    market_max_qty = some high;
    market_step_size = some step;
  })

unfoldable pub min_notional_filter : Filter → SymbolTradingRules → Option SymbolTradingRules
min_notional_filter f r = do
  value ← decimal_filter_value f ("notional" ∷ "minNotional" ∷ [])
  applies ← bool_filter_value f "applyToMarket"
  add_min_notional value applies r

-- A NOTIONAL filter with no maximum raises.
unfoldable pub notional_filter : Filter → SymbolTradingRules → Option SymbolTradingRules
notional_filter f r = do
  value ← decimal_filter_value f ("minNotional" ∷ "notional" ∷ [])
  applies ← bool_filter_value f "applyMinToMarket"
  r' ← add_min_notional value applies r
  most ← decimal_filter_value f ("maxNotional" ∷ [])
  applies_max ← bool_filter_value f "applyMaxToMarket"
  add_max_notional most applies_max r'

unfoldable pub percent_price_filter : Filter → SymbolTradingRules → Option SymbolTradingRules
percent_price_filter f r = do
  up ← decimal_filter_value f ("multiplierUp" ∷ [])
  down ← decimal_filter_value f ("multiplierDown" ∷ [])
  some (record r { multiplier_up = some up; multiplier_down = some down })

unfoldable pub percent_price_by_side_filter :
    Filter → SymbolTradingRules → Option SymbolTradingRules
percent_price_by_side_filter f r = do
  bid_up ← decimal_filter_value f ("bidMultiplierUp" ∷ [])
  bid_down ← decimal_filter_value f ("bidMultiplierDown" ∷ [])
  ask_up ← decimal_filter_value f ("askMultiplierUp" ∷ [])
  ask_down ← decimal_filter_value f ("askMultiplierDown" ∷ [])
  some (record r {
    bid_multiplier_up = some bid_up;
    bid_multiplier_down = some bid_down;
    ask_multiplier_up = some ask_up;
    ask_multiplier_down = some ask_down;
  })

-- the body of the loop over `filters`
unfoldable pub apply_filter : Filter → SymbolTradingRules → Option SymbolTradingRules
apply_filter f r =
    let r' = record r { seen_filter_types = f.filter_type ∷ r.seen_filter_types } in
    if str_eq f.filter_type "PRICE_FILTER"
    then price_filter f r'
    else if str_eq f.filter_type "LOT_SIZE"
    then lot_size f r'
    else if str_eq f.filter_type "MARKET_LOT_SIZE"
    then market_lot_size f r'
    else if str_eq f.filter_type "MIN_NOTIONAL"
    then min_notional_filter f r'
    else if str_eq f.filter_type "NOTIONAL"
    then notional_filter f r'
    else if str_eq f.filter_type "PERCENT_PRICE"
    then percent_price_filter f r'
    else if str_eq f.filter_type "PERCENT_PRICE_BY_SIDE"
    then percent_price_by_side_filter f r'
    else some r'

unfoldable pub apply_filters : List Filter → SymbolTradingRules → Option SymbolTradingRules
apply_filters [] r = some r
apply_filters (f ∷ fs) r = apply_filter f r >>= apply_filters fs

-- `_parse_precision`
abbrev pub natural : ℤ → Option (Option ℕ)
natural (ℤ.pos n) = some (some n)
natural (ℤ.negsuc n) = none

abbrev pub parse_precision : Option (Option ℤ) → Option (Option ℕ)
parse_precision none = some none
parse_precision (some none) = none
parse_precision (some (some z)) = natural z

-- What the parser starts from: every rule is reset.
abbrev pub blank_rules : String → SymbolData → Option ℕ → Option ℕ → SymbolTradingRules
blank_rules symbol d price_precision quantity_precision = record {
  symbol = symbol;
  base_asset = d.base_asset;
  quote_asset = d.quote_asset;
  margin_asset = d.margin_asset;
  contract_type = d.contract_type;
  price_precision = price_precision;
  quantity_precision = quantity_precision;
  status = d.status;
  tick_size = pos 0;
  min_price = pos 0;
  max_price = pos 0;
  step_size = pos 0;
  min_qty = pos 0;
  max_qty = pos 0;
  market_min_qty = none;
  market_max_qty = none;
  market_step_size = none;
  min_notional = pos 0;
  max_notional = pos 0;
  min_notional_apply_to_market = true;
  max_notional_apply_to_market = true;
  multiplier_up = none;
  multiplier_down = none;
  bid_multiplier_up = none;
  bid_multiplier_down = none;
  ask_multiplier_up = none;
  ask_multiplier_down = none;
  supported_order_types = d.order_types;
  parsed_from_exchange_info = true;
  seen_filter_types = [];
  min_notional_constraints = [];
  max_notional_constraints = [];
}

-- a precision that is missing is derived from the tick or the step, by `_decimal_places`
abbrev pub or_places : Option ℕ → (ℤ → ℕ) → ℤ → Option ℕ
or_places none places size = some (places size)
or_places (some p) places size = some p

-- `parse_exchange_info`; `places` is `_decimal_places`, which reads the exponent of a `Decimal`
unfoldable pub parse_exchange_info : (ℤ → ℕ) → String → SymbolData → Option SymbolTradingRules
parse_exchange_info places symbol d = do
  price_precision ← parse_precision d.price_precision
  quantity_precision ← parse_precision d.quantity_precision
  r ← apply_filters d.filters (blank_rules symbol d price_precision quantity_precision)
  some (record r {
    price_precision = or_places r.price_precision places r.tick_size;
    quantity_precision = or_places r.quantity_precision places r.step_size;
  })
