-- ===== src/Binance/Gates/Order/Prepare.antt =====
-- apps/trading_worker/venues/binance/gates.py: the guards of an intent, and its quantity and price as
-- `OrderExecutionGate.check` prepares them.
use blessing_ai.Prelude.{
  ℕ, String, Bool, true, false, ◌&&◌, ◌||◌, not, Option, none, some, [], ◌∷◌, if◌then◌else◌,
  or_else, is_some,
}
use blessing_ai.Prelude.Int.{ℤ, pos, ltb_ℤ, abs}
use blessing_ai.Prelude.Dict.{get}
use blessing_ai.Domain.{
  MarketType, PositionSide, OrderType, TimeInForce, Value, invalid, non_finite, finite, is_buy,
}
use blessing_ai.Binance.Rules.{
  SymbolTradingRules, is_above_zero, contains, or_nonzero, normalize_quantity, normalize_price,
  is_ready_for, has_percent_price_filter, validate_percent_price,
}
use blessing_ai.Binance.Gates.{Reason, Guards, GateResult, refused, allowed, guarded, ◌>>=◌}
use blessing_ai.Binance.Gates.Order.Inputs.{Intent, Adapter, Answers}

abbrev pub is_usdm : MarketType → Bool
is_usdm MarketType.usdm_futures = true
is_usdm _ = false

abbrev pub is_limit : OrderType → Bool
is_limit OrderType.limit = true
is_limit _ = false

abbrev pub is_market : OrderType → Bool
is_market OrderType.market = true
is_market _ = false

-- the text of the two types that are supported
abbrev pub type_text : OrderType → String
type_text t = if is_market t then "MARKET" else "LIMIT"

abbrev pub intent_guards : Adapter → Intent → Guards
intent_guards a i =
    (not (contains i.symbol a.safety_limits.allowed_symbols), Reason.symbol_not_allowed)
    ∷ (not (is_usdm i.market_type), Reason.market_unsupported)
    ∷ (not (is_limit i.order_type || is_market i.order_type), Reason.order_type_unsupported)
    ∷ []

abbrev pub ready_guards : Intent → SymbolTradingRules → Guards
ready_guards i r = (not (is_ready_for (type_text i.order_type) r), Reason.rules_unavailable) ∷ []

abbrev pub ready_rules : Intent → Option SymbolTradingRules → GateResult SymbolTradingRules
ready_rules i none = refused Reason.rules_unavailable
ready_rules i (some r) = guarded (ready_guards i r) (allowed r)

abbrev pub rules_for : Adapter → Intent → GateResult SymbolTradingRules
rules_for a i = ready_rules i (get i.symbol a.symbol_rules)

abbrev pub is_both : PositionSide → Bool
is_both PositionSide.both = true
is_both _ = false

abbrev pub is_gtc : TimeInForce → Bool
is_gtc TimeInForce.gtc = true
is_gtc _ = false

abbrev pub is_post_only_time : TimeInForce → Bool
is_post_only_time TimeInForce.gtc = true
is_post_only_time TimeInForce.post_only = true
is_post_only_time _ = false

abbrev pub mode_guards : Adapter → Intent → Guards
mode_guards a i =
    (a.hedge_mode && is_both i.position_side, Reason.hedge_mode_side)
    ∷ (not a.hedge_mode && not (is_both i.position_side), Reason.one_way_side)
    ∷ (i.post_only && not (is_limit i.order_type), Reason.post_only_type)
    ∷ (i.post_only && not (is_post_only_time i.time_in_force), Reason.post_only_time)
    ∷ []

abbrev pub min_qty_for : SymbolTradingRules → Bool → ℤ
min_qty_for r market = or_nonzero (if market then r.market_min_qty else none) r.min_qty

abbrev pub max_qty_for : SymbolTradingRules → Bool → ℤ
max_qty_for r market = or_nonzero (if market then r.market_max_qty else none) r.max_qty

abbrev pub quantity_guards : SymbolTradingRules → Bool → ℤ → ℤ → Guards
quantity_guards r market v q =
    (not (is_above_zero v), Reason.quantity_not_positive)
    ∷ (not (is_above_zero q), Reason.quantity_zero)
    ∷ (ltb_ℤ q (min_qty_for r market), Reason.quantity_low)
    ∷ (is_above_zero (max_qty_for r market) && ltb_ℤ (max_qty_for r market) q, Reason.quantity_high)
    ∷ []

abbrev pub prepare_quantity : SymbolTradingRules → Bool → Value → GateResult ℕ
prepare_quantity r market invalid = refused Reason.quantity_invalid
prepare_quantity r market non_finite = refused Reason.quantity_not_positive
prepare_quantity r market (finite v) =
    let q = normalize_quantity r v market in
    guarded (quantity_guards r market v q) (allowed (abs q))

abbrev pub limit_guards : SymbolTradingRules → ℤ → Guards
limit_guards r p =
    (not (is_above_zero p), Reason.price_not_positive)
    ∷ (
      r.parsed_from_exchange_info && (ltb_ℤ p r.min_price || ltb_ℤ r.max_price p),
      Reason.price_out_of_bounds,
    )
    ∷ []

-- A price that is not a number raises in `normalize_price`; pydantic lets no infinity through.
abbrev pub limit_price : SymbolTradingRules → Bool → Option Value → GateResult ℕ
limit_price r sells none = refused Reason.price_required
limit_price r sells (some invalid) = refused Reason.price_invalid
limit_price r sells (some non_finite) = refused Reason.price_invalid
limit_price r sells (some (finite v)) =
    let p = normalize_price r v sells in guarded (limit_guards r p) (allowed (abs p))

-- the reference price of the percent-price filters
abbrev pub reference_price : SymbolTradingRules → Answers → Option Value
reference_price r w =
    if has_percent_price_filter r
    then or_else w.market_reference_price w.fresh_mark_price
    else w.market_reference_price

abbrev pub percent_guards : ℕ → SymbolTradingRules → Intent → Answers → ℕ → Guards
percent_guards one r i w p =
    (not (validate_percent_price one r p i.side (reference_price r w)), Reason.percent_price) ∷ []

-- the price of a LIMIT order, with the estimate that it is
abbrev pub prepare_limit : ℕ → SymbolTradingRules → Intent → Answers → GateResult (Option ℕ × Value)
prepare_limit one r i w =
    limit_price r (not (is_buy i.side)) i.price
    >>= (λ p. guarded (percent_guards one r i w p) (allowed (some p, finite (pos p))))

abbrev pub prepare_market : Intent → Answers → GateResult (Option ℕ × Value)
prepare_market i w =
    guarded
      ((not (is_gtc i.time_in_force), Reason.time_unsupported)
        ∷ (is_some i.price, Reason.price_not_allowed)
        ∷ [])
      (elim w.fresh_price [ none ↦ refused Reason.price_unavailable | some p ↦ allowed (none, p) ])

abbrev pub prepare_price : ℕ → SymbolTradingRules → Intent → Answers → GateResult (Option ℕ × Value)
prepare_price one r i w =
    if is_limit i.order_type then prepare_limit one r i w else prepare_market i w
