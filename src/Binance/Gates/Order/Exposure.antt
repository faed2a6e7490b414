-- ===== src/Binance/Gates/Order/Exposure.antt =====
-- apps/trading_worker/venues/binance/gates.py: what `OrderExecutionGate.check` adds up over the ledger's orders
-- and positions. The decimals of both are finite, as pydantic ensures.
use blessing_ai.Prelude.{
  ℕ, ◌*◌, ◌+◌, String, Bool, true, false, ◌&&◌, ◌||◌, not, Option, none, some, List, [], ◌∷◌, ltb,
  if◌then◌else◌, str_eq,
}
use blessing_ai.Prelude.Int.{ℤ, pos, abs, ltb_ℤ}
use blessing_ai.Domain.{ExecutionOrder, ExchangePosition, OrderSide, PositionSide}
use blessing_ai.Binance.Rules.{is_above_zero, is_zero, contains}

-- `get_open_orders` of the ledger
abbrev pub is_open : ExecutionOrder → Bool
is_open order = str_eq order.status "NEW" || str_eq order.status "PARTIALLY_FILLED"

abbrev pub is_excluded : Option String → ExecutionOrder → Bool
is_excluded none order = false
is_excluded (some t) order = str_eq order.client_order_id t

abbrev pub current_orders : Option String → List ExecutionOrder → List ExecutionOrder
current_orders t [] = []
current_orders t (order ∷ os) =
    let rest = current_orders t os in
    if is_open order && not (is_excluded t order) then order ∷ rest else rest

-- the sum, or none where a price is unknown
abbrev pub plus : ℕ → Option ℕ → Option ℕ
plus n none = none
plus n (some k) = some (n + k)

unfoldable pub orders_notional : List ExecutionOrder → Option ℕ
orders_notional [] = some 0
orders_notional (order ∷ os) =
    let rest = orders_notional os in
    if is_above_zero order.price then plus (abs order.quantity * abs order.price) rest else none

abbrev pub marked : ℤ → Option ℤ → Option ℕ → Option ℕ
marked q none rest = none
marked q (some m) rest = if is_above_zero m then plus (abs q * abs m) rest else none

unfoldable pub positions_notional : List ExchangePosition → Option ℕ
positions_notional [] = some 0
positions_notional (p ∷ ps) =
    let rest = positions_notional ps in
    if is_zero p.quantity then rest else marked p.quantity p.mark_price rest

abbrev pub notional_or_zero : Option ℕ → ℕ
notional_or_zero none = 0
notional_or_zero (some n) = n

-- `set.add`
abbrev pub add_symbol : String → List String → List String
add_symbol t ts = if contains t ts then ts else t ∷ ts

abbrev pub order_symbols : List ExecutionOrder → List String
order_symbols [] = []
order_symbols (order ∷ os) = add_symbol order.symbol (order_symbols os)

abbrev pub active_symbols : List ExecutionOrder → List ExchangePosition → List String
active_symbols os [] = order_symbols os
active_symbols os (p ∷ ps) =
    let rest = active_symbols os ps in if is_zero p.quantity then rest else add_symbol p.symbol rest

abbrev pub side_eq : PositionSide → PositionSide → Bool
side_eq PositionSide.long PositionSide.long = true
side_eq PositionSide.short PositionSide.short = true
side_eq PositionSide.both PositionSide.both = true
side_eq _ _ = false

-- a SELL reduces a positive position, a BUY a negative one
abbrev pub is_reduced_by : OrderSide → ℤ → Bool
is_reduced_by OrderSide.sell q = is_above_zero q
is_reduced_by OrderSide.buy q = ltb_ℤ q (pos 0)

abbrev pub is_reducible : String → PositionSide → OrderSide → ExchangePosition → Bool
is_reducible symbol position_side side p =
    str_eq p.symbol symbol
    && (side_eq position_side PositionSide.both
        || side_eq p.position_side position_side
        || side_eq p.position_side PositionSide.both)
    && is_reduced_by side p.quantity

unfoldable pub reducible_exposure : String → PositionSide → OrderSide → List ExchangePosition → ℕ
reducible_exposure symbol position_side side [] = 0
reducible_exposure symbol position_side side (p ∷ ps) =
    let rest = reducible_exposure symbol position_side side ps in
    if is_reducible symbol position_side side p then abs p.quantity + rest else rest

-- a notional, in units of a product, is above a limit
abbrev pub is_over : ℕ → ℤ → ℕ → Bool
is_over one (ℤ.pos l) n = ltb (one * l) n
is_over one (ℤ.negsuc l) n = true
