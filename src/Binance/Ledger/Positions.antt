-- ===== src/Binance/Ledger/Positions.antt =====
-- apps/trading_worker/venues/binance/ledger.py: `_to_exchange_position`, which reads a position as the exchange
-- sends it; none is the `ValueError`.
use blessing_ai.Prelude.{
  String, Bool, true, false, ◌&&◌, ◌||◌, not, Option, none, some, if◌then◌else◌, is_some, ◌>>=◌,
}
use blessing_ai.Prelude.Int.{ℤ, pos, ltb_ℤ}
use blessing_ai.Domain.{ExchangePosition, PositionSide, Value, finite}
use blessing_ai.Binance.Rules.{is_above_zero, is_zero}

-- What the exchange sends. A field that is missing or blank is `none`, but a blank side, or one that is unknown, is
-- `some none`, as is a margin type that is no text or has no letter. Symbols are in upper case.
pub record RawPosition : Type 0 where
  pub symbol : Option String
  pub position_amt : Option Value
  pub position_side : Option (Option PositionSide)
  pub entry_price : Option Value
  pub mark_price : Option Value
  pub unrealized_profit : Option Value
  pub margin_type : Option (Option String)
  pub leverage : Option Value
  pub liquidation_price : Option Value

-- `parse_decimal`, with its flags `positive` and `nonnegative`
abbrev pub parse_decimal : Option Value → Option ℤ → Bool → Bool → Option ℤ
parse_decimal none default positive nonnegative = default
parse_decimal (some (finite n)) default positive nonnegative =
    if (positive && not (is_above_zero n)) || (nonnegative && ltb_ℤ n (pos 0)) then none else some n
parse_decimal (some _) default positive nonnegative = none

abbrev pub parse_side : Option (Option PositionSide) → Option PositionSide
parse_side none = some PositionSide.both
parse_side (some side) = side

-- the mark price may be missing only where the position is flat
abbrev pub parse_mark : Bool → Option Value → Option (Option ℤ)
parse_mark is_active raw =
    if not (is_some raw) && not is_active
    then some none
    else parse_decimal raw none is_active (not is_active) >>= (λ m. some (some m))

abbrev pub parse_margin_type : Option (Option String) → Option String
parse_margin_type none = some "UNKNOWN"
parse_margin_type (some t) = t

-- zero stands for a price that is not known
abbrev pub known_price : ℤ → Option ℤ
known_price p = if is_above_zero p then some p else none

abbrev pub parse_liquidation : Option Value → Option (Option ℤ)
parse_liquidation none = some none
parse_liquidation (some v) = parse_decimal (some v) none false true >>= (λ p. some (known_price p))

abbrev pub parse_quantity : Option Value → Option ℤ
parse_quantity (some (finite q)) = some q
parse_quantity _ = none

abbrev pub lacks_required : Bool → RawPosition → Bool
lacks_required is_active raw =
    is_active && (not (is_some raw.position_side) || not (is_some raw.mark_price))

unfoldable pub to_exchange_position : RawPosition → Option ExchangePosition
to_exchange_position raw = do
  symbol ← raw.symbol
  quantity ← parse_quantity raw.position_amt
  let is_active = not (is_zero quantity)
  side ← if lacks_required is_active raw then none else parse_side raw.position_side
  entry ← parse_decimal raw.entry_price (some (pos 0)) is_active false
  mark ← parse_mark is_active raw.mark_price
  pnl ← parse_decimal raw.unrealized_profit (some (pos 0)) false false
  margin ← parse_margin_type raw.margin_type
  leverage ← parse_decimal raw.leverage (some (pos 0)) is_active true
  liquidation ← parse_liquidation raw.liquidation_price
  some (record {
    symbol = symbol;
    position_side = side;
    quantity = quantity;
    entry_price = entry;
    mark_price = mark;
    unrealized_pnl = pnl;
    liquidation_price = liquidation;
    leverage = leverage;
    margin_type = margin;
  })
