-- ===== src/Binance/Gates/Mainnet.antt =====
-- apps/trading_worker/venues/binance/gates.py: what `OrderExecutionGate.check` asks of the account before a
-- Mainnet order may increase the risk.
use blessing_ai.Prelude.{ℕ, ◌*◌, ◌+◌, ◌%◌, Bool, true, false, ◌||◌, not, [], ◌∷◌, ltb, ◌==◌, str_eq}
use blessing_ai.Prelude.Int.{ℤ, pos, ltb_ℤ, leb_ℤ, neg, ◌+ℤ◌}
use blessing_ai.Domain.{
  Value, Timestamp, finite, aware, not_datetime, naive, is_invalid, is_finite, amount,
}
use blessing_ai.Binance.Rules.{is_above_zero, contains, max_ℤ}
use blessing_ai.Binance.Limits.{TestnetSafetyLimits}
use blessing_ai.Binance.Gates.{ExchangeAccountSnapshot, Reason, Guards}

-- a value that is not a finite number above 0 and at most the cap; or not at least 0
abbrev pub exceeds : Value → ℤ → Bool
exceeds (finite v) cap = not (is_above_zero v) || ltb_ℤ cap v
exceeds _ cap = true

abbrev pub exceeds_from_zero : Value → ℤ → Bool
exceeds_from_zero (finite v) cap = ltb_ℤ v (pos 0) || ltb_ℤ cap v
exceeds_from_zero _ cap = true

abbrev pub not_positive : Value → Bool
not_positive (finite v) = not (is_above_zero v)
not_positive _ = true

abbrev pub is_no_datetime : Timestamp → Bool
is_no_datetime not_datetime = true
is_no_datetime _ = false

abbrev pub is_naive : Timestamp → Bool
is_naive naive = true
is_naive _ = false

-- microseconds
abbrev pub day : ℕ
day = 86400000000

-- The window does not start at midnight UTC, or ends before it starts, or lasts longer than a day.
abbrev pub window_is_invalid : Timestamp → Timestamp → Bool
window_is_invalid (aware start) (aware end) =
    not (start % day == 0) || ltb end start || ltb (start + day) end
window_is_invalid _ _ = true

-- `max(Decimal("0"), -(realized + unrealized))`
unfoldable pub daily_loss : Value → Value → ℤ
daily_loss realized unrealized = max_ℤ (pos 0) (neg (amount realized +ℤ amount unrealized))

abbrev pub mainnet_guards : ℕ → TestnetSafetyLimits → ExchangeAccountSnapshot → Guards
mainnet_guards one l s =
    (
      is_invalid s.margin_balance
          || is_invalid s.wallet_balance
          || is_invalid s.effective_leverage
          || is_invalid s.configured_leverage,
      Reason.mainnet_values_unknown,
    )
    ∷ (
      not (str_eq s.collateral_asset "USDC") || not (str_eq s.risk_currency "USDC"),
      Reason.collateral_unverified,
    )
    ∷ (
      not s.margin_mode_known
          || not (contains s.margin_mode ("CROSS" ∷ "ISOLATED" ∷ "SINGLE_ASSET_CROSS" ∷ [])),
      Reason.margin_mode_unsupported,
    )
    ∷ (not_positive s.margin_balance, Reason.collateral_invalid)
    ∷ (
      exceeds s.wallet_balance l.max_collateral || exceeds s.margin_balance l.max_collateral,
      Reason.collateral_cap,
    )
    ∷ (exceeds_from_zero s.effective_leverage l.max_leverage, Reason.leverage_cap)
    ∷ (
      not s.configured_leverage_known
          || exceeds s.configured_leverage (pos (10 * one))
          || exceeds s.configured_leverage l.max_leverage,
      Reason.configured_leverage_cap,
    )
    ∷ (
      not s.daily_loss_known
          || not (str_eq s.daily_loss_asset "USDC")
          || not s.daily_pnl_includes_fees
          || not s.daily_pnl_includes_funding,
      Reason.daily_loss_unknown,
    )
    ∷ (
      is_no_datetime s.daily_loss_window_start || is_no_datetime s.daily_loss_window_end,
      Reason.window_unknown,
    )
    ∷ (is_naive s.daily_loss_window_start || is_naive s.daily_loss_window_end, Reason.window_naive)
    ∷ (window_is_invalid s.daily_loss_window_start s.daily_loss_window_end, Reason.window_invalid)
    ∷ (
      not (is_finite s.daily_realized_pnl) || not (is_finite s.unrealized_pnl),
      Reason.daily_loss_invalid,
    )
    ∷ (
      leb_ℤ l.max_daily_loss (daily_loss s.daily_realized_pnl s.unrealized_pnl),
      Reason.daily_loss_cap,
    )
    ∷ []
