-- ===== src/Binance/Limits.antt =====
-- apps/trading_worker/venues/binance/models.py: `TestnetSafetyLimits`, and the names of the two routes of
-- venues/binance/config.py. Decimals are whole numbers of a unit of which `one` make 1. Names of
-- environments and symbols are trimmed and in upper case.
pub mod Caps
mod Tests
use blessing_ai.Prelude.{
  ℕ, ◌*◌, String, Bool, true, false, ◌&&◌, not, Option, none, some, List, [], ◌∷◌, str_eq,
  if◌then◌else◌, ◌>>=◌,
}
use blessing_ai.Prelude.Int.{ℤ, pos}
use blessing_ai.Domain.{Value, invalid, non_finite, finite}
use blessing_ai.Binance.Rules.{contains, is_above_zero, min_ℤ, max_ℤ}

pub data BinanceEnvironment : Type 0 where
  testnet mainnet : BinanceEnvironment

abbrev pub is_mainnet : BinanceEnvironment → Bool
is_mainnet BinanceEnvironment.testnet = false
is_mainnet BinanceEnvironment.mainnet = true

-- `parse_environment` of config.py; none is the `ValueError`
abbrev pub parse_environment : String → Option BinanceEnvironment
parse_environment t =
    if str_eq t "TESTNET"
    then some BinanceEnvironment.testnet
    else if str_eq t "MAINNET"
    then some BinanceEnvironment.mainnet
    else none

pub record TestnetSafetyLimits : Type 0 where
  pub environment : BinanceEnvironment
  pub allowed_symbols : List String
  pub max_single_order_notional : ℤ
  pub max_total_open_notional : ℤ
  pub max_open_orders : ℤ
  pub max_active_exposure_chains : ℤ
  pub max_collateral : ℤ
  pub max_daily_loss : ℤ
  pub max_leverage : ℤ

-- What the process environment holds under one prefix. A variable that is not set, or blank, is `none`; an
-- integer that `int` refuses is `some none`; the symbols are the parts that are not blank.
pub record Variables : Type 0 where
  pub allowed_symbols : Option (List String)
  pub max_single_order_notional : Option Value
  pub max_total_open_notional : Option Value
  pub max_open_orders : Option (Option ℤ)
  pub max_active_exposure_chains : Option (Option ℤ)
  pub max_collateral : Option Value
  pub max_daily_loss : Option Value
  pub max_leverage : Option Value

abbrev pub defaults : ℕ → BinanceEnvironment → TestnetSafetyLimits
defaults one BinanceEnvironment.testnet = record {
  environment = BinanceEnvironment.testnet;
  allowed_symbols = "BTCUSDT" ∷ [];
  max_single_order_notional = pos (100 * one);
  max_total_open_notional = pos (100 * one);
  max_open_orders = pos 1;
  max_active_exposure_chains = pos 1;
  max_collateral = pos (100 * one);
  max_daily_loss = pos (5 * one);
  max_leverage = pos (2 * one);
}
defaults one BinanceEnvironment.mainnet = record {
  environment = BinanceEnvironment.mainnet;
  allowed_symbols = "ETHUSDC" ∷ [];
  max_single_order_notional = pos (50 * one);
  max_total_open_notional = pos (1000 * one);
  max_open_orders = pos 1;
  max_active_exposure_chains = pos 1;
  max_collateral = pos (250 * one);
  max_daily_loss = pos (5 * one);
  max_leverage = pos (10 * one);
}

abbrev pub positive_decimal : Option Value → ℤ → ℤ
positive_decimal (some (finite v)) fallback = if is_above_zero v then v else fallback
positive_decimal _ fallback = fallback

abbrev pub positive_int : Option (Option ℤ) → ℤ → ℤ
positive_int (some (some v)) fallback = if is_above_zero v then v else fallback
positive_int _ fallback = fallback

-- `xs or ys`
abbrev pub or_symbols : List String → List String → List String
or_symbols [] ys = ys
or_symbols (x ∷ xs) ys = x ∷ xs

-- `xs & ys`
abbrev pub intersection : List String → List String → List String
intersection [] ys = []
intersection (x ∷ xs) ys = let rest = intersection xs ys in if contains x ys then x ∷ rest else rest

abbrev pub symbols_of : Bool → Option (List String) → List String → List String
symbols_of approved none allowed = allowed
symbols_of approved (some parsed) allowed =
    let symbols = or_symbols parsed allowed in
    if approved then symbols else or_symbols (intersection symbols allowed) allowed

-- the smaller of the two, unless overrides are approved
abbrev pub capped : Bool → ℤ → ℤ → ℤ
capped approved v cap = if approved then v else min_ℤ v cap

-- overrides are never approved on Mainnet
abbrev pub overrides_approved : Bool → BinanceEnvironment → Bool
overrides_approved flag e = flag && not (is_mainnet e)

abbrev pub limits_of : ℕ → Bool → Variables → BinanceEnvironment → TestnetSafetyLimits
limits_of one flag v e =
    let d = defaults one e in
    let approved = overrides_approved flag e in
    let single_order =
      capped approved (positive_decimal v.max_single_order_notional d.max_single_order_notional)
        d.max_single_order_notional in
    let total_open =
      capped approved (positive_decimal v.max_total_open_notional d.max_total_open_notional)
        d.max_total_open_notional in
    record {
      environment = e;
      allowed_symbols = symbols_of approved v.allowed_symbols d.allowed_symbols;
      max_single_order_notional = single_order;
      max_total_open_notional = max_ℤ total_open single_order;
      max_open_orders =
          capped approved (positive_int v.max_open_orders d.max_open_orders) d.max_open_orders;
      max_active_exposure_chains =
          capped approved (positive_int v.max_active_exposure_chains d.max_active_exposure_chains)
            d.max_active_exposure_chains;
      max_collateral =
          capped approved (positive_decimal v.max_collateral d.max_collateral) d.max_collateral;
      max_daily_loss =
          capped approved (positive_decimal v.max_daily_loss d.max_daily_loss) d.max_daily_loss;
      max_leverage =
          capped approved (positive_decimal v.max_leverage d.max_leverage) d.max_leverage;
    }

-- `from_environment`; `flag` is TESTNET_LIMITS_OVERRIDE_APPROVED, and `variables` are those of each prefix
unfoldable pub from_environment :
    ℕ → Bool → (BinanceEnvironment → Variables) → String → Option TestnetSafetyLimits
from_environment one flag variables name =
    parse_environment name >>= (λ e. some (limits_of one flag (variables e) e))
