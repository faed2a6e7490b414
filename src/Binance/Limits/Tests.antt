-- ===== src/Binance/Limits/Tests.antt =====
-- Safety limits at concrete inputs. The unit is 1.
use blessing_ai.Prelude.{◌≡◌, refl, true, some, none, [], ◌∷◌}
use blessing_ai.Prelude.Int.{pos}
use blessing_ai.Domain.{finite}
use blessing_ai.Binance.Limits.{
  BinanceEnvironment, TestnetSafetyLimits, Variables, defaults, from_environment,
}
use blessing_ai.Binance.Limits.Caps.{IsNoWider, limits-IsNoWider}

-- someone asks for another symbol, for more notional and for less collateral
abbrev variables : BinanceEnvironment → Variables
variables e = record {
  allowed_symbols = some ("BTCUSDC" ∷ []);
  max_single_order_notional = some (finite (pos 5000));
  max_total_open_notional = none;
  max_open_orders = some (some (pos 9));
  max_active_exposure_chains = some none;
  max_collateral = some (finite (pos 80));
  max_daily_loss = none;
  max_leverage = some (finite (pos 3));
}

abbrev limits : TestnetSafetyLimits
limits = record (defaults 1 BinanceEnvironment.mainnet) {
  max_collateral = pos 80;
  max_leverage = pos 3;
}

-- only the smaller caps are taken, whatever the override flag says
loads : from_environment 1 true variables "MAINNET" ≡ some limits
unfolding from_environment
loads = refl

-- where overrides are approved, Testnet takes every one
loads_testnet :
    from_environment 1 true variables "TESTNET"
    ≡ some (record {
      environment = BinanceEnvironment.testnet;
      allowed_symbols = "BTCUSDC" ∷ [];
      max_single_order_notional = pos 5000;
      max_total_open_notional = pos 5000;
      max_open_orders = pos 9;
      max_active_exposure_chains = pos 1;
      max_collateral = pos 80;
      max_daily_loss = pos 5;
      max_leverage = pos 3;
    })
unfolding from_environment
loads_testnet = refl

-- the collateral cap of Mainnet is 250
collateral_cap : (defaults 1 BinanceEnvironment.mainnet).max_collateral ≡ pos 250
collateral_cap = refl

limits-IsNoWider_example : IsNoWider limits (defaults 1 BinanceEnvironment.mainnet)
limits-IsNoWider_example = limits-IsNoWider 1 true variables "MAINNET" limits loads refl
