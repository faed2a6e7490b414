-- ===== src/Binance/Gates/Decision/Samples.antt =====
-- A worker and a decision that the decision gate of
-- apps/trading_worker/venues/binance/gates.py lets pass.
use blessing_ai.Prelude.{true, false, some, [], ◌∷◌, str_eq}
use blessing_ai.Domain.{EconomicRiskClass, aware}
use blessing_ai.Binance.Gates.Samples.{adapter}
use blessing_ai.Binance.Gates.Decision.{Decision, Worker}

abbrev pub worker : Worker
worker = record {
  execution_mode = "LIVE";
  engine_state = "ARMED";
  kill_switch_active = false;
  mainnet_configured = true;
  testnet_configured = false;
  execution_adapter = some adapter;
  enabled_strategies = "grid" ∷ [];
  pause_new_risk = false;
  recovery_only = false;
  is_account_snapshot_ready = true;
  market_data_healthy = true;
  has_market_sample = str_eq "ETHUSDC";
  last_market_event_at = [];
  adapter_market_event_at = ("ETHUSDC", aware 1000000) ∷ [];
  now = 2000000;
}

abbrev pub decision : Decision
decision = record {
  action = "SUBMIT_ORDER";
  risk_class = EconomicRiskClass.increase_risk;
  orders =
      record { symbol = "ETHUSDC"; strategy_id = "meta_allocator"; source_prefixes = "GRID" ∷ [] }
      ∷ [];
  source_prefixes = [];
}
