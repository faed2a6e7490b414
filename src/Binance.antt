-- ===== src/Binance.antt =====
-- apps/trading_worker/venues/binance: the exchange's rules, limits, books and gates.
pub mod Rules
pub mod Limits
pub mod Ledger
pub mod Market
pub mod Transport
pub mod Gates
