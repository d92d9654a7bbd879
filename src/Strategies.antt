-- ===== src/Strategies.antt =====
-- src/strategies: the strategies that the service loads.
pub mod Ema5break
