-- ===== src/Strategy.antt =====
-- backend/app/strategy: what runs the strategies.
pub mod Loop
pub mod Service
