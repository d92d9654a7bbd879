-- ===== src/Worker.antt =====
-- execution-worker/app: the process that talks to the exchange. Its protocol.py declares the same
-- messages as the backend's, so the types of Protocol and Enums serve both.
pub mod Show
pub mod Raw
pub mod Mapping
pub mod IocPrice
pub mod Hyperliquid
pub mod Mock
pub mod Runtime
pub mod StateStore
pub mod Precheck
