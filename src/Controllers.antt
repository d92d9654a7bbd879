-- ===== src/Controllers.antt =====
-- backend/app/controllers: the guard and the trading controller, a module for each group of the
-- controller's methods.
pub mod Guard
pub mod Mirror
pub mod Fills
pub mod Reconcile
pub mod Cancel
pub mod Finalize
pub mod Submit
pub mod Open
pub mod Close
pub mod Start
pub mod Stop
pub mod Estop
pub mod Signal
