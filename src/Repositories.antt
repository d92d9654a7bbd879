-- ===== src/Repositories.antt =====
-- backend/app/repositories/__init__.py: the tables' operations, a module for each repository.
pub mod Settings
pub mod Orders
pub mod Positions
pub mod Trades
pub mod Reservation
pub mod Journal
pub mod Strategies
pub mod Exclusive
pub mod FillOnce
