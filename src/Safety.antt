-- ===== src/Safety.antt =====
-- What the controller's methods never do, on any path.
pub mod Tolerant
pub mod BySent
pub mod Places
pub mod Once
pub mod Backed
pub mod Durable
pub mod Allowed
pub mod Guarded
pub mod Latch
