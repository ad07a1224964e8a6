-- ===== src/Platlib.antt =====
-- The rsqueue adapter: internal/queue/platlib.
pub mod Tables
pub mod Session
pub mod Store
pub mod Adapter
