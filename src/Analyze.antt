-- ===== src/Analyze.antt =====
-- The analyzer: internal/analyze/analyze.go.
pub mod Float
pub mod Stats
pub mod Reader
pub mod Groups
pub mod Tables
pub mod Fairness
pub mod Report
