-- ===== src/Examples.antt =====
-- The theorems on concrete inputs.
pub mod Store
pub mod Adapter
pub mod Statistics
pub mod Generator
pub mod Run
pub mod Harnesses
pub mod Commands
pub mod Stream
pub mod Reports
pub mod Delivery
pub mod Delays
