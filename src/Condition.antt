-- ===== src/Condition.antt =====
-- internal/condition: the monitors of single conditions and their compositions.
pub mod Runtime
pub mod Monitor
pub mod Duration
pub mod DateTime
pub mod File
pub mod Signal
pub mod Events
pub mod Merging
pub mod Registry
pub mod Root
pub mod And
pub mod Or
