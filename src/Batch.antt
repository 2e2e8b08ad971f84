-- ===== src/Batch.antt =====
-- crates/contracts/batch-donor: donations to several campaigns in one transaction.
pub mod Types
pub mod Contract
pub mod Atomic
pub mod BestEffort
pub mod Errors
pub mod Campaigns
