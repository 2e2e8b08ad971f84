-- ===== src/Core.antt =====
-- crates/contracts/core/src/lib.rs: the older contract, with many campaigns, donations that leave a
-- history, and withdrawals that the administrator approves.
pub mod Types
pub mod Contract
pub mod Views
pub mod Effects
pub mod Calls
pub mod Kept
pub mod Book
pub mod Refines
