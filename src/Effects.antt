-- ===== src/Effects.antt =====
-- What each entry point does to the state, branch by branch.
mod Steps
pub mod Report
pub mod Initialize
pub mod Donation
pub mod Refund
pub mod Pending
pub mod Eligible
pub mod Release
pub mod Lifecycle
pub mod Admin
pub mod MultiRelease
pub mod Returns
