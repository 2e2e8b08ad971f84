-- ===== src/MilestoneStore.antt =====
-- What the milestone layer of campaign/src/storage.rs promises over its two layouts.
pub mod Unlock
pub mod Legacy
pub mod Access
pub mod Kept
