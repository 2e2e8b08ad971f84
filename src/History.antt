-- ===== src/History.antt =====
-- Histories of the contract: sequences of calls of the entry points of campaign/src/lib.rs.
pub mod Step
pub mod Keeps
pub mod Calls
pub mod Promises
pub mod Guards
