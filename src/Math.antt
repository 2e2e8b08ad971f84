-- ===== src/Math.antt =====
-- The arithmetic of campaign/src, by what is computed.
mod Division
pub mod RefundShare
pub mod AssetShare
pub mod Progress
pub mod Wrap
