-- ===== src/Storage.antt =====
-- campaign/src/storage.rs: typed access to the contract's storage. Each accessor is an action that
-- also records the requests it makes to extend the lifetime of an entry.
mod Ttl
mod Campaigns
mod Milestones
mod Donors
mod Counters
mod Flags
pub use Ttl.{
  lookup, persistent_bump_threshold, persistent_bump_amount, temporary_ttl,
  temporary_bump_threshold,
}
unfoldable pub use Ttl.{persistent_has, bump_persistent, bump_all_persistent}
pub use Ttl.{bump_all_persistent_lem}
unfoldable pub use Campaigns.*
unfoldable pub use Milestones.*
unfoldable pub use Donors.*
unfoldable pub use Counters.*
unfoldable pub use Flags.*
