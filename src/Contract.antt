-- ===== src/Contract.antt =====
-- The entry points of campaign/src/lib.rs.
mod Initialize
mod Donate
mod Refund
mod Releases
mod Admin
mod Reporting
unfoldable pub use Initialize.*
unfoldable pub use Donate.*
unfoldable pub use Refund.*
unfoldable pub use Releases.*
unfoldable pub use Admin.*
unfoldable pub use Reporting.*
