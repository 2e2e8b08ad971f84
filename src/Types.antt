-- ===== src/Types.antt =====
-- The domain types of campaign/src/types.rs; addresses and 32-byte hashes are numbers, since the
-- contract only compares them.
mod Errors
mod Status
mod Assets
mod Records
mod Keys
mod Responses
unfoldable pub use Errors.*
unfoldable pub use Status.*
unfoldable pub use Assets.*
unfoldable pub use Records.*
pub use Keys.*
pub use Responses.*
