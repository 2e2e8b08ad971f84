-- ===== src/Tools.antt =====
-- crates/tools/src: the off-chain tools, by file.
pub mod Action
pub mod Lines
pub mod Audit
pub mod ErrorMapper
pub mod Config
pub mod Invoke
pub mod Strkey
pub mod Signing
