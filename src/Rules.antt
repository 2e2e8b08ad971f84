-- ===== src/Rules.antt =====
-- Facts about the validation rules that stand beside the state: error codes and status changes.
pub mod ErrorCodes
pub mod Transitions
