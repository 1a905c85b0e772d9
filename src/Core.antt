-- ===== src/Core.antt =====
-- packages/core: the offline enforcement layer.
pub mod Result
pub mod Assoc
pub mod Types
pub mod Ledger
pub mod Receipt
pub mod Approval
pub mod Action
pub mod Pointer
pub mod Policy
pub mod Repair
pub mod Limits
pub mod StrictJson
pub mod Audit
pub mod Drift
pub mod Adapters
pub mod Engine
pub mod Replay
