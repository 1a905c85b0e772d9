-- ===== src/Core/Drift.antt =====
-- packages/core/src/drift.ts: the report on the drift between two schemas.
pub mod Changes
pub mod Constraints
pub mod Compare
pub mod Detect
pub mod Breaking
pub mod Report
