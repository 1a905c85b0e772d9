-- ===== src/Core/Repair.antt =====
-- packages/core/src/repair.ts: the explicit typed repairs of arguments.
pub mod Decimal
pub mod Reference
pub mod Scalar
pub mod Walk
