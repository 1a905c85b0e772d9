-- ===== src/Managed.antt =====
-- packages/managed: the managed control plane.
pub mod Dispatch
pub mod Webhook
pub mod RateLimit
