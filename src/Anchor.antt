-- ===== src/Anchor.antt =====
-- packages/anchor-receiver: the receiver of checkpoints, its log and its HTTP handler.
pub mod Event
pub mod Store
pub mod Receiver
