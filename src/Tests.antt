-- ===== src/Tests.antt =====
-- Runs of the model, and each theorem at an input that meets its hypotheses.
mod Host
mod Ledger
mod Gate
mod Guard
mod Replay
mod Anchor
mod Drift
mod Managed
mod Adapters
