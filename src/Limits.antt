-- ===== src/Limits.antt =====
-- limits/: the operator's ceilings
pub mod Ledger
pub mod Envelope
pub mod Slots
pub mod Policy
pub mod Lockfile
