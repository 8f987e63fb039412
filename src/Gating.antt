-- ===== src/Gating.antt =====
-- The eligibility engine of the SDK (sdk/src/gating): which actions a pool's state allows.
pub mod Types
pub mod Snapshot
pub mod Engine
pub mod Actions
pub mod Money
pub mod Payout
pub mod Blocked
pub mod Defaults
mod Tests
