-- ===== src/Recovery.antt =====
-- Retries and lookups of the SDK (sdk/src/recovery/retry.ts, sdk/src/recovery/lookup.ts).
pub mod Errors
pub mod Retry
pub mod Lookup
pub mod Rounds
pub mod Polls
mod Tests
