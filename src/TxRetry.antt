-- ===== src/TxRetry.antt =====
-- Submission of transactions with retries (frontend/lib/tx-retry.ts).
pub mod Errors
pub mod Tracker
pub mod Dedup
pub mod Options
pub mod Submit
pub mod Conclusion
pub mod Rounds
pub mod Outcome
pub mod Resubmit
pub mod Settling
mod Tests
