-- ===== src/Pending.antt =====
-- The record of transactions in flight, kept per address (frontend/lib/pending-transactions.ts).
pub mod Store
pub mod Laws
pub mod Recovery
mod Tests
