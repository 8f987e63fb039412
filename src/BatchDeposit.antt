-- ===== src/BatchDeposit.antt =====
-- Batch deposits (frontend/lib/batch-deposit.ts, frontend/hooks/useBatchDeposit.ts).
pub mod Pools
pub mod Order
pub mod Chunks
pub mod Run
pub mod Settled
pub mod Due
pub mod Terminal
pub mod Retry
mod Tests
