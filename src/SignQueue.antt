-- ===== src/SignQueue.antt =====
-- The wallet signing queue (frontend/lib/tx-queue.ts).
pub mod Machine
pub mod Invariant
pub mod Preserve
pub mod Steps
pub mod Serial
mod Tests
