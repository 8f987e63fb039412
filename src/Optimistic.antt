-- ===== src/Optimistic.antt =====
-- Optimistic transactions: the manager that polls them, and the hook over it
-- (frontend/hooks/useOptimisticTransactions.ts).
pub mod Manager
pub mod Hook
pub mod Picking
pub mod Invariant
pub mod Watched
pub mod Registered
pub mod Settled
pub mod Polling
mod Tests
