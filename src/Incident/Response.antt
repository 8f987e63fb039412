-- ===== src/Incident/Response.antt =====
-- The circuit breaker's writes (frontend/lib/server/incident-actions.ts).
pub mod Store
pub mod Steps
pub mod Onchain
pub mod Run
pub mod Entry
pub mod Branches
pub mod Spent
pub mod Pauses
pub mod DryRun
pub mod Records
pub mod Truth
mod Tests
