-- ===== src/Disputes.antt =====
-- Disputes in a pool: the rules (frontend/lib/disputes.ts) and the routes that file, vote, resolve and
-- expire (frontend/app/api/disputes), over the tables of
-- supabase/migrations/20260824010000_dispute_resolution.sql.
pub mod Rules
pub mod Store
pub mod Filing
pub mod Voting
pub mod Closing
pub mod Requests
pub mod Moves
pub mod Served
pub mod Rows
pub mod Tally
pub mod Ballots
pub mod Closed
pub mod Race
mod Tests
