-- ===== src/RateLimit.antt =====
-- The rate limiter of the API routes (frontend/lib/rate-limit.ts).
pub mod Limiter
pub mod History
pub mod Refinement
pub mod Bound
pub mod Waiting
mod Tests
