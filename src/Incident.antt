-- ===== src/Incident.antt =====
-- The circuit breaker for critical security alerts (frontend/lib/incident-response.ts).
pub mod Config
pub mod Grouping
pub mod Decision
pub mod Authorization
pub mod Breaker
pub mod Scan
pub mod Spending
pub mod Escalation
pub mod Response
mod Tests
