-- ===== src/Security.antt =====
-- Security alerts and the rules that raise them (frontend/lib/security-rules.ts).
pub mod Types
pub mod Collections
pub mod Context
pub mod Rules
pub mod Engine
pub mod Raised
mod Tests
