-- ===== src/Amounts.antt =====
-- Amounts as decimal text and as base units (sdk/src/utils/amounts.ts), and the same conversions of the
-- bridge and of governance (frontend/lib/cctp-bridge.ts, frontend/lib/governance.ts).
pub mod Digits
pub mod Decimals
pub mod Units
pub mod Format
pub mod Frontend
pub mod RoundTrip
pub mod Agreement
pub mod Rounding
mod Tests
