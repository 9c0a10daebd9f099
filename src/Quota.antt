-- ===== src/Quota.antt =====
-- crates/quota: what a principal may spend, per period.
pub mod Ledger
pub mod Period
pub mod Document
pub mod Guard
mod Tests
