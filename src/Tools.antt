-- ===== src/Tools.antt =====
-- The tool gate of crates/tools: what a conversation has read, and what it may then do.
pub mod Provenance
pub mod Ledger
pub mod Audit
pub mod Registry
mod Tests
