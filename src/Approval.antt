-- ===== src/Approval.antt =====
-- crates/approval: questions that a person answers.
pub mod Broker
mod Tests
