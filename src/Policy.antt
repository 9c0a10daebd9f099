-- ===== src/Policy.antt =====
-- The policy engine of crates/policy, over the permission types of crates/api.
pub mod Permission
pub mod Pattern
pub mod Rule
pub mod Engine
mod Tests
