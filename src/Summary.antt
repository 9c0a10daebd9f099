-- ===== src/Summary.antt =====
-- crates/summary: what of a session is replaced by a recap.
pub mod Excerpt
pub mod Plan
mod Tests
