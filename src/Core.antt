-- ===== src/Core.antt =====
-- crates/core: the order in which components start.
pub mod Graph
mod Tests
