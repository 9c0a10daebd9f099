-- ===== src/Net.antt =====
-- crates/net: what addresses a fetch may reach.
pub mod Address
mod Tests
