-- ===== src/Audit.antt =====
-- crates/audit: the trail of what was authorized and invoked, and the sweep that shortens it.
mod Record
mod Store
mod Tests
