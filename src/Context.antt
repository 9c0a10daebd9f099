-- ===== src/Context.antt =====
-- crates/context: the window that a model is shown of a session.
pub mod Message
pub mod Elision
pub mod Window
mod Tests
