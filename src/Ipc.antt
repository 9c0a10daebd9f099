-- ===== src/Ipc.antt =====
-- crates/ipc: the protocol between the host process and its clients.
pub mod Frame
mod Tests
