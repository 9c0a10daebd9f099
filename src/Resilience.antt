-- ===== src/Resilience.antt =====
-- crates/resilience and crates/api/src/resilience.rs: what stands in front of a model provider.
pub mod Failure
pub mod Breaker
pub mod Backoff
pub mod Limit
pub mod Retry
mod Tests
