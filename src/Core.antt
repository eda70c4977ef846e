-- ===== src/Core.antt =====
-- crates/wbf-core: what the core keeps between the accounts of one machine.
pub mod Claims
pub mod Errors
mod Tests
pub mod LinkRequests
pub mod JobQueue
