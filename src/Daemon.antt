-- ===== src/Daemon.antt =====
-- crates/wbf-daemon: the daemon that front ends talk to on one machine.
pub mod RpcPack
pub mod Ranges
pub mod Uploads
mod Tests
