-- ===== src/Media/Pool.antt =====
-- crates/wbf-sdk/src/media_pool.rs: the pool of media files under one key. Format has the bytes of a
-- file, Writer the handle that appends, is finished and is taken up again, Reader the handle that
-- reads; the rest are their proofs.
pub mod Format
pub mod Writer
pub mod Reader
pub mod Pieces
pub mod Segments
pub mod Writing
pub mod Sealing
pub mod Outcomes
pub mod Resuming
pub mod Resumed
pub mod Crash
pub mod Finishing
pub mod Reading
pub mod Cursor
pub mod Sealed
pub mod Tests
