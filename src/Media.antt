-- ===== src/Media.antt =====
-- The media path of crates/wbf-sdk: how a file is cut into chunks, sealed, described and read back.
pub mod Geometry
pub mod Cipher
pub mod Block
pub mod FileCipher
pub mod Download
pub mod SeekStore
pub mod Pool
pub mod Landing
pub mod CipherNames
pub mod Tests
