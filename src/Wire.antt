-- ===== src/Wire.antt =====
-- crates/wbf-wire: how the bytes of the wbf protocol are laid out.
pub mod Pack
pub mod Id
pub mod FileInfo
mod Tests
