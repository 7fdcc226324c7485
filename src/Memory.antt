-- ===== src/Memory.antt =====
-- src/server/dc_mm1.c: the memory management by chunks of powers of two.
pub mod SizeClass
pub mod Blocks
pub mod Chunks
pub mod Views
pub mod Frames
pub mod Alloc
pub mod Free
pub mod Init
mod Examples
