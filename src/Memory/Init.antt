-- ===== src/Memory/Init.antt =====
-- `mm_init` of src/server/dc_mm1.c.
pub mod Begin
pub mod Begun
pub mod Started
