-- ===== src/Format.antt =====
-- The three on-disk formats, include/pedrodb/format/*.h.
pub mod Record
pub mod Index
pub mod Metadata
