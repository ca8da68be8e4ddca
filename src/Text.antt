-- ===== src/Text.antt =====
-- The C library routines of the kernel: lib/string.cpp.
pub mod CString
pub mod Format
pub mod Memory
