-- ===== src/Text/Format.antt =====
-- lib/debug.cpp, the formatted output: where it is written (Output), the numbers (Numbers), the
-- format strings (Flags, Print) and the dump of memory (Hexdump).
pub mod Output
pub mod Numbers
pub mod Flags
pub mod Print
