-- ===== src/Drivers.antt =====
-- The drivers, one child for each.
pub mod Keyboard
pub mod RamDisk
pub mod Ext2
