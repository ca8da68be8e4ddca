-- ===== src/Fs.antt =====
-- The file-system side of the kernel: kernel/fs.
pub mod HashList
pub mod PageCache
pub mod Vfs
pub mod Descriptors
pub mod MemFile
pub mod MemTree
pub mod Cpio
