-- ===== src/Memory.antt =====
-- Memory management: kernel/memory.
pub mod UserMemory
pub mod Buddy
pub mod Zone
pub mod Slab
pub mod Kmalloc
pub mod KernelMemory
pub mod Paging
