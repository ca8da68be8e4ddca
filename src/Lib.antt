-- ===== src/Lib.antt =====
-- wandos: a verification library for the parts of the kernel that keep state of their own.
--
-- The parts, and the files that model them:
-- - lib/string.cpp: Text/Memory and Text/CString. An object in memory is the list of its bytes, a
--   pointer into it an index; a C string is such a list with a 0 in it or behind it.
-- - kernel/fs/SimplePageCache.cpp, include/kernel/fs/PageCache.h: Fs/HashList is the chained table
--   (a list of buckets, each a list of nodes), Fs/PageCache the cache over it. The block device is
--   a parameter, a function from the block number and the old buffer to the new one.
-- - kernel/process/process.cpp, class PidManager: Process/Pid. A word of the bitmap is the list of
--   its 32 bits, the lowest first.
-- - lib/mutex.cpp: Process/Mutex. A call of `lock` is cut at its sleeps into steps, `lock` and
--   `resume`; another task's steps may come between them (Process/Mutex/Exclusion).
-- - kernel/memory/user_memory.cpp: Memory/UserMemory, the table of areas of a process.
-- - lib/log_buffer.cpp: LogBuffer, a ring buffer, and the queue that it stands for
--   (LogBuffer/Refine).
-- - lib/debug.cpp: Text/Format. Output has the buffer as the bytes written and the room left, Numbers,
--   Flags and Print the functions from `format_integer` to `format_string_v`.
-- - kernel/fs/vfs.cpp: Fs/Vfs, the mount table and VFSManager, and Fs/Descriptors, the system calls on
--   open files. The virtual functions of a file system and of an open file are parameters.
-- - kernel/fs/memfs.cpp: Fs/MemFile, the data of a file and what a descriptor does with it, and
--   Fs/MemTree, the tree of inodes. The rounds over a path are bounded by its length, those over a list
--   of children by fuel.
-- - include/kernel/cpio.h: Fs/Cpio, the fields of the header of an archived file.
-- - kernel/memory/buddy_allocator.cpp: Memory/Buddy, the free lists as lists of addresses, with the
--   operations in Memory/Buddy/Pages; kernel/memory/zone.cpp: Memory/Zone. The code keeps the links in
--   the free blocks and the records of the pages in front of them; Memory/Buddy/Cover says when these
--   lists are the code's.
-- - kernel/memory/slab_allocator.cpp: Memory/Slab, a cache of objects, and Memory/Kmalloc, kmalloc and
--   kfree. Their lists go through `next` fields in memory, which Base/Chain reads as lists; the pages
--   come by an interface that Memory/KernelMemory (kernel/memory/kernel_memory.cpp) fills. The walk of
--   `free` through a list of slabs runs on fuel and gives `none` where that runs out.
-- - kernel/memory/paging.cpp: Memory/Paging, page directories and tables as a function of the virtual
--   address of a table and an index; in the first 4 MB, mapped one to one, a physical address is a
--   pointer to the same table. Memory/Paging/Walk is the processor's translation; the tables of
--   the kernel, in Memory/Paging/Kernel, are written at physical addresses, before paging is on.
-- - drivers/ext2.cpp: Drivers/Ext2, inodes and blocks over a block device, and Drivers/Ext2/File, what a
--   descriptor does, over an interface for the page cache that Drivers/Ext2/File/Cached fills with
--   Fs/PageCache. Structures of the disk are their bytes.
-- - kernel/process/process.cpp, save_context and restore_context: Process/Switch; schedule:
--   Process/Schedule, over the run queues.
-- - drivers/keyboard.cpp: Drivers/Keyboard, the tables, the shift state and the ring of events.
-- - drivers/block_device.cpp, class RamDisk: Drivers/RamDisk.
-- - kernel/smp/smp_scheduler.cpp: Process/RunQueue, a queue for each processor; Process/RunQueue/Fifo
--   has the calls of all processors as a sequence, in which no task is queued twice at a time.
-- Base holds what these share: lists and tests over the native numbers, and 32-bit integers.
--
-- State is passed on explicitly: an operation takes the object and returns its result with the new
-- object. A null pointer is `none`. A `uint32_t` or `size_t` is a number that wraps at 2 ^ 32.
--
-- The loop of `format_string_v` runs for as many rounds as the format has bytes, and the digits of a
-- number for the 32 that its buffer holds; both are shown to be enough, the first for formats in which
-- every `%` has its letter: behind a single `%` at the end the code reads on, and the model stops. The bits of a 32-bit number are
-- counted in 32 rounds.
--
-- The loop of ext2's `read` runs for as many rounds as bytes are asked for, of which each round reads
-- one at least.
--
-- Two loops of the code may not end: the one of `lock` without a timeout, and the one of
-- `set_max_pages`. They run on fuel, and the theorems say which fuel is enough (with a timeout,
-- the ticks that are left) or that none is.
--
-- Not modelled: the processor (descriptor tables, interrupts, the registers that turn paging on),
-- ports and screens, which are input and output only; the loading of memfs from an archive, the
-- directories and the writing of files of ext2, and the process table, whose state is not in this
-- library yet; the entries of page tables that UserMemory writes besides its table of areas; the areas
-- of vmalloc and kmap; and the freeing of the mutex's list nodes.
pub mod Base
pub mod Drivers
pub mod Fs
pub mod LogBuffer
pub mod Memory
pub mod Process
pub mod Text
