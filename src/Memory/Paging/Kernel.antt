-- ===== src/Memory/Paging/Kernel.antt =====
-- kernel/memory/paging.cpp, PageManager::init and mapKernelSpace: the tables of the kernel, written
-- at their physical addresses before paging is on.
use wandos.Base.{ℕ, zero, suc, ◌+◌, ◌*◌, ◌/◌, ◌%◌, ◌^◌, Bool, true, false, ◌==◌, if◌then◌else◌}
use wandos.Memory.Paging.{Tables, write, present, frame}
pub mod Direct
pub mod Space

abbrev pub page_directory_addr : ℕ
page_directory_addr = 0x400000

abbrev pub k_first_4m_pt : ℕ
k_first_4m_pt = 0x401000

abbrev pub k_page_table_start : ℕ
k_page_table_start = 0x402000

abbrev pub k_page_table_count : ℕ
k_page_table_count = 224

-- `n` rounds from the entry `i` on: supervisor, read and write, not present.
pub clear_directory : ℕ → ℕ → Tables → Tables
clear_directory zero i mem = mem
clear_directory (suc n) i mem = clear_directory n (i + 1) (write mem page_directory_addr i 2)

-- `n` rounds of a loop that maps the pages of a table in a row, from the entry `i` on.
pub fill_table : ℕ → ℕ → ℕ → ℕ → ℕ → Tables → Tables
fill_table zero i table base flags mem = mem
fill_table (suc n) i table base flags mem =
    fill_table n (i + 1) table base flags (write mem table i (i * 4096 + base + flags))

-- `n` rounds of the loop over the tables of the direct map, from `j` on.
pub map_tables : ℕ → ℕ → Tables → Tables
map_tables zero j mem = mem
map_tables (suc n) j mem =
    let table : ℕ = k_page_table_start + j * 4096 in
    map_tables n (j + 1) (
      write (fill_table 1024 0 table (j * 1024 * 4096) 3 mem) page_directory_addr (j + 768)
        (table + 3))

-- `n` rounds of the loop over the pages of the APIC, from the address `addr` on.
pub map_apic : ℕ → ℕ → Tables → Tables
map_apic zero addr mem = mem
map_apic (suc n) addr mem =
    let slot : ℕ = addr / 2 ^ 22 in
    let linked =
      if present (mem page_directory_addr slot)
      then mem
      else write mem page_directory_addr slot (k_page_table_start + slot * 4096 + 3) in
    map_apic n (addr + 0x1000)
      (write linked (frame (linked page_directory_addr slot)) (addr / 2 ^ 12 % 1024) (addr + 0x13))

-- The last loop has 768 rounds, from 0xFEC00000 to 0xFEEFF000.
pub map_kernel_space : Tables → Tables
map_kernel_space mem = map_apic 768 0xFEC00000 (
    map_tables k_page_table_count 0
      (fill_table 1024 0 k_first_4m_pt 0 7 (write mem page_directory_addr 0 (k_first_4m_pt + 7))))

-- The part of `PageManager::init` that fills tables.
pub init : Tables → Tables
init mem = map_kernel_space (clear_directory 1024 0 mem)
