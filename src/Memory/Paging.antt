-- ===== src/Memory/Paging.antt =====
-- kernel/memory/paging.cpp, class PageManager: page directories and page tables. The tables are a
-- function from the virtual address of a table and an index to the entry. Flags are the low twelve
-- bits of an entry; what the processor's registers do is left out.
use wandos.Base.{
  ℕ, zero, suc, ◌+◌, ◌-◌, ◌*◌, ◌/◌, ◌%◌, ◌^◌, Bool, true, false, not, ◌||◌, ltb, ◌==◌,
  if◌then◌else◌,
}
use wandos.Base.Chain.{update}
use wandos.Memory.Buddy.{phys2_virt}
pub mod Writes
pub mod Walk
pub mod Cow
pub mod Share
pub mod Kernel
pub mod Tests

abbrev pub Tables : Type 0
Tables = ℕ → ℕ → ℕ

-- `table->entries[index] = entry;`
abbrev pub write : Tables → ℕ → ℕ → ℕ → Tables
write mem table index entry = update mem table (update (mem table) index entry)

-- The page frames that tables are put in, and the counts of their users, on some state.
pub record Frames (K : Type 0) : Type 0 where
  pub alloc_page : K → ℕ × K
  pub increment_ref_count : ℕ → K → K

abbrev pub present : ℕ → Bool
present entry = entry % 2 == 1

abbrev pub writable : ℕ → Bool
writable entry = entry / 2 % 2 == 1

-- `entry & 0xFFFFF000`
abbrev pub frame : ℕ → ℕ
frame entry = entry / 4096 * 4096

abbrev pub pd_index : ℕ → ℕ
pd_index virt_addr = virt_addr / 2 ^ 22

abbrev pub pt_index : ℕ → ℕ
pt_index virt_addr = virt_addr / 2 ^ 12 % 1024

-- `pt | 3`
abbrev pub supervisor : ℕ → ℕ
supervisor pt = pt / 4 * 4 + 3

-- `(phys_addr & 0xFFFFF000) | (flags & 0xFFF) | 0x1`
abbrev pub leaf : ℕ → ℕ → ℕ
leaf phys_addr flags = frame phys_addr + (flags % 4096 / 2 * 2 + 1)

-- `cur` is the virtual address of the current page directory, 0 for none.
pub map_page : {K : Type 0} → Frames K → ℕ → ℕ → ℕ → ℕ → Tables → K → Tables × K
map_page frames cur virt_addr phys_addr flags mem k =
    let entry = mem cur (pd_index virt_addr) in
    let new = frames.alloc_page k in
    if cur == 0
    then (mem, k)
    else if not (present entry)
    then (
      write (write mem cur (pd_index virt_addr) (supervisor new.0)) (phys2_virt new.0)
          (pt_index virt_addr) (leaf phys_addr flags),
      new.1,
    )
    else (write mem (phys2_virt (frame entry)) (pt_index virt_addr) (leaf phys_addr flags), k)

-- A physical address as a pointer: the first 4 MB are mapped one to one, so there it leads to the
-- memory that `phys2Virt` leads to; a higher one is another address.
abbrev pub pointer : ℕ → ℕ
pointer phys = if ltb phys (4 * 1024 * 1024) then phys2_virt phys else phys

-- The table is written at its physical address, here and in the next two functions.
pub unmap_page : ℕ → ℕ → Tables → Tables
unmap_page cur virt_addr mem =
    let entry = mem cur (pd_index virt_addr) in
    if cur == 0 || not (present entry)
    then mem
    else write mem (pointer (frame entry)) (pt_index virt_addr) 2

pub get_page_flags : ℕ → ℕ → Tables → ℕ
get_page_flags cur virt_addr mem =
    let entry = mem cur (pd_index virt_addr) in
    if cur == 0 || not (present entry)
    then 0
    else mem (pointer (frame entry)) (pt_index virt_addr) % 4096

pub set_page_flags : ℕ → ℕ → ℕ → Tables → Tables
set_page_flags cur virt_addr flags mem =
    let entry = mem cur (pd_index virt_addr) in
    if cur == 0 || not (present entry)
    then mem
    else (let old = mem (pointer (frame entry)) (pt_index virt_addr) in
        if present old
        then write mem (pointer (frame entry)) (pt_index virt_addr) (frame old + flags % 4096)
        else mem)

-- `entry &= ~PAGE_WRITE; entry |= PAGE_COW;`, where the page is writable.
pub copy_on_write : ℕ → ℕ
copy_on_write entry =
    if writable entry
    then (let cleared : ℕ = entry - 2 in if cleared / 512 % 2 == 1 then cleared else cleared + 512)
    else entry

-- `n` rounds of the loop over the entries of a table, from the index `i` on.
pub copy_table : {K : Type 0} → Frames K → ℕ → ℕ → ℕ → ℕ → Tables → K → Tables × K
unfolding copy_on_write
copy_table frames zero i src dst mem k = (mem, k)
copy_table frames (suc n) i src dst mem k =
    let old = mem src i in
    let marked = copy_on_write old in
    let kept = if writable old then write mem src i marked else mem in
    copy_table frames n (i + 1) src dst (write kept dst i marked)
      (if writable old then frames.increment_ref_count (frame marked) k else k)

-- One round of the loop over the page directory. A table above 896 MB is passed over.
pub copy_slot : {K : Type 0} → Frames K → ℕ → ℕ → ℕ → Tables → K → Tables × K
copy_slot frames src dst slot mem k =
    let entry = mem src slot in
    let copied = write mem dst slot entry in
    let new = frames.alloc_page k in
    if not (present entry) || ltb (896 * 1024 * 1024) (frame entry)
    then (copied, k)
    else (let r =
          copy_table frames 1024 0 (phys2_virt (frame entry)) (phys2_virt new.0) copied new.1 in
        (write r.0 dst slot (frame new.0 + r.0 src slot % 4096), r.1))

pub copy_slots : {K : Type 0} → Frames K → ℕ → ℕ → ℕ → ℕ → Tables → K → Tables × K
unfolding copy_slot
copy_slots frames zero src dst slot mem k = (mem, k)
copy_slots frames (suc n) src dst slot mem k =
    let r = copy_slot frames src dst slot mem k in copy_slots frames n src dst (slot + 1) r.0 r.1

-- The entries that are copied or cleared before the loop: the first 4 MB, and 224 slots from 768 on.
pub kernel_slots : (ℕ → ℕ) → ℕ → ℕ
kernel_slots src slot =
    if slot == 0 then src 0 else if ltb slot 768 || ltb 991 slot then 0 else src slot

abbrev pub apic_slot : ℕ
apic_slot = 0xFEC00000 / 2 ^ 22

-- The table of the APIC is copied whole; the result is always 0.
pub copy_memory_space_cow : {K : Type 0} → Frames K → ℕ → ℕ → Tables → K → Tables × K
unfolding kernel_slots copy_slots
copy_memory_space_cow frames src dst mem k =
    let new = frames.alloc_page k in
    let shared = update mem dst (kernel_slots (mem src)) in
    let apic =
      update shared (phys2_virt new.0) (shared (phys2_virt (frame (shared src apic_slot)))) in
    let mapped = write apic dst apic_slot (supervisor new.0) in
    copy_slots frames 512 src dst 256 mapped new.1
