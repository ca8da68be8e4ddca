-- ===== src/Memory/Buddy.antt =====
-- kernel/memory/buddy_allocator.cpp, class BuddyAllocator. A free list is the list of its blocks'
-- addresses; the field `size` of a block, which is written and never read, is left out. `page_info`
-- is a list of records: what is behind its end reads as zeros, and a write there is lost. In the code
-- the links stand in the free blocks, and behind `page_info` lies the managed memory: the lists are
-- those of the code as long as free blocks do not overlap, no block is freed that is free, and no
-- record behind the end is written. Memory/Buddy/Cover says this of a state and of a call.
use Prim.Native.Nat.{bit_xor}
use wandos.Base.{
  ℕ, zero, suc, ◌+◌, ◌-◌, ◌*◌, ◌/◌, ◌%◌, ◌^◌, Bool, true, false, not, ◌&&◌, ◌||◌, Option, none,
  some, List, [], ◌∷◌, ltb, leb, ◌==◌, if◌then◌else◌, replicate, set, get_or,
}
pub mod Pages
pub mod Cover
pub mod Blocks
pub mod Count
pub mod Tests

pub record PageInfo : Type 0 where
  pub ref_count : ℕ
  pub is_cow : Bool
  pub is_compound : Bool
  pub compound_order : ℕ
  pub compound_head : ℕ

pub record BuddyAllocator : Type 0 where
  pub free_lists : List (List ℕ)
  pub real_start : ℕ
  pub memory_start : ℕ
  pub memory_size : ℕ
  pub page_info : List PageInfo

abbrev pub max_order : ℕ
max_order = 20

abbrev pub page_size : ℕ
page_size = 4096

abbrev pub no_info : PageInfo
no_info = record {
  ref_count = 0;
  is_cow = false;
  is_compound = false;
  compound_order = 0;
  compound_head = 0;
}

-- KERNEL_DIRECT_MAP_START
abbrev pub direct_map : ℕ
direct_map = 0xC0000000

-- `KernelMemory::phys2Virt` and `virt2Phys`
abbrev pub phys2_virt : ℕ → ℕ
phys2_virt phys = (phys + direct_map) % 2 ^ 32

abbrev pub virt2_phys : ℕ → ℕ
virt2_phys virt = (virt + 2 ^ 32 - direct_map) % 2 ^ 32

-- The loop of `get_block_order`: the bits of a 32-bit number.
unfoldable pub bits : ℕ → ℕ → ℕ
bits zero n = 0
bits (suc fuel) n = let rest = bits fuel (n / 2) in if n == 0 then 0 else suc rest

-- `num_pages--` wraps at 0.
unfoldable pub get_block_order : ℕ → ℕ
unfolding bits
get_block_order num_pages = bits 32 ((num_pages + 2 ^ 32 - 1) % 2 ^ 32)

-- `size` bytes from `start_addr`: the records of the pages come first.
unfoldable pub init : ℕ → ℕ → BuddyAllocator
unfolding get_block_order
init start_addr size =
    let page_count = size / page_size in
    let info_bytes = (page_count * 16 + 4095) % 2 ^ 32 / 4096 * 4096 in
    let memory_start = (start_addr + info_bytes) % 2 ^ 32 in
    let memory_size = (size + 2 ^ 32 - info_bytes) % 2 ^ 32 in
    record {
      free_lists =
          set (replicate (max_order + 1) []) (get_block_order (memory_size / page_size))
            (phys2_virt memory_start ∷ []);
      real_start = start_addr;
      memory_start = memory_start;
      memory_size = memory_size;
      page_info = replicate page_count no_info;
    }

-- `for(i < n) page_info[start + i] = …`
unfoldable pub update_pages : (PageInfo → PageInfo) → ℕ → ℕ → List PageInfo → List PageInfo
update_pages f start zero infos = infos
update_pages f start (suc n) infos =
    update_pages f (start + 1) n (set infos start (f (get_or infos start no_info)))

-- The search for the least order from `order` on whose list is not empty; the lists are those from
-- `order` on.
unfoldable pub first_block : ℕ → List (List ℕ) → Option (ℕ × ℕ × List ℕ)
first_block order [] = none
first_block order ([] ∷ lists) = first_block (order + 1) lists
first_block order ((block ∷ blocks) ∷ lists) = some (order, block, blocks)

-- The loop that halves a block of order `order + n` down to `order`: the upper halves become free.
unfoldable pub split : ℕ → ℕ → ℕ → List (List ℕ) → List (List ℕ)
split block order zero lists = lists
split block order (suc n) lists =
    let buddy_addr = (block + 2 ^ (order + n) * page_size) % 2 ^ 32 in
    split block order n (set lists (order + n) (buddy_addr ∷ get_or lists (order + n) []))
