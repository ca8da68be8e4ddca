-- ===== src/Memory/Buddy/Pages.antt =====
-- kernel/memory/buddy_allocator.cpp: BuddyAllocator's operations. An address of 0, by which
-- `allocate_pages` says that it failed, is `none`.
use Prim.Native.Nat.{bit_xor}
use mathlib.Core.Option
use wandos.Base.{
  ℕ, zero, suc, ◌+◌, ◌-◌, ◌*◌, ◌/◌, ◌%◌, ◌^◌, Bool, true, false, not, ◌||◌, Option, none, some,
  List, [], ◌∷◌, ltb, leb, ◌==◌, if◌then◌else◌, set, get_or, drop,
}
use wandos.Memory.Buddy.{
  PageInfo, BuddyAllocator, max_order, page_size, no_info, phys2_virt, virt2_phys, update_pages,
  first_block, split,
}

-- The pages that share a count, and the address of the first.
abbrev pub compound : ℕ → ℕ → PageInfo → PageInfo
compound order head i = record i {
  is_compound = true;
  compound_order = order;
  compound_head = head;
}

abbrev pub counted : PageInfo → PageInfo
counted i = record i { ref_count = (i.ref_count + 1) % 2 ^ 32 }

-- `phys < start || phys >= memory_start + memory_size || phys % PAGE_SIZE != 0`
abbrev pub is_invalid : ℕ → BuddyAllocator → ℕ → Bool
is_invalid start b phys =
    ltb phys start
    || leb ((b.memory_start + b.memory_size) % 2 ^ 32) phys
    || not (phys % page_size == 0)

-- Its index counts from address 0, not from `memory_start`.
unfoldable pub increment_ref_count : ℕ → ℕ → BuddyAllocator → BuddyAllocator
unfolding update_pages
increment_ref_count phys order b =
    let index = phys / page_size in
    let info = get_or b.page_info index no_info in
    if is_invalid b.real_start b phys
    then b
    else if info.is_compound
    then record b {
      page_info = update_pages counted (info.compound_head / page_size) 1 b.page_info;
    }
    else if ltb 0 order
    then record b {
      page_info =
          update_pages counted index 1
            (update_pages (compound order phys) index (2 ^ order) b.page_info);
    }
    else record b { page_info = update_pages counted index 1 b.page_info }

unfoldable pub allocate_pages : ℕ → BuddyAllocator → Option ℕ × BuddyAllocator
unfolding first_block split update_pages increment_ref_count
allocate_pages order b =
    if ltb max_order order then (none, b) else elim (first_block order (drop order b.free_lists)) [
      | none ↦ (none, b)
      | some (found, block, blocks) ↦
          let phys = virt2_phys block in
          let start_index = (phys + 2 ^ 32 - b.memory_start) % 2 ^ 32 / page_size in
          (
            some phys,
            increment_ref_count phys 0 (record b {
              free_lists = split block order (found - order) (set b.free_lists found blocks);
              page_info = update_pages (compound order phys) start_index (2 ^ order) b.page_info;
            }),
          )
    ]

-- `addr ^ (size * PAGE_SIZE)`, for a block of the order.
unfoldable pub get_buddy_address : ℕ → ℕ → ℕ
get_buddy_address addr order = bit_xor addr (2 ^ order * page_size % 2 ^ 32)

-- `try_merge_buddy`: the list without the address, if it is there.
unfoldable pub take_out : ℕ → List ℕ → Option (List ℕ)
take_out addr [] = none
take_out addr (x ∷ xs) =
    if x == addr then some xs else Option.map (λ (r : List ℕ). x ∷ r) (take_out addr xs)

-- The loop of `free_pages` that merges, for `n` more orders, and the block's way into its list.
unfoldable pub merge : ℕ → ℕ → ℕ → List (List ℕ) → List (List ℕ)
unfolding get_buddy_address take_out
merge zero virt order lists = set lists order (virt ∷ get_or lists order [])
merge (suc n) virt order lists =
    let buddy_addr = get_buddy_address virt order in
    let next = merge n (if ltb virt buddy_addr then virt else buddy_addr) (order + 1) in
    elim (take_out buddy_addr (get_or lists order [])) [
      | none ↦ set lists order (virt ∷ get_or lists order [])
      | some rest ↦ next (set lists order rest)
    ]

abbrev pub freed : PageInfo → PageInfo
freed i = record i { ref_count = 0; is_compound = false; compound_order = 0; compound_head = 0 }

unfoldable pub free_pages : ℕ → ℕ → BuddyAllocator → BuddyAllocator
unfolding merge update_pages
free_pages phys order b =
    let start_index = (phys + 2 ^ 32 - b.memory_start) % 2 ^ 32 / page_size in
    if is_invalid b.memory_start b phys then b else record b {
      free_lists = merge (max_order - order) (phys2_virt phys) order b.free_lists;
      page_info = update_pages freed start_index (2 ^ order) b.page_info;
    }

-- `--` of a count that is 0 wraps.
abbrev pub uncounted : PageInfo → PageInfo
uncounted i = record i { ref_count = (i.ref_count + 2 ^ 32 - 1) % 2 ^ 32 }

-- A single page: one that was part of a compound leaves it, with a count of 1 that is then taken off.
unfoldable pub decrement_single : ℕ → BuddyAllocator → BuddyAllocator
unfolding free_pages update_pages
decrement_single phys b =
    let index = phys / page_size in
    let info = get_or b.page_info index no_info in
    let apart = record info {
      is_compound = false;
      compound_order = 0;
      compound_head = 0;
      ref_count = 1;
    } in
    let left = uncounted (if info.is_compound then apart else info) in
    let b' = record b { page_info = set b.page_info index left } in
    if left.ref_count == 0 then free_pages phys 0 b' else b'

unfoldable pub decrement_ref_count : ℕ → ℕ → BuddyAllocator → BuddyAllocator
unfolding free_pages decrement_single
decrement_ref_count phys order b =
    let index = phys / page_size in
    let info = get_or b.page_info index no_info in
    let b' = record b { page_info = set b.page_info index (uncounted info) } in
    if is_invalid b.real_start b phys
    then b
    else if ltb 0 order
    then (if not info.is_compound || not (info.compound_head == phys)
        then b
        else if (uncounted info).ref_count == 0
        then free_pages phys order b'
        else b')
    else decrement_single phys b
