-- ===== src/Memory/Buddy/Tests.antt =====
-- Runs of the models of BuddyAllocator and Zone (kernel/memory), and their theorems at concrete inputs.
use wandos.Base.{
  ℕ, ◌+◌, ◌*◌, ◌^◌, ◌<◌, ◌≤◌, ◌≡◌, ◌⊎◌, refl, arith, true, false, none, some, [], ◌∷◌, drop, All,
  replicate,
}
use wandos.Memory.Buddy.{
  BuddyAllocator, max_order, page_size, virt2_phys, no_info, first_block, split, update_pages,
}
use wandos.Memory.Buddy.Pages.{
  is_invalid, allocate_pages, free_pages, increment_ref_count, merge, take_out, get_buddy_address,
}
use wandos.Memory.Buddy.Cover.{within, in_list, covers, Once, stays_inside}
use wandos.Memory.Buddy.Blocks.{IsEmpty}
use wandos.Memory.Buddy.Count.{HasLists, free_count, allocate_pages_count, free_pages_count}

-- One free block of four pages, at the physical address 0x4000.
abbrev four_pages : BuddyAllocator
four_pages = record {
  free_lists = [] ∷ [] ∷ (0xC0004000 ∷ []) ∷ replicate 18 [];
  real_start = 0x3000;
  memory_start = 0x4000;
  memory_size = 0x4000;
  page_info = replicate 8 no_info;
}

-- A page is cut off the front, and the rest is in blocks of one and of two pages.
cut :
    ((allocate_pages 0 four_pages).0 ≡ some 0x4000)
    × ((allocate_pages 0 four_pages).1.free_lists
        ≡ (0xC0005000 ∷ []) ∷ (0xC0006000 ∷ []) ∷ [] ∷ replicate 18 [])
unfolding allocate_pages first_block split increment_ref_count update_pages
cut = (refl, refl)

-- Given back, it is merged with both.
merged : (free_pages 0x4000 0 (allocate_pages 0 four_pages).1).free_lists ≡ four_pages.free_lists
unfolding allocate_pages first_block split increment_ref_count update_pages free_pages merge
    take_out get_buddy_address
merged = refl

four_pages-Once : Once four_pages
unfolding covers in_list
four_pages-Once p = ground arith

allocate_pages_count_example :
    ((allocate_pages 1 four_pages ≡ (none, four_pages))
      × ((max_order < 1) ⊎ All IsEmpty (drop 1 four_pages.free_lists)))
    ⊎ ((block : ℕ) × ((allocate_pages 1 four_pages).0 ≡ some (virt2_phys block))
        × (1 ≤ max_order)
        × ((p : ℕ)
            → covers 0 p (allocate_pages 1 four_pages).1.free_lists
                + within (2 ^ 1 * page_size) block p
              ≡ covers 0 p four_pages.free_lists)
        × (free_count (allocate_pages 1 four_pages).1 + 2 ^ 1 ≡ free_count four_pages)
        × Once (allocate_pages 1 four_pages).1
        × HasLists (allocate_pages 1 four_pages).1)
unfolding stays_inside first_block update_pages
allocate_pages_count_example = allocate_pages_count 1 four_pages refl four_pages-Once refl

-- The first of the four pages is in use, the others are free.
abbrev three_pages : BuddyAllocator
three_pages = record {
  free_lists = (0xC0005000 ∷ []) ∷ (0xC0006000 ∷ []) ∷ [] ∷ replicate 18 [];
  real_start = 0x3000;
  memory_start = 0x4000;
  memory_size = 0x4000;
  page_info = replicate 8 no_info;
}

three_pages-Once : Once three_pages
unfolding covers in_list
three_pages-Once p = ground arith

first_page :
    (p : ℕ) → within (2 ^ 0 * page_size) 0xC0004000 p ≡ 1 → covers 0 p three_pages.free_lists ≡ 0
unfolding covers in_list
first_page p h = ground arith

free_pages_count_example :
    (is_invalid 0x4000 three_pages 0x4000 ≡ true → free_pages 0x4000 0 three_pages ≡ three_pages)
    × (is_invalid 0x4000 three_pages 0x4000 ≡ false
        → (free_count (free_pages 0x4000 0 three_pages) ≡ free_count three_pages + 2 ^ 0)
          × HasLists (free_pages 0x4000 0 three_pages))
free_pages_count_example =
    free_pages_count 0x4000 0 three_pages refl three_pages-Once (omega arith) first_page
      (omega arith)
