-- ===== src/Memory/Zone/Tests.antt =====
-- A run of the model of Zone (kernel/memory/zone.cpp), and its theorem at a concrete input.
use wandos.Base.{◌+◌, ◌^◌, ◌≡◌, refl, arith, some, [], ◌∷◌, replicate}
use wandos.Memory.Buddy.{no_info, first_block, split, update_pages}
use wandos.Memory.Buddy.Pages.{allocate_pages, increment_ref_count}
use wandos.Memory.Buddy.Cover.{covers, in_list, Once, stays_inside}
use wandos.Memory.Buddy.Count.{HasLists, free_count}
use wandos.Memory.Zone.{Zone, zone_high, alloc_pages}
use wandos.Memory.Zone.Laws.{alloc_pages_lem}

abbrev small : Zone
small = record {
  type = zone_high;
  nr_free_pages = 4;
  zone_start_pfn = 3;
  zone_end_pfn = 8;
  size = 5;
  watermark = λ level. 1;
  buddy_allocator = record {
    free_lists = [] ∷ [] ∷ (0xC0004000 ∷ []) ∷ replicate 18 [];
    real_start = 0x3000;
    memory_start = 0x4000;
    memory_size = 0x4000;
    page_info = replicate 8 no_info;
  };
}

frame_four : (alloc_pages 1 small).0 ≡ some 4
unfolding alloc_pages allocate_pages first_block split increment_ref_count update_pages
frame_four = refl

small-Once : Once small.buddy_allocator
unfolding covers in_list
small-Once p = ground arith

alloc_pages_lem_example :
    let z' = (alloc_pages 1 small).1 in
    (z'.nr_free_pages + 2 ^ 1 ≡ 4)
    × (free_count z'.buddy_allocator + 2 ^ 1 ≡ free_count small.buddy_allocator)
    × Once z'.buddy_allocator
    × HasLists z'.buddy_allocator
unfolding stays_inside first_block update_pages
alloc_pages_lem_example = alloc_pages_lem 1 4 small refl small-Once refl frame_four
