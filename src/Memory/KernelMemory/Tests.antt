-- ===== src/Memory/KernelMemory/Tests.antt =====
-- The pages of a large request at a concrete input (kernel/memory/kernel_memory.cpp).
use wandos.Base.{ℕ, ◌*◌, ◌^◌, ◌≤◌, ◌≡◌, refl, [], ◌∷◌, arith, replicate}
use wandos.Memory.Buddy.{no_info, first_block, split, update_pages}
use wandos.Memory.Buddy.Cover.{covers, in_list, Once, stays_inside}
use wandos.Memory.Buddy.Pages.{allocate_pages, increment_ref_count}
use wandos.Memory.Zone
use wandos.Memory.Zone.{Zone, zone_normal, order_for}
use wandos.Memory.Kmalloc
use wandos.Memory.Kmalloc.{SlabAllocator}
use wandos.Memory.KernelMemory.{KernelMemory, alloc_pages, get_zone_for_allocation, kmalloc}
use wandos.Memory.KernelMemory.Laws.{Took, kmalloc_large}

abbrev four_pages : Zone
four_pages = record {
  type = zone_normal;
  nr_free_pages = 4;
  zone_start_pfn = 3;
  zone_end_pfn = 8;
  size = 5;
  watermark = λ level. 1;
  buddy_allocator = record {
    free_lists = [] ∷ [] ∷ (0xC0004000 ∷ []) ∷ replicate 18 [];
    real_start = 0x3000;
    memory_start = 0x4000;
    memory_size = 0x4000;
    page_info = replicate 8 no_info;
  };
}

abbrev small : KernelMemory
small = record { dma_zone = four_pages; normal_zone = four_pages; high_zone = four_pages }

abbrev no_caches : SlabAllocator
no_caches = record {
  general_caches = [];
  heap = record {
    slab = λ s. record { objects = 0; inuse = 0; free = 0; freelist = 0; next = 0; cache = 0 };
    link = λ o. 0;
  };
}

given : (kmalloc 5000 no_caches small).0.0 ≡ 0xC0004000
unfolding kmalloc Kmalloc.kmalloc order_for alloc_pages get_zone_for_allocation Zone.alloc_pages
    allocate_pages first_block split increment_ref_count update_pages
given = refl

four_pages-Once : Once four_pages.buddy_allocator
unfolding covers in_list
four_pages-Once p = ground arith

kmalloc_large_example :
    (order : ℕ) × Took order small (kmalloc 5000 no_caches small).1
    × (5000 ≤ 2 ^ order * 4096)
    × ((kmalloc 5000 no_caches small).0.1 ≡ no_caches)
unfolding stays_inside order_for first_block update_pages
kmalloc_large_example =
    kmalloc_large 5000 no_caches small (omega arith) (omega arith) refl four_pages-Once refl
      (λ e. absurd (omega (arith, given, e)))
