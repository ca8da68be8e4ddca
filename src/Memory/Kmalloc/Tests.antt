-- ===== src/Memory/Kmalloc/Tests.antt =====
-- The choice of a cache at a concrete size, and runs of kmalloc.
use wandos.Base.{ℕ, ◌≡◌, refl, some}
use wandos.Memory.Zone.{order_for}
use wandos.Memory.Slab.{Heap, Pages, alloc}
use wandos.Memory.Kmalloc.{get_general_cache, init, kmalloc}

size_100 : get_general_cache 100 ≡ some 4
unfolding get_general_cache
size_100 = refl

abbrev no_slabs : Heap
no_slabs = record {
  slab = λ s. record { objects = 0; inuse = 0; free = 0; freelist = 0; next = 0; cache = 0 };
  link = λ o. 0;
}

-- The order that was last asked for, as the state of a page allocator that never fails.
abbrev order_asked : Pages ℕ
order_asked = record { alloc_pages = λ order k. (0x100000, order); free_pages = λ pfn order k. k }

-- The number of pages wraps round: the request for nearly 4 GiB gets one page.
huge : (kmalloc order_asked 0xFFFFFFFF (init no_slabs) 99).1 ≡ 0
unfolding kmalloc order_for init
huge = refl

three_pages : (kmalloc order_asked 12000 (init no_slabs) 99).1 ≡ 2
unfolding kmalloc order_for init
three_pages = refl

-- A page allocator that fails.
abbrev none_left : Pages ℕ
none_left = record { alloc_pages = λ order k. (0, k); free_pages = λ pfn order k. k }

-- The failure of the page allocator goes unseen: the new slab is put at the physical address 0.
unseen : (kmalloc none_left 8 (init no_slabs) 99).0.0 ≡ 0xC0000018
unfolding kmalloc init alloc
unseen = refl
