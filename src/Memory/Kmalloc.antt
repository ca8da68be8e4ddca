-- ===== src/Memory/Kmalloc.antt =====
-- kernel/memory/slab_allocator.cpp, class SlabAllocator: kmalloc and kfree over the slab caches and
-- the page allocator.
use wandos.Base.{
  ℕ, zero, suc, ◌+◌, ◌-◌, ◌*◌, ◌/◌, ◌%◌, ◌^◌, Bool, true, false, Option, none, some, List, [], ◌∷◌,
  ltb, leb, ◌==◌, if◌then◌else◌, set, get_or,
}
use wandos.Memory.Zone.{order_for}
use wandos.Memory.Slab.{SlabCache, Heap, Pages, page_size, init_cache, alloc, slab_of, free}
use wandos.Memory.Buddy.{phys2_virt, virt2_phys}
pub mod Sizes
pub mod Tests

-- The sizes of the general caches.
abbrev pub sizes : List ℕ
sizes = 8 ∷ 16 ∷ 32 ∷ 64 ∷ 128 ∷ 256 ∷ 512 ∷ 1024 ∷ 2048 ∷ []

pub record SlabAllocator : Type 0 where
  pub general_caches : List SlabCache
  pub heap : Heap

init_caches : List ℕ → List SlabCache
unfolding init_cache
init_caches [] = []
init_caches (size ∷ more) = init_cache size 8 ∷ init_caches more

pub init : Heap → SlabAllocator
unfolding init_caches
init h = record { general_caches = init_caches sizes; heap = h }

-- The index of the first size that is large enough.
pub find_cache : ℕ → ℕ → List ℕ → Option ℕ
find_cache i size [] = none
find_cache i size (s ∷ more) = if leb size s then some i else find_cache (i + 1) size more

pub get_general_cache : ℕ → Option ℕ
unfolding find_cache
get_general_cache size = find_cache 0 size sizes

abbrev pub no_cache : SlabCache
no_cache = record {
  object_size = 0;
  object_align = 0;
  objects_per_slab = 0;
  slabs_full = 0;
  slabs_partial = 0;
  slabs_free = 0;
}

unfoldable pub kmalloc : {K : Type 0} → Pages K → ℕ → SlabAllocator → K → (ℕ × SlabAllocator) × K
unfolding get_general_cache
kmalloc pages size a k =
    let num_pages : ℕ = (size + (page_size - 1)) % 2 ^ 32 / page_size in
    let got = pages.alloc_pages (order_for 32 0 num_pages) k in
    if size == 0
    then ((0, a), k)
    else if ltb 2048 size
    then ((if got.0 == 0 then 0 else phys2_virt got.0, a), got.1)
    else elim (get_general_cache size) [
      | none ↦ ((0, a), k)
      | some i ↦
          let r = alloc pages i k (get_or a.general_caches i no_cache) a.heap in
          ((r.0.0, record a { general_caches = set a.general_caches i r.0.1; heap = r.0.2 }), r.1)
    ]

-- `none` means that the fuel of `free` ran out.
pub kfree : {K : Type 0} → Pages K → ℕ → ℕ → SlabAllocator → K → Option (SlabAllocator × K)
unfolding slab_of
kfree pages fuel ptr a k =
    let i = (a.heap.slab (slab_of ptr)).cache in
    if ptr == 0
    then some (a, k)
    else if ptr % page_size == 0
    then some (a, pages.free_pages (virt2_phys ptr) 0 k)
    else elim (free fuel ptr (get_or a.general_caches i no_cache) a.heap) [
      | none ↦ none
      | some r ↦ some (record a { general_caches = set a.general_caches i r.0; heap = r.1 }, k)
    ]
