-- ===== src/Memory/KernelMemory/Laws.antt =====
-- KernelMemory (kernel/memory/kernel_memory.cpp): the pages that an allocation takes.
use wandos.Base.{
  ℕ, zero, suc, ◌+◌, ◌*◌, ◌/◌, ◌%◌, ◌^◌, ◌≤◌, ◌<◌, ◌≡◌, ◌≢◌, refl, inl, inr, true, false,
  Bool-cases, Option-cases, arith, ltb, ◌==◌,
}
use wandos.Memory.Buddy.Cover.{Once, stays_inside}
use wandos.Memory.Buddy.Count.{HasLists, free_count}
use wandos.Memory.Zone
use wandos.Memory.Zone.{Zone, order_for}
use wandos.Memory.Zone.Laws.{alloc_pages_lem}
use wandos.Memory.Slab.{page_size}
use wandos.Memory.Kmalloc
use wandos.Memory.Kmalloc.{SlabAllocator}
use wandos.Memory.KernelMemory.{KernelMemory, get_zone_for_allocation, alloc_pages, kmalloc}

-- What an allocation of 2 ^ order pages takes from the memory.
abbrev pub Took : ℕ → KernelMemory → KernelMemory → Type 0
Took order m m' =
    (m'.normal_zone.nr_free_pages + 2 ^ order ≡ m.normal_zone.nr_free_pages)
    × (free_count m'.normal_zone.buddy_allocator + 2 ^ order
        ≡ free_count m.normal_zone.buddy_allocator)
    × Once m'.normal_zone.buddy_allocator
    × HasLists m'.normal_zone.buddy_allocator
    × (m'.dma_zone ≡ m.dma_zone)
    × (m'.high_zone ≡ m.high_zone)

pub alloc_pages-Took :
    (order : ℕ) (m : KernelMemory)
    → HasLists m.normal_zone.buddy_allocator
    → Once m.normal_zone.buddy_allocator
    → stays_inside order m.normal_zone.buddy_allocator ≡ true
    → (alloc_pages order m).0 ≢ 0
    → Took order m (alloc_pages order m).1
unfolding alloc_pages
alloc_pages-Took order m l u s n = elim (Bool-cases (ltb 20 order)) [
  | inl e ↦ absurd (n (rw e))
  | inr e ↦ elim (Bool-cases (get_zone_for_allocation (2 ^ order * page_size % 2 ^ 32) m)) [
    | inl g ↦ elim (Option-cases (Zone.alloc_pages order m.normal_zone).0) [
      | inl o ↦ absurd (n (rw (e, g, o)))
      | inr (pfn, o) ↦
          let (count, free, once, lists) = alloc_pages_lem order pfn m.normal_zone l u s o in
          rw (e, g, o) (count, free, once, lists, refl, refl)
    ]
    | inr g ↦ absurd (n (rw (e, g)))
  ]
]

order_for_enough :
    (fuel order count : ℕ) → count ≤ 2 ^ (order + fuel) → count ≤ 2 ^ order_for fuel order count
unfolding order_for
order_for_enough zero order count l = let same : order + 0 ≡ order = omega arith in rw same at l
order_for_enough (suc fuel) order count l =
    let same : order + suc fuel ≡ order + 1 + fuel = omega arith in
    elim (Bool-cases (ltb (2 ^ order) count)) [
      | inl more ↦ rw more (order_for_enough fuel (order + 1) count (rw same at l))
      | inr done ↦ rw done (ground (arith, done))
    ]

-- The order of a large request.
abbrev pub large_order : ℕ → ℕ
large_order size = order_for 32 0 ((size + 4095) % 2 ^ 32 / 4096)

-- A request for more than 2048 bytes that succeeds takes 2 ^ order pages from the normal zone,
-- where these pages have room for the bytes; the slab caches and the other zones stay as they
-- were. The size is one for which `size + PAGE_SIZE - 1` does not wrap round; the allocator of the
-- zone has a list for each order and free blocks that do not overlap, before and afterwards; and
-- it is a call that stays inside, in that no address wraps as the block it finds is halved and the
-- records it writes are in `page_info`.
pub kmalloc_large :
    (size : ℕ) (a : SlabAllocator) (m : KernelMemory)
    → 2048 < size
    → size + 4095 < 2 ^ 32
    → HasLists m.normal_zone.buddy_allocator
    → Once m.normal_zone.buddy_allocator
    → stays_inside (large_order size) m.normal_zone.buddy_allocator ≡ true
    → (kmalloc size a m).0.0 ≢ 0
    → (order : ℕ) × Took order m (kmalloc size a m).1
      × (size ≤ 2 ^ order * 4096)
      × ((kmalloc size a m).0.1 ≡ a)
unfolding kmalloc Kmalloc.kmalloc
kmalloc_large size a m l b lists u s n =
    let order = large_order size in
    let some_bytes : size == 0 ≡ false = ground arith in
    let large : ltb 2048 size ≡ true = ground arith in
    let enough : (size + 4095) % 2 ^ 32 / 4096 ≤ 2 ^ order =
      order_for_enough 32 0 ((size + 4095) % 2 ^ 32 / 4096) (omega arith) in
    let given : (alloc_pages order m).0 ≢ 0 = λ e. n (
      let null : (alloc_pages order m).0 == 0 ≡ true = ground (arith, e) in
      rw (some_bytes, large, null)) in
    (
      order,
      rw (some_bytes, large) (alloc_pages-Took order m lists u s given),
      omega arith,
      rw (some_bytes, large),
    )
