-- ===== src/Memory/KernelMemory.antt =====
-- kernel/memory/kernel_memory.cpp, class KernelMemory: the physical pages of the three zones, and
-- kmalloc and kfree over them. The address 0 says that `alloc_pages` failed.
use wandos.Base.{
  ℕ, ◌+◌, ◌-◌, ◌*◌, ◌/◌, ◌%◌, ◌^◌, Bool, true, false, Option, none, some, ltb, leb, ◌==◌,
  if◌then◌else◌, ◌||◌,
}
use wandos.Memory.Zone
use wandos.Memory.Zone.{Zone, ZoneType, zone_normal}
use wandos.Memory.Slab.{Pages, page_size}
use wandos.Memory.Buddy.{virt2_phys}
use wandos.Memory.Kmalloc
use wandos.Memory.Kmalloc.{SlabAllocator}
pub mod Laws
pub mod Tests

pub record KernelMemory : Type 0 where
  pub dma_zone : Zone
  pub normal_zone : Zone
  pub high_zone : Zone

abbrev pub dma_zone_end : ℕ
dma_zone_end = 0x1000

abbrev pub normal_zone_end : ℕ
normal_zone_end = 0x38000

-- Only the normal zone is set up.
pub init : KernelMemory → KernelMemory
init m = record m { normal_zone = Zone.init zone_normal dma_zone_end normal_zone_end }

-- Whether the normal zone, the only one that is tried, is chosen.
pub get_zone_for_allocation : ℕ → KernelMemory → Bool
get_zone_for_allocation size m = leb size (m.normal_zone.nr_free_pages * page_size % 2 ^ 32)

pub alloc_pages : ℕ → KernelMemory → ℕ × KernelMemory
unfolding get_zone_for_allocation
alloc_pages order m =
    if ltb 20 order
    then (0, m)
    else if get_zone_for_allocation (2 ^ order * page_size % 2 ^ 32) m
    then (let r = Zone.alloc_pages order m.normal_zone in
        elim r.0 [
          | none ↦ (0, record m { normal_zone = r.1 })
          | some pfn ↦ (pfn * page_size % 2 ^ 32, record m { normal_zone = r.1 })
        ])
    else (0, m)

-- The zone of a page frame, changed by `f`.
pub in_zone : ℕ → (Zone → Zone) → KernelMemory → KernelMemory
in_zone pfn f m =
    if ltb pfn dma_zone_end
    then record m { dma_zone = f m.dma_zone }
    else if ltb pfn normal_zone_end
    then record m { normal_zone = f m.normal_zone }
    else record m { high_zone = f m.high_zone }

pub free_pages : ℕ → ℕ → KernelMemory → KernelMemory
unfolding in_zone
free_pages phys_addr order m =
    if phys_addr == 0 || ltb 20 order
    then m
    else in_zone (phys_addr / page_size) (Zone.free_pages (phys_addr / page_size) order) m

pub decrement_ref_count : ℕ → KernelMemory → KernelMemory
unfolding in_zone
decrement_ref_count phys_addr m =
    in_zone (phys_addr / page_size) (Zone.dec_ref_page (phys_addr / page_size)) m

pub increment_ref_count : ℕ → KernelMemory → KernelMemory
unfolding in_zone
increment_ref_count phys_addr m =
    in_zone (phys_addr / page_size) (Zone.increment_ref_count (phys_addr / page_size)) m

pub get_pfn : ℕ → ℕ
get_pfn virt_addr = virt2_phys virt_addr / 2 ^ 12

-- The pages that the slab caches ask for.
abbrev pub zone_pages : Pages KernelMemory
zone_pages = record { alloc_pages = alloc_pages; free_pages = free_pages }

pub kmalloc : ℕ → SlabAllocator → KernelMemory → (ℕ × SlabAllocator) × KernelMemory
kmalloc size a m = Kmalloc.kmalloc zone_pages size a m

pub kfree : ℕ → ℕ → SlabAllocator → KernelMemory → Option (SlabAllocator × KernelMemory)
kfree fuel ptr a m = Kmalloc.kfree zone_pages fuel ptr a m
