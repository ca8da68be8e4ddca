-- ===== src/Memory/Zone.antt =====
-- kernel/memory/zone.cpp, class Zone: a range of page frames with a count of the free ones, over the
-- buddy allocator. A page frame number of 0, by which `allocPages` says that it failed, is `none`.
use wandos.Base.{
  ℕ, zero, suc, ◌+◌, ◌-◌, ◌*◌, ◌/◌, ◌%◌, ◌^◌, Bool, true, false, not, ◌&&◌, ◌||◌, Option, none,
  some, List, [], ◌∷◌, ltb, leb, ◌==◌, if◌then◌else◌, set, get_or,
}
use wandos.Memory.Buddy
use wandos.Memory.Buddy.{BuddyAllocator}
use wandos.Memory.Buddy.Pages
pub mod Laws
pub mod Tests

pub data ZoneType : Type 0 where
  zone_dma zone_normal zone_high : ZoneType

pub data WatermarkLevel : Type 0 where
  wmark_min wmark_low wmark_high : WatermarkLevel

pub record Zone : Type 0 where
  pub type : ZoneType
  pub nr_free_pages : ℕ
  pub zone_start_pfn : ℕ
  pub zone_end_pfn : ℕ
  pub size : ℕ
  pub watermark : WatermarkLevel → ℕ
  pub buddy_allocator : BuddyAllocator

pub init : ZoneType → ℕ → ℕ → Zone
init type start_pfn end_pfn =
    let size = (end_pfn + 2 ^ 32 - start_pfn) % 2 ^ 32 in
    record {
      type = type;
      nr_free_pages = size;
      zone_start_pfn = start_pfn;
      zone_end_pfn = end_pfn;
      size = size;
      watermark = λ level. elim level [
        | wmark_min ↦ size / 16
        | wmark_low ↦ size / 8
        | wmark_high ↦ size / 4
      ];
      buddy_allocator = Buddy.init (start_pfn * 4096 % 2 ^ 32) (size * 4096 % 2 ^ 32);
    }

-- `1 << order`, for an order below 32. An address below 4096 gives the page frame 0 as well.
unfoldable pub alloc_pages : ℕ → Zone → Option ℕ × Zone
alloc_pages order z =
    if ltb z.nr_free_pages (2 ^ order)
    then (none, z)
    else let r = Pages.allocate_pages order z.buddy_allocator in
      elim r.0 [
        | none ↦ (none, record z { buddy_allocator = r.1 })
        | some addr ↦ if addr == 0 then (none, record z { buddy_allocator = r.1 }) else (
          some (addr / 4096),
          record z { buddy_allocator = r.1; nr_free_pages = z.nr_free_pages - 2 ^ order },
        )
      ]

pub free_pages : ℕ → ℕ → Zone → Zone
free_pages pfn order z =
    if ltb pfn z.zone_start_pfn || ltb z.zone_end_pfn ((pfn + 2 ^ order) % 2 ^ 32)
    then z
    else record z {
      buddy_allocator = Pages.free_pages (pfn * 4096 % 2 ^ 32) order z.buddy_allocator;
      nr_free_pages = (z.nr_free_pages + 2 ^ order) % 2 ^ 32;
    }

pub dec_ref_page : ℕ → Zone → Zone
dec_ref_page pfn z = if ltb pfn z.zone_start_pfn || leb z.zone_end_pfn pfn then z else record z {
  buddy_allocator = Pages.decrement_ref_count (pfn * 4096 % 2 ^ 32) 0 z.buddy_allocator;
}

pub increment_ref_count : ℕ → Zone → Zone
increment_ref_count pfn z =
    if ltb pfn z.zone_start_pfn || leb z.zone_end_pfn pfn then z else record z {
      buddy_allocator = Pages.increment_ref_count (pfn * 4096 % 2 ^ 32) 0 z.buddy_allocator;
    }

abbrev pub same_level : WatermarkLevel → WatermarkLevel → Bool
same_level wmark_min wmark_min = true
same_level wmark_low wmark_low = true
same_level wmark_high wmark_high = true
same_level _ _ = false

pub set_watermark : WatermarkLevel → ℕ → Zone → Zone
set_watermark level value z =
    let bounded : ℕ = if ltb z.size value then z.size else value in
    record z { watermark = λ l. if same_level l level then bounded else z.watermark l }

pub is_watermark_reached : WatermarkLevel → Zone → Bool
is_watermark_reached level z = leb z.nr_free_pages (z.watermark level)

-- `while((1u << order) < count) order++;`
unfoldable pub order_for : ℕ → ℕ → ℕ → ℕ
order_for zero order count = order
order_for (suc fuel) order count =
    let rest = order_for fuel (order + 1) count in if ltb (2 ^ order) count then rest else order

abbrev pub is_normal : ZoneType → Bool
is_normal zone_normal = true
is_normal _ = false

-- The result, this zone and the target; no page's contents are moved.
pub migrate_pages_to : ℕ → Zone → Zone → Bool × Zone × Zone
unfolding order_for alloc_pages free_pages
migrate_pages_to count z target =
    if is_normal z.type || is_normal target.type
    then (false, z, target)
    else if ltb z.nr_free_pages count
        || ltb ((target.size + 2 ^ 32 - target.nr_free_pages) % 2 ^ 32) count
    then (false, z, target)
    else let order = order_for 32 0 count in
      let source = alloc_pages order z in
      elim source.0 [
        | none ↦ (false, source.1, target)
        | some source_pfn ↦
            let goal = alloc_pages order target in
            elim goal.0 [
              | none ↦ (false, free_pages source_pfn order source.1, goal.1)
              | some target_pfn ↦ (true, source.1, goal.1)
            ]
      ]
