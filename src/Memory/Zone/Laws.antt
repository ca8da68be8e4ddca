-- ===== src/Memory/Zone/Laws.antt =====
-- Zone (kernel/memory/zone.cpp): its count of free pages goes with that of the buddy allocator.
use wandos.Base.{
  ℕ, ◌+◌, ◌-◌, ◌/◌, ◌^◌, ◌≡◌, refl, ap, inl, inr, true, false, Bool-cases, none, some, arith, ltb,
  ◌==◌,
}
use wandos.Memory.Buddy.{virt2_phys}
use wandos.Memory.Buddy.Cover.{Once, stays_inside}
use wandos.Memory.Buddy.Pages
use wandos.Memory.Buddy.Count.{HasLists, free_count, allocate_pages_count}
use wandos.Memory.Zone.{Zone, alloc_pages}

alloc_pages-some :
    (order addr : ℕ) (z : Zone)
    → ltb z.nr_free_pages (2 ^ order) ≡ false
    → (Pages.allocate_pages order z.buddy_allocator).0 ≡ some addr
    → (addr == 0) ≡ false
    → alloc_pages order z ≡ (
      some (addr / 4096),
      record z {
        buddy_allocator = (Pages.allocate_pages order z.buddy_allocator).1;
        nr_free_pages = z.nr_free_pages - 2 ^ order;
      },
    )
unfolding alloc_pages
alloc_pages-some order addr z e f g = rw (e, f, g, alloc_pages) refl

alloc_pages-zero :
    (order addr : ℕ) (z : Zone)
    → ltb z.nr_free_pages (2 ^ order) ≡ false
    → (Pages.allocate_pages order z.buddy_allocator).0 ≡ some addr
    → (addr == 0) ≡ true
    → (alloc_pages order z).0 ≡ none
unfolding alloc_pages
alloc_pages-zero order addr z e f g = rw (e, f, g, alloc_pages) refl

alloc_pages-none :
    (order : ℕ) (z : Zone)
    → ltb z.nr_free_pages (2 ^ order) ≡ false
    → (Pages.allocate_pages order z.buddy_allocator).0 ≡ none
    → (alloc_pages order z).0 ≡ none
unfolding alloc_pages
alloc_pages-none order z e f = rw (e, f, alloc_pages) refl

-- In a zone whose allocator has a list for each order and free blocks that do not overlap, for a
-- call that stays inside, in that no address wraps as the block it finds is halved and the records
-- it writes are in `page_info`: where `alloc_pages` returns a page frame, the zone's count and the
-- pages in the free lists of its allocator have both gone down by 2 ^ order, and the free blocks
-- still do not overlap.
pub alloc_pages_lem :
    (order pfn : ℕ) (z : Zone)
    → HasLists z.buddy_allocator
    → Once z.buddy_allocator
    → stays_inside order z.buddy_allocator ≡ true
    → (alloc_pages order z).0 ≡ some pfn
    → let z' = (alloc_pages order z).1 in
      (z'.nr_free_pages + 2 ^ order ≡ z.nr_free_pages)
      × (free_count z'.buddy_allocator + 2 ^ order ≡ free_count z.buddy_allocator)
      × Once z'.buddy_allocator
      × HasLists z'.buddy_allocator
alloc_pages_lem order pfn z n u s h = elim (Bool-cases (ltb z.nr_free_pages (2 ^ order))) [
  | inl e ↦ absurd (no_frame (unfold alloc_pages in (rw (e, alloc_pages) refl)))
  | inr e ↦ elim (allocate_pages_count order z.buddy_allocator n u s) [
    | inl r ↦ absurd (no_frame (alloc_pages-none order z e (ap (λ x. x.0) r.0)))
    | inr r ↦ elim (Bool-cases (virt2_phys r.0 == 0)) [
      | inl g ↦ absurd (no_frame (alloc_pages-zero order (virt2_phys r.0) z e r.1 g))
      | inr g ↦
          rw (alloc_pages-some order (virt2_phys r.0) z e r.1 g) (ground (arith, e), r.4, r.5, r.6)
    ]
  ]
]
  where
    no_frame : (alloc_pages order z).0 ≡ none → ⊥
    no_frame e = cc (e, h)
