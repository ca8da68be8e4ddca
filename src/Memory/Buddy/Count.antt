-- ===== src/Memory/Buddy/Count.antt =====
-- BuddyAllocator (kernel/memory/buddy_allocator.cpp): no free page is lost and none is made.
-- The blocks that a call takes and gives back are those of Memory/Buddy/Cover.
use wandos.Base.{
  ℕ, zero, suc, ◌+◌, ◌-◌, ◌*◌, ◌/◌, ◌%◌, ◌^◌, ◌≤◌, ◌<◌, ◌≡◌, ◌⊎◌, refl, ap, ◌∙◌, inl, inr, true,
  false, Bool, ◌&&◌, ltb→lt, Bool-cases, none, some, Option-cases, List, [], ◌∷◌, arith, ltb, ◌==◌,
  if◌then◌else◌, length, set, get_or, drop, length-set, All,
}
use native.Mathlib.Nat.{pow-suc}
use wandos.Memory.Buddy.{
  BuddyAllocator, max_order, page_size, phys2_virt, virt2_phys, first_block, split,
}
use wandos.Memory.Buddy.Blocks.{
  pages_from, pages_from-push, pages_from-pop, IsEmpty, first_block-none, found_covers, found_count,
}
use wandos.Memory.Buddy.Cover.{within, covers, Once, stays_inside}
use wandos.Memory.Buddy.Pages.{
  is_invalid, increment_ref_count, allocate_pages, get_buddy_address, take_out, merge, free_pages,
}

free_lists-increment_ref_count :
    (phys order : ℕ) (b : BuddyAllocator)
    → (increment_ref_count phys order b).free_lists ≡ b.free_lists
unfolding increment_ref_count
free_lists-increment_ref_count phys order b = ground arith

abbrev pub free_count : BuddyAllocator → ℕ
free_count b = pages_from 0 b.free_lists

-- There is a list for each order.
abbrev pub HasLists : BuddyAllocator → Type 0
HasLists b = length b.free_lists ≡ max_order + 1

lists_after :
    (order found block : ℕ) (blocks : List ℕ) (b : BuddyAllocator)
    → ltb max_order order ≡ false
    → first_block order (drop order b.free_lists) ≡ some (found, block, blocks)
    → (allocate_pages order b).1.free_lists
      ≡ split block order (found - order) (set b.free_lists found blocks)
unfolding allocate_pages
lists_after order found block blocks b e f =
    rw (e, f, allocate_pages) (free_lists-increment_ref_count (virt2_phys block) 0 _)

-- What `stays_inside` says of the block.
block_fits :
    (order found block : ℕ) (blocks : List ℕ) (b : BuddyAllocator)
    → first_block order (drop order b.free_lists) ≡ some (found, block, blocks)
    → stays_inside order b ≡ true
    → block + 2 ^ found * page_size / 2 < 2 ^ 32
unfolding stays_inside
block_fits order found block blocks b f s = ltb→lt _ _ (and_left _ _ (rw (f, stays_inside) at s))
  where
    and_left : (x y : Bool) → (x && y) ≡ true → x ≡ true
    and_left true y h = refl
    and_left false y h = h

-- With a list for each order, free blocks that do not overlap, and a call that stays inside, in
-- that no address wraps as the block it finds is halved and the records it writes are in
-- `page_info`: `allocate_pages` returns the address of a block of 2 ^ order pages. Every address
-- of the block lay in a free block and lies in none afterwards, every other address lies in as
-- many free blocks as before, and the lists have 2 ^ order pages less; the free blocks still do
-- not overlap. Or it fails and changes nothing, and then the order is above 20 or all lists from
-- the order on are empty.
pub allocate_pages_count :
    (order : ℕ) (b : BuddyAllocator)
    → HasLists b
    → Once b
    → stays_inside order b ≡ true
    → ((allocate_pages order b ≡ (none, b))
        × ((max_order < order) ⊎ All IsEmpty (drop order b.free_lists)))
      ⊎ ((block : ℕ) × ((allocate_pages order b).0 ≡ some (virt2_phys block))
          × (order ≤ max_order)
          × ((p : ℕ)
              → covers 0 p (allocate_pages order b).1.free_lists
                  + within (2 ^ order * page_size) block p
                ≡ covers 0 p b.free_lists)
          × (free_count (allocate_pages order b).1 + 2 ^ order ≡ free_count b)
          × Once (allocate_pages order b).1
          × HasLists (allocate_pages order b).1)
allocate_pages_count order b n u s = elim (Bool-cases (ltb max_order order)) [
  | inl e ↦ inl (unfold allocate_pages in rw e refl, inl (ground (arith, e)))
  | inr e ↦ elim (Option-cases (first_block order (drop order b.free_lists))) [
    | inl none_there ↦ inl (
      unfold allocate_pages in rw (e, none_there, allocate_pages) refl,
      inr (first_block-none order (drop order b.free_lists) none_there),
    )
    | inr ((found, block, blocks), f) ↦
        let o : order ≤ max_order = ground (arith, e) in
        let c = found_count order found block blocks b.free_lists n o f in
        let fits = block_fits order found block blocks b f s in
        let cover = λ (p : ℕ). found_covers order found block p blocks b.free_lists n o f fits in
        let lists = lists_after order found block blocks b e f in
        inr (
          block,
          unfold allocate_pages in rw (e, f, allocate_pages) refl,
          o,
          λ p. rw lists (cover p),
          rw lists c.0,
          λ p. rw lists (omega (arith, cover p, u p)),
          rw lists c.1,
        )
  ]
]

take_out-some :
    (a : ℕ) (xs rest : List ℕ) → take_out a xs ≡ some rest → length xs ≡ suc (length rest)
unfolding take_out
take_out-some a [] rest h = cc
take_out-some a (x ∷ xs) rest h = elim (Bool-cases (x == a)) [
  | inl e ↦ let same : xs ≡ rest = ground (arith, e, h) in ap (λ r. suc (length r)) same
  | inr e ↦ elim (Option-cases (take_out a xs)) [
    | inl f ↦ ground (arith, e, f, h)
    | inr (r, f) ↦
        let same : x ∷ r ≡ rest = ground (arith, e, f, h) in
        ap suc (take_out-some a xs r f) ∙ ap suc (ap length same)
  ]
]

merge-none :
    (n virt order : ℕ) (ls : List (List ℕ))
    → take_out (get_buddy_address virt order) (get_or ls order []) ≡ none
    → merge (suc n) virt order ls ≡ set ls order (virt ∷ get_or ls order [])
unfolding merge
merge-none n virt order ls h = rw (h, merge) refl

merge-some :
    (n virt order : ℕ) (ls : List (List ℕ)) (rest : List ℕ)
    → take_out (get_buddy_address virt order) (get_or ls order []) ≡ some rest
    → merge (suc n) virt order ls
      ≡ merge n
          (if ltb virt (get_buddy_address virt order) then virt else get_buddy_address virt order)
          (order + 1)
          (set ls order rest)
unfolding merge
merge-some n virt order ls rest h = rw (h, merge) refl

-- Merging makes bigger blocks, and the pages that are given back are all there in the end.
merge_count :
    (n virt order : ℕ) (ls : List (List ℕ))
    → order + n < length ls
    → (pages_from 0 (merge n virt order ls) ≡ pages_from 0 ls + 2 ^ order)
      × (length (merge n virt order ls) ≡ length ls)
merge_count zero virt order ls h =
    unfold merge in
    (pages_from-push order virt ls (omega arith), length-set ls order (virt ∷ get_or ls order []))
merge_count (suc n) virt order ls h =
    elim (Option-cases (take_out (get_buddy_address virt order) (get_or ls order []))) [
      | inl e ↦ rw (merge-none n virt order ls e) (
        pages_from-push order virt ls (omega arith),
        length-set ls order (virt ∷ get_or ls order []),
      )
      | inr (rest, e) ↦
          let buddy_addr = get_buddy_address virt order in
          let kept = length-set ls order rest in
          let r =
            merge_count n (if ltb virt buddy_addr then virt else buddy_addr) (order + 1)
              (set ls order rest) (omega (arith, kept)) in
          let popped =
            pages_from-pop order buddy_addr rest ls (omega arith)
              (take_out-some buddy_addr (get_or ls order []) rest e) in
          let same : order + 1 ≡ suc order = omega arith in
          rw (merge-some n virt order ls rest e)
            (omega (arith, r.0, popped, ap (λ k. 2 ^ k) same, pow-suc 2 order), r.1 ∙ kept)
    ]

-- With a list for each order and free blocks that do not overlap, `free_pages` of a block of 2 ^ order
-- pages, the order up to 20, of which no address lies in a free block and whose records are in
-- `page_info`, gives 2 ^ order pages back to the free lists, whatever is merged; at an address outside
-- the managed memory, or inside a page, it changes nothing.
pub free_pages_count :
    (phys order : ℕ) (b : BuddyAllocator)
    → HasLists b
    → Once b
    → order ≤ max_order
    → ((p : ℕ)
        → within (2 ^ order * page_size) (phys2_virt phys) p ≡ 1
        → covers 0 p b.free_lists ≡ 0)
    → (phys + 2 ^ 32 - b.memory_start) % 2 ^ 32 / page_size + 2 ^ order ≤ length b.page_info
    → (is_invalid b.memory_start b phys ≡ true → free_pages phys order b ≡ b)
      × (is_invalid b.memory_start b phys ≡ false
          → (free_count (free_pages phys order b) ≡ free_count b + 2 ^ order)
            × HasLists (free_pages phys order b))
unfolding free_pages
free_pages_count phys order b n u o apart recorded =
    let r =
      merge_count (max_order - order) (phys2_virt phys) order b.free_lists (omega (arith, n)) in
    (λ e. rw e refl, λ e. rw e (r.0, r.1 ∙ n))
