-- ===== src/Memory/Buddy/Cover.antt =====
-- BuddyAllocator (kernel/memory/buddy_allocator.cpp): which addresses lie in free blocks, and where a
-- call writes in `page_info`. The links of the free lists stand in the free blocks, so that these must
-- not overlap; and the records of the pages stand before the managed memory, so that a write behind
-- the last of them would be one to a block.
use wandos.Base.{
  ℕ, zero, suc, ◌+◌, ◌-◌, ◌*◌, ◌/◌, ◌%◌, ◌^◌, ◌≤◌, ◌<◌, ◌≡◌, refl, ap, Bool, true, not, ◌&&◌, ◌||◌,
  none, some, List, [], ◌∷◌, arith, ltb, leb, if◌then◌else◌, length, length-set, set, get_or, drop,
}
use native.Mathlib.Nat.{pow-suc}
use wandos.Memory.Buddy.{
  BuddyAllocator, page_size, no_info, virt2_phys, update_pages, first_block, split,
}
use wandos.Memory.Buddy.Pages.{compound}

-- 1 for an address in the block of `bytes` bytes at `block`, else 0.
unfoldable pub within : ℕ → ℕ → ℕ → ℕ
within bytes block p = if leb block p && ltb p (block + bytes) then 1 else 0

unfoldable pub in_list : ℕ → ℕ → List ℕ → ℕ
unfolding within
in_list bytes p [] = 0
in_list bytes p (b ∷ bs) = within bytes b p + in_list bytes p bs

-- The number of free blocks that an address lies in, in the lists of the orders from `i` on.
unfoldable pub covers : ℕ → ℕ → List (List ℕ) → ℕ
unfolding in_list
covers i p [] = 0
covers i p (l ∷ ls) = in_list (2 ^ i * page_size) p l + covers (i + 1) p ls

-- No two free blocks overlap.
abbrev pub Once : BuddyAllocator → Type 0
Once b = (p : ℕ) → covers 0 p b.free_lists ≤ 1

-- The upper half of the block that `allocate_pages` finds starts inside the address space, so that no
-- address wraps as the block is halved; and the records of the pages that the call writes, by either of
-- the two indices, are records of `page_info`.
unfoldable pub stays_inside : ℕ → BuddyAllocator → Bool
stays_inside order b = elim (first_block order (drop order b.free_lists)) [
  | none ↦ true
  | some (found, block, blocks) ↦
      let phys = virt2_phys block in
      let start_index = (phys + 2 ^ 32 - b.memory_start) % 2 ^ 32 / page_size in
      let infos = update_pages (compound order phys) start_index (2 ^ order) b.page_info in
      let info = get_or infos (phys / page_size) no_info in
      ltb (block + 2 ^ found * page_size / 2) (2 ^ 32)
      && (leb (start_index + 2 ^ order) (length b.page_info)
          && ltb (phys / page_size) (length b.page_info)
          && (not info.is_compound || ltb (info.compound_head / page_size) (length b.page_info)))
]

covers-set :
    (i k p : ℕ) (ls : List (List ℕ)) (l : List ℕ)
    → k < length ls
    → covers i p (set ls k l) + in_list (2 ^ (i + k) * page_size) p (get_or ls k [])
      ≡ covers i p ls + in_list (2 ^ (i + k) * page_size) p l
unfolding covers
covers-set i k p [] l h = absurd (omega arith)
covers-set i zero p (x ∷ ls) l h = let same : i + 0 ≡ i = omega arith in rw same (omega arith)
covers-set i (suc k) p (x ∷ ls) l h =
    let same : i + suc k ≡ i + 1 + k = omega arith in
    rw same (omega (arith, covers-set (i + 1) k p ls l (omega arith)))

in_list-cons :
    (bytes p a : ℕ) (bs : List ℕ) → in_list bytes p (a ∷ bs) ≡ within bytes a p + in_list bytes p bs
unfolding in_list
in_list-cons bytes p a bs = refl

-- One block more in the list of its order.
covers-push :
    (k a p : ℕ) (ls : List (List ℕ))
    → k < length ls
    → covers 0 p (set ls k (a ∷ get_or ls k [])) ≡ covers 0 p ls + within (2 ^ k * page_size) a p
covers-push k a p ls h =
    let same : 0 + k ≡ k = omega arith in
    let e = rw same at (covers-set 0 k p ls (a ∷ get_or ls k []) h) in
    omega (arith, e, in_list-cons (2 ^ k * page_size) p a (get_or ls k []))

-- One block less.
pub covers-pop :
    (k a p : ℕ) (rest : List ℕ) (ls : List (List ℕ))
    → k < length ls
    → get_or ls k [] ≡ a ∷ rest
    → covers 0 p (set ls k rest) + within (2 ^ k * page_size) a p ≡ covers 0 p ls
covers-pop k a p rest ls h e =
    let same : 0 + k ≡ k = omega arith in
    let c = rw (same, e) at (covers-set 0 k p ls rest h) in
    omega (arith, c, in_list-cons (2 ^ k * page_size) p a rest)

-- A block is its two halves.
within-halves :
    (half block p : ℕ)
    → within half block p + within half (block + half) p ≡ within (2 * half) block p
unfolding within
within-halves half block p = ground arith

-- Of a block of order `order + n`, all addresses become free but those of its first 2 ^ order pages.
pub covers-split :
    (block order n p : ℕ) (ls : List (List ℕ))
    → order + n ≤ length ls
    → block + 2 ^ (order + n) * page_size / 2 < 2 ^ 32
    → covers 0 p (split block order n ls) + within (2 ^ order * page_size) block p
      ≡ covers 0 p ls + within (2 ^ (order + n) * page_size) block p
unfolding split
covers-split block order zero p ls h f = let same : order + 0 ≡ order = omega arith in rw same refl
covers-split block order (suc n) p ls h f =
    let half : ℕ = 2 ^ (order + n) * page_size in
    let buddy_addr : ℕ = (block + half) % 2 ^ 32 in
    let ls' : List (List ℕ) = set ls (order + n) (buddy_addr ∷ get_or ls (order + n) []) in
    let same : order + suc n ≡ suc (order + n) = omega arith in
    let twice : 2 ^ (order + suc n) * page_size ≡ 2 * half =
      rw same (omega (arith, pow-suc 2 (order + n))) in
    let fits : block + 2 * half / 2 < 2 ^ 32 = rw twice at f in
    let low : buddy_addr ≡ block + half = omega (arith, fits) in
    let rest =
      covers-split block order n p ls'
        (omega (arith, length-set ls (order + n) (buddy_addr ∷ get_or ls (order + n) [])))
        (omega (arith, fits)) in
    let pushed = covers-push (order + n) buddy_addr p ls (omega arith) in
    let halves = within-halves half block p in
    let at_buddy : within half buddy_addr p ≡ within half (block + half) p =
      ap (λ (a : ℕ). within half a p) low in
    rw twice (omega (arith, rest, pushed, halves, at_buddy))
