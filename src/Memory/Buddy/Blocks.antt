-- ===== src/Memory/Buddy/Blocks.antt =====
-- BuddyAllocator (kernel/memory/buddy_allocator.cpp): the pages in the free lists, and what is left of
-- them when the block that the search finds is taken out and halved.
use wandos.Base.{
  ℕ, zero, suc, ◌+◌, ◌-◌, ◌*◌, ◌/◌, ◌%◌, ◌^◌, ◌≤◌, ◌<◌, ◌≡◌, refl, sym, ap, ◌∙◌, none, some, List,
  [], ◌∷◌, arith, length, set, get_or, drop, length-drop, length-set, All,
}
use native.Mathlib.Nat.{mul-suc, pow-suc}
use wandos.Memory.Buddy.{max_order, page_size, first_block, split}
use wandos.Memory.Buddy.Cover.{within, covers, covers-pop, covers-split}

-- The pages in the free lists of the orders from `i` on.
pub pages_from : ℕ → List (List ℕ) → ℕ
pages_from i [] = 0
pages_from i (l ∷ ls) = 2 ^ i * length l + pages_from (i + 1) ls

pages_from-set :
    (i k : ℕ) (ls : List (List ℕ)) (l : List ℕ)
    → k < length ls
    → pages_from i (set ls k l) + 2 ^ (i + k) * length (get_or ls k [])
      ≡ pages_from i ls + 2 ^ (i + k) * length l
unfolding pages_from
pages_from-set i k [] l h = absurd (omega arith)
pages_from-set i zero (x ∷ ls) l h = let same : i + 0 ≡ i = omega arith in rw same (omega arith)
pages_from-set i (suc k) (x ∷ ls) l h =
    let same : i + suc k ≡ i + 1 + k = omega arith in
    rw same (omega (arith, pages_from-set (i + 1) k ls l (omega arith)))

-- One block more in the list of its order.
pub pages_from-push :
    (k a : ℕ) (ls : List (List ℕ))
    → k < length ls
    → pages_from 0 (set ls k (a ∷ get_or ls k [])) ≡ pages_from 0 ls + 2 ^ k
pages_from-push k a ls h =
    let same : 0 + k ≡ k = omega arith in
    let e = rw same at (pages_from-set 0 k ls (a ∷ get_or ls k []) h) in grind (arith, e)

-- One block less.
pub pages_from-pop :
    (k a : ℕ) (rest : List ℕ) (ls : List (List ℕ))
    → k < length ls
    → length (get_or ls k []) ≡ suc (length rest)
    → pages_from 0 (set ls k rest) + 2 ^ k ≡ pages_from 0 ls
pages_from-pop k a rest ls h e =
    let same : 0 + k ≡ k = omega arith in
    let c = rw (same, e) at (pages_from-set 0 k ls rest h) in
    omega (arith, c, mul-suc (2 ^ k) (length rest))

length-split :
    (block order n : ℕ) (ls : List (List ℕ)) → length (split block order n ls) ≡ length ls
unfolding split
length-split block order zero ls = refl
length-split block order (suc n) ls = length-split block order n _ ∙ length-set ls (order + n) _

-- Of a block of order `order + n`, all but 2 ^ order pages become free.
pages_from-split :
    (block order n : ℕ) (ls : List (List ℕ))
    → order + n ≤ length ls
    → pages_from 0 (split block order n ls) + 2 ^ order ≡ pages_from 0 ls + 2 ^ (order + n)
unfolding split
pages_from-split block order zero ls h = let same : order + 0 ≡ order = omega arith in rw same refl
pages_from-split block order (suc n) ls h =
    let buddy_addr : ℕ = (block + 2 ^ (order + n) * page_size) % 2 ^ 32 in
    let ls' : List (List ℕ) = set ls (order + n) (buddy_addr ∷ get_or ls (order + n) []) in
    let same : order + suc n ≡ suc (order + n) = omega arith in
    let rest =
      pages_from-split block order n ls'
        (omega (arith, length-set ls (order + n) (buddy_addr ∷ get_or ls (order + n) []))) in
    omega (
      arith,
      rest,
      pages_from-push (order + n) buddy_addr ls (omega arith),
      ap (λ k. 2 ^ k) same,
      pow-suc 2 (order + n),
    )

-- What the search finds: the head of the list of an order, below which all lists are empty; or
-- nothing, and all lists are empty.
first_block-some :
    (order found block : ℕ) (blocks : List ℕ) (ls : List (List ℕ))
    → first_block order ls ≡ some (found, block, blocks)
    → (order ≤ found)
      × (found < order + length ls)
      × (get_or ls (found - order) [] ≡ block ∷ blocks)
unfolding first_block
first_block-some order found block blocks [] h = cc
first_block-some order found block blocks ([] ∷ ls) h =
    let r = first_block-some (order + 1) found block blocks ls h in
    let same : found - order ≡ suc (found - (order + 1)) = omega (arith, r.0) in
    (omega (arith, r.0), omega (arith, r.1), rw same r.2)
first_block-some order found block blocks ((b ∷ bs) ∷ ls) h =
    let f : order ≡ found = ground (arith, h) in
    let same : found - order ≡ 0 = omega (arith, f) in
    let head : b ≡ block = ground (arith, h) in
    let tail : bs ≡ blocks = ground (arith, h) in
    (omega (arith, f), omega (arith, f), rw same (rw (head, tail) refl))

abbrev pub IsEmpty : List ℕ → Type 0
IsEmpty l = l ≡ []

pub first_block-none :
    (order : ℕ) (ls : List (List ℕ)) → first_block order ls ≡ none → All IsEmpty ls
unfolding first_block
first_block-none order [] h = tt
first_block-none order ([] ∷ ls) h = (refl, first_block-none (order + 1) ls h)
first_block-none order ((b ∷ bs) ∷ ls) h = cc

get_or-drop : (n i : ℕ) (ls : List (List ℕ)) → get_or (drop n ls) i [] ≡ get_or ls (n + i) []
get_or-drop zero i ls = let same : 0 + i ≡ i = omega arith in rw same refl
get_or-drop (suc n) i [] = refl
get_or-drop (suc n) i (l ∷ ls) =
    let same : suc n + i ≡ suc (n + i) = omega arith in rw same (get_or-drop n i ls)

found_place :
    (order found block : ℕ) (blocks : List ℕ) (ls : List (List ℕ))
    → length ls ≡ max_order + 1
    → order ≤ max_order
    → first_block order (drop order ls) ≡ some (found, block, blocks)
    → (order ≤ found) × (found < length ls) × (get_or ls found [] ≡ block ∷ blocks)
found_place order found block blocks ls n o h =
    let r = first_block-some order found block blocks (drop order ls) h in
    let up : order + (found - order) ≡ found = omega (arith, r.0) in
    (
      r.0,
      omega (arith, r.0, r.1, n, o, length-drop order ls),
      ap (λ k. get_or ls k []) (sym up) ∙ sym (get_or-drop order (found - order) ls) ∙ r.2,
    )

-- The addresses of the block that is taken leave the free blocks, and no others.
pub found_covers :
    (order found block p : ℕ) (blocks : List ℕ) (ls : List (List ℕ))
    → length ls ≡ max_order + 1
    → order ≤ max_order
    → first_block order (drop order ls) ≡ some (found, block, blocks)
    → block + 2 ^ found * page_size / 2 < 2 ^ 32
    → covers 0 p (split block order (found - order) (set ls found blocks))
        + within (2 ^ order * page_size) block p
      ≡ covers 0 p ls
found_covers order found block p blocks ls n o h f =
    let (le, inside, there) = found_place order found block blocks ls n o h in
    let up : order + (found - order) ≡ found = omega (arith, le) in
    let parts =
      covers-split block order (found - order) p (set ls found blocks)
        (omega (arith, up, length-set ls found blocks, inside)) (rw up f) in
    rw up at parts ∙ covers-pop found block p blocks ls inside there

pub found_count :
    (order found block : ℕ) (blocks : List ℕ) (ls : List (List ℕ))
    → length ls ≡ max_order + 1
    → order ≤ max_order
    → first_block order (drop order ls) ≡ some (found, block, blocks)
    → let after = split block order (found - order) (set ls found blocks) in
      (pages_from 0 after + 2 ^ order ≡ pages_from 0 ls) × (length after ≡ max_order + 1)
found_count order found block blocks ls n o h =
    let (le, inside, there) = found_place order found block blocks ls n o h in
    let up : order + (found - order) ≡ found = omega (arith, le) in
    let set_length = length-set ls found blocks in
    let popped = pages_from-pop found block blocks ls inside (ap length there) in
    let parts =
      pages_from-split block order (found - order) (set ls found blocks)
        (omega (arith, up, set_length, inside)) in
    (
      omega (arith, popped, rw up at parts),
      length-split block order (found - order) (set ls found blocks) ∙ set_length ∙ n,
    )
