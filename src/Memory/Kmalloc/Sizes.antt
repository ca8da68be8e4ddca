-- ===== src/Memory/Kmalloc/Sizes.antt =====
-- The choice of a cache for a size (kernel/memory/slab_allocator.cpp).
use wandos.Base.{
  ℕ, suc, ◌+◌, ◌*◌, ◌<◌, ◌≤◌, ◌≡◌, ap, ◌∙◌, ◌++◌, inl, inr, true, Bool-cases, some, List, [], ◌∷◌,
  arith, leb, leb→le, length, get_or, take, All,
}
use wandos.Memory.Slab.{Heap, init_cache}
use wandos.Memory.Kmalloc.{sizes, find_cache, get_general_cache, init_caches, init}

-- The size at `k` is the first that is large enough.
abbrev pub FirstFit : ℕ → List ℕ → ℕ → Type 0
FirstFit size xs k = (k < length xs) × (size ≤ get_or xs k 0) × All (λ s. s < size) (take k xs)

find_cache_lem :
    (i size : ℕ) (xs : List ℕ) (last : ℕ)
    → size ≤ last
    → (k : ℕ) × (find_cache i size (xs ++ last ∷ []) ≡ some (i + k))
      × FirstFit size (xs ++ last ∷ []) k
unfolding find_cache
find_cache_lem i size [] last l =
    let fits : leb size last ≡ true = ground arith in
    (0, rw fits (ap some (omega arith)), (omega arith, l, tt))
find_cache_lem i size (x ∷ xs) last l = elim (Bool-cases (leb size x)) [
  | inl fits ↦ (0, rw fits (ap some (omega arith)), (omega arith, leb→le size x fits, tt))
  | inr small ↦
      let (k, found, first) = find_cache_lem (i + 1) size xs last l in
      (
        suc k,
        rw small (found ∙ ap some (omega arith)),
        (omega (arith, first.0), first.1, (ground (arith, small), first.2)),
      )
]

-- A size up to 2048 gets the first general cache whose objects are at least as large.
pub get_general_cache_lem :
    (size : ℕ) → size ≤ 2048 → (i : ℕ) × (get_general_cache size ≡ some i) × FirstFit size sizes i
unfolding get_general_cache
get_general_cache_lem size l =
    let (k, found, first) =
      find_cache_lem 0 size (8 ∷ 16 ∷ 32 ∷ 64 ∷ 128 ∷ 256 ∷ 512 ∷ 1024 ∷ []) 2048 l in
    (k, found ∙ ap some (omega arith), first)

-- The objects of every general cache fit on a page behind the header, and there is at least one.
pub caches_fit :
    (h : Heap)
    → All
        (λ c. (0 < c.objects_per_slab) × (24 + c.objects_per_slab * c.object_size ≤ 4096))
        (init h).general_caches
unfolding init init_caches init_cache
caches_fit h = omega arith
