-- ===== src/Memory/Slab.antt =====
-- kernel/memory/slab_allocator.cpp, class SlabCache. An address is a number and
-- 0 is the null pointer: the heap gives each page's slab descriptor and the `next` field of each
-- free object. Such a field has 4 bytes: the model holds for objects of 4 bytes at least, whose fields do
-- not overlap. The names of the caches, which only the log prints, are left out.
use wandos.Base.{
  ℕ, zero, suc, ◌+◌, ◌-◌, ◌*◌, ◌/◌, ◌%◌, ◌^◌, Bool, true, false, Option, none, some, List, [], ◌∷◌,
  ltb, leb, ◌==◌, if◌then◌else◌, set, get_or,
}
use wandos.Base.Chain.{update}
use wandos.Memory.Buddy.{phys2_virt}
pub mod Objects
pub mod Lists
pub mod Alloc
pub mod Tests

pub record Slab : Type 0 where
  pub objects : ℕ
  pub inuse : ℕ
  pub free : ℕ
  pub freelist : ℕ
  pub next : ℕ
  -- The index of its cache.
  pub cache : ℕ

pub record Heap : Type 0 where
  pub slab : ℕ → Slab
  pub link : ℕ → ℕ

pub record SlabCache : Type 0 where
  pub object_size : ℕ
  pub object_align : ℕ
  pub objects_per_slab : ℕ
  pub slabs_full : ℕ
  pub slabs_partial : ℕ
  pub slabs_free : ℕ

-- The page allocator that the slabs come from and go back to, with its state.
pub record Pages (K : Type 0) : Type 0 where
  pub alloc_pages : ℕ → K → ℕ × K
  pub free_pages : ℕ → ℕ → K → K

abbrev pub page_size : ℕ
page_size = 4096

-- `sizeof(Slab)`: six words.
abbrev pub slab_header : ℕ
slab_header = 24

-- The constructor, for a size that is not 0.
unfoldable pub init_cache : ℕ → ℕ → SlabCache
init_cache size align = record {
  object_size = size;
  object_align = align;
  objects_per_slab = (page_size - slab_header) / size;
  slabs_full = 0;
  slabs_partial = 0;
  slabs_free = 0;
}

-- The loop that links the objects of a page; the last one ends the list.
pub link_objects : ℕ → ℕ → ℕ → (ℕ → ℕ) → ℕ → ℕ
link_objects zero obj object_size link = update link obj 0
link_objects (suc n) obj object_size link =
    let after : ℕ = (obj + object_size) % 2 ^ 32 in
    link_objects n after object_size (update link obj after)

-- The slab, 0 on failure, on the page at the physical address `pa`.
pub create_slab : ℕ → ℕ → SlabCache → Heap → ℕ × Heap
unfolding link_objects
create_slab self pa c h =
    let page = phys2_virt pa in
    let objects : ℕ = (page + slab_header) % 2 ^ 32 in
    let slab : Slab = record {
      objects = objects;
      inuse = 0;
      free = c.objects_per_slab;
      freelist = objects;
      next = 0;
      cache = self;
    } in
    if page == 0
    then (0, h)
    else if objects == 0
    then (0, record h { slab = update h.slab page slab })
    else (
      page,
      record {
        slab = update h.slab page slab;
        link =
            link_objects ((c.objects_per_slab + 2 ^ 32 - 1) % 2 ^ 32) objects c.object_size h.link;
      },
    )

-- The part of `alloc` that takes an object from a slab.
pub take_object : ℕ → SlabCache → Heap → ℕ × SlabCache × Heap
take_object slab c h =
    let s = h.slab slab in
    let obj = s.freelist in
    let left : ℕ = (s.free + 2 ^ 32 - 1) % 2 ^ 32 in
    let taken = λ (next : ℕ). record h {
      slab = update h.slab slab (record s {
        freelist = h.link obj;
        inuse = (s.inuse + 1) % 2 ^ 32;
        free = left;
        next = next;
      });
    } in
    if left == 0
    then if slab == c.slabs_partial
      then (obj, record c { slabs_partial = s.next; slabs_full = slab }, taken c.slabs_full)
      else (obj, record c { slabs_free = s.next; slabs_full = slab }, taken c.slabs_full)
    else if slab == c.slabs_free
    then (obj, record c { slabs_free = s.next; slabs_partial = slab }, taken c.slabs_partial)
    else (obj, c, taken s.next)

-- The object that `alloc` returns, 0 on failure, with the cache, the heap and the pages after it.
unfoldable pub alloc :
    {K : Type 0} → Pages K → ℕ → K → SlabCache → Heap → (ℕ × SlabCache × Heap) × K
unfolding create_slab take_object
alloc pages self k c h =
    let slab = if c.slabs_partial == 0 then c.slabs_free else c.slabs_partial in
    let got = pages.alloc_pages 0 k in
    let made = create_slab self got.0 c h in
    if slab == 0
    then if made.0 == 0
      then ((0, c, made.1), got.1)
      else (take_object made.0 (record c { slabs_free = made.0 }) made.1, got.1)
    else (take_object slab c h, k)

-- `while (*prev && *prev != slab) prev = &(*prev)->next;` from `prev`, 0 for the head of the list,
-- and `*prev`. `none` means that the fuel ran out.
pub find_prev : ℕ → ℕ → ℕ → ℕ → (ℕ → Slab) → Option (ℕ × ℕ)
find_prev zero prev here slab st = none
find_prev (suc fuel) prev here slab st =
    let rest = find_prev fuel here (st here).next slab st in
    if here == 0 then some (prev, 0) else if here == slab then some (prev, here) else rest

-- `if (*prev) *prev = slab->next;`, for the head of the list and the slabs.
pub unlink_slab : ℕ × ℕ → ℕ → ℕ → (ℕ → Slab) → Bool × ℕ × (ℕ → Slab)
unlink_slab (prev, here) head slab st =
    if here == 0
    then (false, head, st)
    else if prev == 0
    then (true, (st slab).next, st)
    else (true, head, update st prev (record (st prev) { next = (st slab).next }))

unfoldable pub slab_of : ℕ → ℕ
slab_of ptr = ptr / page_size * page_size

-- The free slab at the head of its list.
pub push_free : ℕ → SlabCache → (ℕ → Slab) → (ℕ → ℕ) → SlabCache × Heap
push_free slab c st link = (
  record c { slabs_free = slab },
  record { slab = update st slab (record (st slab) { next = c.slabs_free }); link = link },
)

pub push_partial : ℕ → SlabCache → (ℕ → Slab) → (ℕ → ℕ) → SlabCache × Heap
push_partial slab c st link = (
  record c { slabs_partial = slab },
  record { slab = update st slab (record (st slab) { next = c.slabs_partial }); link = link },
)

pub free : ℕ → ℕ → SlabCache → Heap → Option (SlabCache × Heap)
unfolding find_prev unlink_slab slab_of push_free push_partial
free fuel ptr c h =
    let slab = slab_of ptr in
    let s = h.slab slab in
    let link = update h.link ptr s.freelist in
    let inuse : ℕ = (s.inuse + 2 ^ 32 - 1) % 2 ^ 32 in
    let free : ℕ = (s.free + 1) % 2 ^ 32 in
    let st = update h.slab slab (record s { freelist = ptr; inuse = inuse; free = free }) in
    if inuse == 0
    then if slab == c.slabs_full
      then some (push_free slab (record c { slabs_full = (st slab).next }) st link)
      else (elim (find_prev fuel 0 c.slabs_partial slab st) [
        | none ↦ none
        | some place ↦
            let r = unlink_slab place c.slabs_partial slab st in
            some (push_free slab (record c { slabs_partial = r.1 }) r.2 link)
      ])
    else if free == 1
    then (elim (find_prev fuel 0 c.slabs_full slab st) [
      | none ↦ none
      | some place ↦
          let r = unlink_slab place c.slabs_full slab st in
          if r.0
          then some (push_partial slab (record c { slabs_full = r.1 }) r.2 link)
          else some (c, record { slab = r.2; link = link })
    ])
    else some (c, record { slab = st; link = link })
