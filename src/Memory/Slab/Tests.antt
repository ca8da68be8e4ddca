-- ===== src/Memory/Slab/Tests.antt =====
-- The slab cache for objects of 1024 bytes, over a page allocator that gives the page at 1 MiB.
use wandos.Base.{ℕ, ◌≡◌, refl, ◌==◌, if◌then◌else◌, Option, none, some, List, [], ◌∷◌, arith, All}
use wandos.Base.Chain.{update}
use wandos.Memory.Slab.{Slab, Heap, SlabCache, Pages, init_cache, create_slab, alloc, free, slab_of}
use wandos.Memory.Slab.Objects.{SlabOk, objects_from, Within, Apart, create_slab_lem}
use wandos.Memory.Slab.Lists.{IsValid}
use wandos.Memory.Slab.Alloc.{Chosen, Taken, alloc_takes_free}

abbrev blank : Slab
blank = record { objects = 0; inuse = 0; free = 0; freelist = 0; next = 0; cache = 0 }

abbrev no_slabs : Heap
no_slabs = record { slab = λ s. blank; link = λ o. 0 }

abbrev pages_at : Pages (Unit {0})
pages_at = record { alloc_pages = λ order k. (0x100000, k); free_pages = λ pfn order k. k }

abbrev cache_1024 : SlabCache
cache_1024 = record {
  object_size = 1024;
  object_align = 8;
  objects_per_slab = 3;
  slabs_full = 0;
  slabs_partial = 0;
  slabs_free = 0;
}

made_1024 : init_cache 1024 8 ≡ cache_1024
unfolding init_cache
made_1024 = refl

create_slab_example :
    ((create_slab 7 0x100000 cache_1024 no_slabs).0 ≡ 0xC0100000)
    × SlabOk 3
        (create_slab 7 0x100000 cache_1024 no_slabs).1.link
        0xC0100000
        ((create_slab 7 0x100000 cache_1024 no_slabs).1.slab 0xC0100000)
        (objects_from 2 0xC0100018 1024)
    × ((((create_slab 7 0x100000 cache_1024 no_slabs).1).slab 0xC0100000).inuse ≡ 0)
    × All (Within 0xC0100000 1024) (objects_from 2 0xC0100018 1024)
    × Apart 1024 (objects_from 2 0xC0100018 1024)
create_slab_example =
    create_slab_lem 7 0x100000 0xC0100000 cache_1024 no_slabs 2 refl (omega arith) (omega arith)
      (omega arith) (omega arith) refl (omega arith)

-- One slab with one object in use and a free object.
abbrev half_used : Slab
half_used = record { objects = 4120; inuse = 1; free = 1; freelist = 4120; next = 0; cache = 0 }

abbrev one_slab : Heap
one_slab = record { slab = update (λ s. blank) 4096 half_used; link = λ o. 0 }

abbrev cache_2 : SlabCache
cache_2 = record {
  object_size = 1800;
  object_align = 8;
  objects_per_slab = 2;
  slabs_full = 0;
  slabs_partial = 4096;
  slabs_free = 0;
}

abbrev one_free : ℕ → List ℕ
one_free s = if◌then◌else◌ (s == 4096) (4120 ∷ []) []

one_slab-IsValid : IsValid cache_2 one_slab one_free [] (4096 ∷ []) []
unfolding slab_of
one_slab-IsValid = record {
  some_objects = omega arith;
  bounded = omega arith;
  fulls = record { chain = refl; distinct = tt; each = tt };
  partials = record {
    chain = (refl, omega arith, refl);
    distinct = (refl, tt);
    each = (
      (
        record {
          linked = (refl, omega arith, refl);
          distinct = (refl, tt);
          inside = (refl, tt);
          count = refl;
          total = refl;
        },
        omega arith,
        omega arith,
      ),
      tt,
    );
  };
  empties = record { chain = refl; distinct = tt; each = tt };
}

alloc_takes_free_example :
    ((alloc pages_at 0 tt cache_2 one_slab).1 ≡ tt)
    × ((s : ℕ) × (o : ℕ) × (os : List ℕ) × (partial' : List ℕ) × (empty' : List ℕ) × Chosen s
          (4096 ∷ [])
          []
          partial'
          empty'
        × (one_free s ≡ o ∷ os)
        × Taken (alloc pages_at 0 tt cache_2 one_slab).0 one_free s o os [] partial' empty')
alloc_takes_free_example =
    alloc_takes_free pages_at 0 tt cache_2 one_slab one_free [] (4096 ∷ []) [] one_slab-IsValid
      (λ e. cc e)

-- The caches of 2048 bytes hold one object on a slab. Here two slabs are full, and the object of
-- the second in the list is freed: the list of full slabs still leads to it.
abbrev used_up : ℕ → Slab
used_up next = record { objects = 0; inuse = 1; free = 0; freelist = 0; next = next; cache = 0 }

abbrev two_full : Heap
two_full = record {
  slab = update (update (λ s. blank) 4096 (used_up 8192)) 8192 (used_up 0);
  link = λ o. 0;
}

abbrev cache_2048 : SlabCache
cache_2048 = record {
  object_size = 2048;
  object_align = 8;
  objects_per_slab = 1;
  slabs_full = 4096;
  slabs_partial = 0;
  slabs_free = 0;
}

-- The heads of the lists of full and of free slabs, and what follows the first full slab.
abbrev seen : Option (SlabCache × Heap) → List ℕ
seen none = []
seen (some r) = r.0.slabs_full ∷ (r.1.slab 4096).next ∷ r.0.slabs_free ∷ []

in_two_lists : seen (free 5 8216 cache_2048 two_full) ≡ 4096 ∷ 8192 ∷ 8192 ∷ []
unfolding free
in_two_lists = refl
