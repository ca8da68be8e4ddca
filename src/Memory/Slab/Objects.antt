-- ===== src/Memory/Slab/Objects.antt =====
-- The free objects of a slab, and those of a new one (kernel/memory/slab_allocator.cpp).
use wandos.Base.{
  ℕ, zero, suc, ◌+◌, ◌-◌, ◌*◌, ◌%◌, ◌^◌, ◌<◌, ◌≤◌, ◌≡◌, refl, ap, ◌∙◌, true, false, List, [], ◌∷◌,
  arith, ◌==◌, length, All,
}
use wandos.Base.Chain.{update, has, Chain, Chain-frame, Distinct}
use wandos.Memory.Slab.{Slab, Heap, SlabCache, link_objects, create_slab, slab_of}
use wandos.Memory.Buddy.{phys2_virt}

-- The descriptor `slab` of the page `s` has the free objects `xs`, linked by `link`.
pub record SlabOk (ops : ℕ) (link : ℕ → ℕ) (s : ℕ) (slab : Slab) (xs : List ℕ) : Type 0 where
  pub linked : Chain link slab.freelist xs
  pub distinct : Distinct xs
  pub inside : All (λ o. slab_of o ≡ s) xs
  pub count : length xs ≡ slab.free
  pub total : slab.inuse + slab.free ≡ ops

-- `n + 1` objects in a row.
pub objects_from : ℕ → ℕ → ℕ → List ℕ
objects_from zero obj size = obj ∷ []
objects_from (suc n) obj size = obj ∷ objects_from n (obj + size) size

link_objects_step :
    (n obj size : ℕ) (link : ℕ → ℕ)
    → obj + suc n * size < 2 ^ 32
    → link_objects (suc n) obj size link
      ≡ link_objects n (obj + size) size (update link obj (obj + size))
unfolding link_objects
link_objects_step n obj size link b =
    let same : (obj + size) % 2 ^ 32 ≡ obj + size = grind arith in rw same

link_objects_below :
    (n obj size a : ℕ) (link : ℕ → ℕ)
    → a < obj
    → obj + n * size < 2 ^ 32
    → link_objects n obj size link a ≡ link a
link_objects_below zero obj size a link l b = unfold link_objects in (ground arith)
link_objects_below (suc n) obj size a link l b = rw (link_objects_step n obj size link b) (
    link_objects_below n (obj + size) size a (update link obj (obj + size)) (omega arith)
      (grind arith)
    ∙ ground arith)

link_objects-Chain :
    (n obj size : ℕ) (link : ℕ → ℕ)
    → 0 < obj
    → 0 < size
    → obj + n * size < 2 ^ 32
    → Chain (link_objects n obj size link) obj (objects_from n obj size)
unfolding objects_from
link_objects-Chain zero obj size link p q b = (refl, p, unfold link_objects in (ground arith))
link_objects-Chain (suc n) obj size link p q b =
    let after : ℕ → ℕ = update link obj (obj + size) in
    let first : link_objects n (obj + size) size after obj ≡ obj + size =
      link_objects_below n (obj + size) size obj after (omega arith) (grind arith) ∙ ground arith in
    let step = link_objects_step n obj size link b in
    let rest : Chain (link_objects n (obj + size) size after) (obj + size)
        (objects_from n (obj + size) size) =
      link_objects-Chain n (obj + size) size after (omega arith) q (grind arith) in
    Chain-frame (link_objects n (obj + size) size after) (link_objects (suc n) obj size link) obj
      (obj ∷ objects_from n (obj + size) size) (λ a m. ap (λ (f : ℕ → ℕ). f a) step)
      (refl, p, rw first rest)

length-objects_from : (n obj size : ℕ) → length (objects_from n obj size) ≡ n + 1
unfolding objects_from
length-objects_from zero obj size = omega arith
length-objects_from (suc n) obj size = omega (arith, length-objects_from n (obj + size) size)

not_in_later : (n obj size a : ℕ) → a < obj → has a (objects_from n obj size) ≡ false
unfolding objects_from
not_in_later zero obj size a l = ground arith
not_in_later (suc n) obj size a l = ground (arith, not_in_later n (obj + size) size a)

Distinct-objects_from : (n obj size : ℕ) → 0 < size → Distinct (objects_from n obj size)
unfolding objects_from
Distinct-objects_from zero obj size q = (refl, tt)
Distinct-objects_from (suc n) obj size q = (
  not_in_later n (obj + size) size obj (omega arith),
  Distinct-objects_from n (obj + size) size q,
)

-- Every object lies on the page behind the header, with all its bytes.
abbrev pub Within : ℕ → ℕ → ℕ → Type 0
Within page size o = (page + 24 ≤ o) × (o + size ≤ page + 4096)

objects_from-Within :
    (n obj size page : ℕ)
    → page + 24 ≤ obj
    → obj + n * size + size ≤ page + 4096
    → All (Within page size) (objects_from n obj size)
unfolding objects_from
objects_from-Within zero obj size page l u = ((l, omega arith), tt)
objects_from-Within (suc n) obj size page l u =
    ((l, grind arith), objects_from-Within n (obj + size) size page (omega arith) (grind arith))

pub slab_of_lem : (page o : ℕ) → page % 4096 ≡ 0 → page ≤ o → o < page + 4096 → slab_of o ≡ page
unfolding slab_of
slab_of_lem page o d l u = omega arith

-- Each object ends before those behind it begin.
abbrev pub Apart : ℕ → List ℕ → Type 0
Apart size [] = Unit
Apart size (x ∷ xs) = All (λ o. x + size ≤ o) xs × Apart size xs

objects_from-above : (n obj size lo : ℕ) → lo ≤ obj → All (λ o. lo ≤ o) (objects_from n obj size)
unfolding objects_from
objects_from-above zero obj size lo l = (l, tt)
objects_from-above (suc n) obj size lo l =
    (l, objects_from-above n (obj + size) size lo (omega arith))

objects_from-Apart : (n obj size : ℕ) → Apart size (objects_from n obj size)
unfolding objects_from
objects_from-Apart zero obj size = (tt, tt)
objects_from-Apart (suc n) obj size = (
  objects_from-above n (obj + size) size (obj + size) (omega arith),
  objects_from-Apart n (obj + size) size,
)

Within-inside :
    (page size : ℕ) (xs : List ℕ)
    → page % 4096 ≡ 0
    → 0 < size
    → All (Within page size) xs
    → All (λ o. slab_of o ≡ page) xs
Within-inside page size [] d q a = tt
Within-inside page size (x ∷ xs) d q (i, a) =
    (slab_of_lem page x d (omega arith) (omega arith), Within-inside page size xs d q a)

module _ (self pa page : ℕ) (c : SlabCache) (h : Heap) (n : ℕ) (mapped : phys2_virt pa ≡ page)
    (aligned : page % 4096 ≡ 0) (not_null : 0 < page) (in_range : page + 4096 ≤ 2 ^ 32)
    (word : 4 ≤ c.object_size) (some_objects : c.objects_per_slab ≡ suc n)
    (fit : 24 + suc n * c.object_size ≤ 4096) where
  -- On a page that the page allocator gives, and for objects that fit, of the 4 bytes of a `next`
  -- field at least, a new slab has `objects_per_slab` free objects and none in use, linked from the
  -- first to the last. They are distinct, no two overlap, and each lies with all its bytes on the
  -- page, behind the header.
  pub create_slab_lem :
      ((create_slab self pa c h).0 ≡ page)
      × SlabOk c.objects_per_slab
          (create_slab self pa c h).1.link
          page
          ((create_slab self pa c h).1.slab page)
          (objects_from n (page + 24) c.object_size)
      × ((((create_slab self pa c h).1).slab page).inuse ≡ 0)
      × All (Within page c.object_size) (objects_from n (page + 24) c.object_size)
      × Apart c.object_size (objects_from n (page + 24) c.object_size)
  unfolding create_slab
  create_slab_lem =
      let size : 0 < c.object_size = omega arith in
      let objects : (page + 24) % 2 ^ 32 ≡ page + 24 = omega arith in
      let few : n ≤ n * c.object_size = grind arith in
      let rounds : (c.objects_per_slab + 2 ^ 32 - 1) % 2 ^ 32 ≡ n = grind arith in
      let low : page == 0 ≡ false = ground arith in
      let low' : (page + 24) == 0 ≡ false = ground arith in
      let self : page == page ≡ true = ground arith in
      let held : All (Within page c.object_size) (objects_from n (page + 24) c.object_size) =
        objects_from-Within n (page + 24) c.object_size page (omega arith) (grind arith) in
      rw (mapped, objects, rounds, low, low', self)
        (
          refl,
          record {
            linked =
                link_objects-Chain n (page + 24) c.object_size h.link (omega arith) size
                  (grind arith);
            distinct = Distinct-objects_from n (page + 24) c.object_size size;
            inside = Within-inside page c.object_size _ aligned size held;
            count = ground (arith, length-objects_from n (page + 24) c.object_size);
            total = ground arith;
          },
          refl,
          held,
          objects_from-Apart n (page + 24) c.object_size,
        )
