-- ===== src/Memory/Slab/Alloc.antt =====
-- SlabCache::alloc (kernel/memory/slab_allocator.cpp): it takes a free object, and keeps the lists
-- well formed.
use wandos.Base.{
  ℕ, suc, ◌+◌, ◌-◌, ◌%◌, ◌^◌, ◌<◌, ◌≡◌, refl, ap, sym, ◌∙◌, ◌≢◌, true, false, inl, inr, Bool-cases,
  ==_iff, List, [], ◌∷◌, ◌++◌, arith, ◌==◌, length, ◌⊎◌, if◌then◌else◌,
}
use wandos.Base.Chain.{update, has}
use wandos.Memory.Slab.{Slab, Heap, SlabCache, Pages, take_object, alloc}
use wandos.Memory.Slab.Objects.{SlabOk}
use wandos.Memory.Slab.Lists.{
  Group, IsFull, IsPartial, IsEmpty, IsValid, not_has, Group-spared, Group-cons, Group-tail,
  update_self, not_head,
}

-- The descriptor of a slab after its first free object is taken.
abbrev taken : (ℕ → ℕ) → Slab → ℕ → ℕ → Slab
taken link slab o next = record slab {
  freelist = link o;
  inuse = (slab.inuse + 1) % 2 ^ 32;
  free = (slab.free + 2 ^ 32 - 1) % 2 ^ 32;
  next = next;
}

taken_ok :
    (ops : ℕ) (link : ℕ → ℕ) (s : ℕ) (slab : Slab) (o next : ℕ) (os : List ℕ)
    → ops < 2 ^ 32
    → SlabOk ops link s slab (o ∷ os)
    → SlabOk ops link s (taken link slab o next) os
taken_ok ops link s slab o next os b ok =
    let some_left : slab.free ≡ suc (length os) = sym ok.count in
    record {
      linked = ok.linked.2;
      distinct = ok.distinct.1;
      inside = ok.inside.1;
      count = omega (arith, ok.total);
      total = omega (arith, ok.total);
    }

-- The lists of full and of partial slabs after an object is taken from the slab `s`, whose other free
-- objects are `os`: with none left it goes to the front of the full ones, else it is, or becomes, the
-- first of the partial ones.
abbrev pub full_after : List ℕ → ℕ → List ℕ → List ℕ
full_after os s full = if length os == 0 then s ∷ full else full

abbrev pub partial_after : List ℕ → ℕ → List ℕ → List ℕ
partial_after os s partial = if length os == 0 then partial else s ∷ partial

-- The result of taking the object `o` from the slab `s`: it is `o`, and the lists are well formed
-- with `os` for the free objects of `s`; `partial` and `empty` are without `s`.
abbrev pub Taken :
    ℕ × SlabCache × Heap → (ℕ → List ℕ) → ℕ → ℕ → List ℕ → List ℕ → List ℕ → List ℕ → Type 0
Taken r objs s o os full partial empty =
    (r.0 ≡ o)
    × IsValid r.1 r.2 (update objs s os) (full_after os s full) (partial_after os s partial) empty

module _ (c : SlabCache) (h : Heap) (objs : ℕ → List ℕ) (s o : ℕ) (os full partial empty : List ℕ)
    (here : objs s ≡ o ∷ os) where
  abbrev after : ℕ → ℕ → Slab
  after next = update h.slab s (taken h.link (h.slab s) (h.slab s).freelist next)

  -- What is there of a slab with an object to take.
  Head : Type 0
  Head =
      SlabOk c.objects_per_slab h.link s (h.slab s) (o ∷ os)
      × ((h.slab s).freelist ≡ o)
      × (0 < (h.slab s).free)

  head_of : SlabOk c.objects_per_slab h.link s (h.slab s) (objs s) → Head
  unfolding Head
  head_of ok =
      let ok' : SlabOk c.objects_per_slab h.link s (h.slab s) (o ∷ os) = rw (← here) ok in
      (ok', ok'.linked.0, omega (arith, ok'.count))

  -- The test of `alloc` is whether no other object is left.
  left_lem :
      c.objects_per_slab < 2 ^ 32 → Head → (((h.slab s).free + 2 ^ 32 - 1) % 2 ^ 32) ≡ length os
  unfolding Head
  left_lem b hd = omega (arith, hd.0.count, hd.0.total, b)

  after_ok :
      (next : ℕ)
      → c.objects_per_slab < 2 ^ 32
      → Head
      → SlabOk c.objects_per_slab h.link s (after next s) (update objs s os s)
  unfolding Head
  after_ok next b hd =
      rw
        (
          update_self h.slab s (taken h.link (h.slab s) (h.slab s).freelist next),
          update_self objs s os,
          hd.1,
        )
        (taken_ok c.objects_per_slab h.link s (h.slab s) o next os b hd.0)

  spare :
      (P : ℕ → Slab → List ℕ → Type 0) (next head : ℕ) (xs : List ℕ)
      → has s xs ≡ false
      → Group P h.slab objs head xs
      → Group P (after next) (update objs s os) head xs
  spare P next head xs n g =
      Group-spared P h.slab objs head s (taken h.link (h.slab s) (h.slab s).freelist next) os xs n g

  -- The slab at the head of a list that it was not in, or again at the head of its own.
  join :
      (P : ℕ → Slab → List ℕ → Type 0) (head : ℕ) (xs : List ℕ)
      → has s xs ≡ false
      → 0 < s
      → Group P h.slab objs head xs
      → P s (after head s) (update objs s os s)
      → Group P (after head) (update objs s os) s (s ∷ xs)
  join P head xs n l g p =
      Group-cons P (after head) (update objs s os) head s xs (spare P head head xs n g)
        (rw (update_self h.slab s (taken h.link (h.slab s) (h.slab s).freelist head))) l n p

  after_free : (next : ℕ) → (after next s).free ≡ ((h.slab s).free + 2 ^ 32 - 1) % 2 ^ 32
  after_free next = rw (update_self h.slab s (taken h.link (h.slab s) (h.slab s).freelist next))

  after_inuse : (next : ℕ) → (after next s).inuse ≡ ((h.slab s).inuse + 1) % 2 ^ 32
  after_inuse next = rw (update_self h.slab s (taken h.link (h.slab s) (h.slab s).freelist next))

  some_free :
      (next : ℕ) → (((h.slab s).free + 2 ^ 32 - 1) % 2 ^ 32 == 0) ≡ false → 0 < (after next s).free
  some_free next e = rw (after_free next) (ground (arith, e))

  some_inuse :
      (next : ℕ)
      → c.objects_per_slab < 2 ^ 32
      → (h.slab s).inuse + (h.slab s).free ≡ c.objects_per_slab
      → 0 < (h.slab s).free
      → 0 < (after next s).inuse
  some_inuse next b t f = rw (after_inuse next) (omega arith)

  take_partial :
      IsValid c h objs full (s ∷ partial) empty
      → Taken (take_object s c h) objs s o os full partial empty
  unfolding take_object Head
  take_partial v =
      let part = IsPartial c.objects_per_slab h.link in
      let hd = head_of v.partials.each.0.0 in
      let none_more : (((h.slab s).free + 2 ^ 32 - 1) % 2 ^ 32 == 0) ≡ true
          → (length os == 0) ≡ true =
        λ e. rw (left_lem v.bounded hd) at e in
      let some_more : (((h.slab s).free + 2 ^ 32 - 1) % 2 ^ 32 == 0) ≡ false
          → (length os == 0) ≡ false =
        λ e. rw (left_lem v.bounded hd) at e in
      let head : s == c.slabs_partial ≡ true = ground (arith, v.partials.chain.0) in
      let not_full : has s full ≡ false =
        not_has (λ a. IsFull c.objects_per_slab h.link a (h.slab a) (objs a)) s full v.fulls.each
          (λ p. absurd (omega (arith, p.1, hd.2))) in
      let not_empty : has s empty ≡ false =
        not_has (λ a. IsEmpty c.objects_per_slab h.link a (h.slab a) (objs a)) s empty
          v.empties.each (λ p. absurd (omega (arith, p.1, v.partials.each.0.2))) in
      let not_free : s == c.slabs_free ≡ false =
        not_head (λ a. (h.slab a).next) c.slabs_free s empty v.empties.chain v.partials.chain.1
          not_empty in
      let rest = Group-tail part h.slab objs c.slabs_partial s partial v.partials in
      elim (Bool-cases (((h.slab s).free + 2 ^ 32 - 1) % 2 ^ 32 == 0)) [
        | inl none_left ↦
            rw (none_left, head, none_more none_left)
              (
                hd.1,
                record {
                  some_objects = v.some_objects;
                  bounded = v.bounded;
                  fulls =
                      join (IsFull c.objects_per_slab h.link) c.slabs_full full not_full
                        v.partials.chain.1 v.fulls
                        (
                          after_ok c.slabs_full v.bounded hd,
                          after_free c.slabs_full ∙ (==_iff _ 0).0 none_left,
                        );
                  partials =
                      spare part c.slabs_full (h.slab s).next partial v.partials.distinct.0 rest;
                  empties =
                      spare (IsEmpty c.objects_per_slab h.link) c.slabs_full c.slabs_free empty
                        not_empty v.empties;
                },
              )
        | inr some_left ↦
            rw (some_left, not_free, some_more some_left)
              (
                hd.1,
                record {
                  some_objects = v.some_objects;
                  bounded = v.bounded;
                  fulls =
                      spare (IsFull c.objects_per_slab h.link) (h.slab s).next c.slabs_full full
                        not_full v.fulls;
                  partials = rw v.partials.chain.0 (
                      join part (h.slab s).next partial v.partials.distinct.0 v.partials.chain.1
                        rest
                        (
                          after_ok (h.slab s).next v.bounded hd,
                          some_free (h.slab s).next some_left,
                          some_inuse (h.slab s).next v.bounded hd.0.total hd.2,
                        ));
                  empties =
                      spare (IsEmpty c.objects_per_slab h.link) (h.slab s).next c.slabs_free empty
                        not_empty v.empties;
                },
              )
      ]

  take_empty :
      IsValid c h objs full [] (s ∷ empty) → Taken (take_object s c h) objs s o os full [] empty
  unfolding take_object Head
  take_empty v =
      let emp = IsEmpty c.objects_per_slab h.link in
      let hd = head_of v.empties.each.0.0 in
      let none_more : (((h.slab s).free + 2 ^ 32 - 1) % 2 ^ 32 == 0) ≡ true
          → (length os == 0) ≡ true =
        λ e. rw (left_lem v.bounded hd) at e in
      let some_more : (((h.slab s).free + 2 ^ 32 - 1) % 2 ^ 32 == 0) ≡ false
          → (length os == 0) ≡ false =
        λ e. rw (left_lem v.bounded hd) at e in
      let head : s == c.slabs_free ≡ true = ground (arith, v.empties.chain.0) in
      let not_full : has s full ≡ false =
        not_has (λ a. IsFull c.objects_per_slab h.link a (h.slab a) (objs a)) s full v.fulls.each
          (λ p. absurd (omega (arith, p.1, hd.2))) in
      let not_partial : s == c.slabs_partial ≡ false =
        not_head (λ a. (h.slab a).next) c.slabs_partial s [] v.partials.chain v.empties.chain.1
          refl in
      let rest = Group-tail emp h.slab objs c.slabs_free s empty v.empties in
      elim (Bool-cases (((h.slab s).free + 2 ^ 32 - 1) % 2 ^ 32 == 0)) [
        | inl none_left ↦
            rw (none_left, not_partial, none_more none_left)
              (
                hd.1,
                record {
                  some_objects = v.some_objects;
                  bounded = v.bounded;
                  fulls =
                      join (IsFull c.objects_per_slab h.link) c.slabs_full full not_full
                        v.empties.chain.1 v.fulls
                        (
                          after_ok c.slabs_full v.bounded hd,
                          after_free c.slabs_full ∙ (==_iff _ 0).0 none_left,
                        );
                  partials =
                      spare (IsPartial c.objects_per_slab h.link) c.slabs_full c.slabs_partial []
                        refl v.partials;
                  empties = spare emp c.slabs_full (h.slab s).next empty v.empties.distinct.0 rest;
                },
              )
        | inr some_left ↦
            rw (some_left, head, some_more some_left)
              (
                hd.1,
                record {
                  some_objects = v.some_objects;
                  bounded = v.bounded;
                  fulls =
                      spare (IsFull c.objects_per_slab h.link) c.slabs_partial c.slabs_full full
                        not_full v.fulls;
                  partials =
                      join (IsPartial c.objects_per_slab h.link) c.slabs_partial [] refl
                        v.empties.chain.1 v.partials
                        (
                          after_ok c.slabs_partial v.bounded hd,
                          some_free c.slabs_partial some_left,
                          some_inuse c.slabs_partial v.bounded hd.0.total hd.2,
                        );
                  empties =
                      spare emp c.slabs_partial (h.slab s).next empty v.empties.distinct.0 rest;
                },
              )
      ]

first_of : (xs : List ℕ) → 0 < length xs → (o : ℕ) × (os : List ℕ) × (xs ≡ o ∷ os)
first_of [] l = absurd (omega arith)
first_of (o ∷ os) l = (o, os, refl)

module _ {K : Type 0} (pages : Pages K) (self : ℕ) (k : K) (c : SlabCache) (h : Heap) (s : ℕ)
    (l : 0 < s) where
  alloc_partial : c.slabs_partial ≡ s → alloc pages self k c h ≡ (take_object s c h, k)
  unfolding alloc
  alloc_partial e =
      let not_null : c.slabs_partial == 0 ≡ false = ground (arith, e) in
      rw (not_null, not_null) (ap (λ (a : ℕ). (take_object a c h, k)) e)

  alloc_empty :
      c.slabs_partial ≡ 0 → c.slabs_free ≡ s → alloc pages self k c h ≡ (take_object s c h, k)
  unfolding alloc
  alloc_empty z e =
      let null : c.slabs_partial == 0 ≡ true = ground (arith, z) in
      let not_null : c.slabs_free == 0 ≡ false = ground (arith, e) in
      rw (null, not_null) (ap (λ (a : ℕ). (take_object a c h, k)) e)

-- The slab that `alloc` takes an object from, with the lists of partial and of empty slabs without it.
abbrev pub Chosen : ℕ → List ℕ → List ℕ → List ℕ → List ℕ → Type 0
Chosen s partial empty partial' empty' =
    ((partial ≡ s ∷ partial') × (empty ≡ empty'))
    ⊎ ((partial ≡ []) × (partial' ≡ []) × (empty ≡ s ∷ empty'))

-- With a slab that has a free object, `alloc` returns the first free object of the first partial
-- slab, or of the first empty slab when none is partial. The lists of the cache stay well formed, with
-- that object no longer free and all others as they were: the slab moves to the front of the full
-- slabs if this was its last free object, else it is the first of the partial slabs; every other slab
-- keeps its place. No page is asked for.
pub alloc_takes_free :
    {K : Type 0} (pages : Pages K) (self : ℕ) (k : K) (c : SlabCache) (h : Heap) (objs : ℕ → List ℕ)
    (full partial empty : List ℕ)
    → IsValid c h objs full partial empty
    → partial ++ empty ≢ []
    → ((alloc pages self k c h).1 ≡ k)
      × ((s : ℕ) × (o : ℕ) × (os : List ℕ) × (partial' : List ℕ) × (empty' : List ℕ) × Chosen s
            partial empty partial' empty'
          × (objs s ≡ o ∷ os)
          × Taken (alloc pages self k c h).0 objs s o os full partial' empty')
alloc_takes_free pages self k c h objs full [] [] v some_slab = absurd (some_slab refl)
alloc_takes_free pages self k c h objs full [] (s ∷ empty) v some_slab =
    let (ok, unused) = v.empties.each.0 in
    let (o, os, here) =
      first_of (objs s) (omega (arith, ok.count, ok.total, unused, v.some_objects)) in
    let r : Taken (take_object s c h) objs s o os full [] empty =
      take_empty c h objs s o os full [] empty here v in
    rw (alloc_empty pages self k c h s v.empties.chain.1 v.partials.chain v.empties.chain.0)
      (refl, (s, o, os, [], empty, inr (refl, refl, refl), here, r))
alloc_takes_free pages self k c h objs full (s ∷ partial) empty v some_slab =
    let (ok, some_free, used) = v.partials.each.0 in
    let (o, os, here) = first_of (objs s) (omega (arith, ok.count, some_free)) in
    let r : Taken (take_object s c h) objs s o os full partial empty =
      take_partial c h objs s o os full partial empty here v in
    rw (alloc_partial pages self k c h s v.partials.chain.1 v.partials.chain.0)
      (refl, (s, o, os, partial, empty, inl (refl, refl), here, r))
