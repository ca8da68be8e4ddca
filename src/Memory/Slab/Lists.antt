-- ===== src/Memory/Slab/Lists.antt =====
-- The three lists of slabs of a cache (kernel/memory/slab_allocator.cpp): what it is for them to be
-- well formed, and how a list changes.
use wandos.Base.{
  ℕ, ◌^◌, ◌<◌, ◌≡◌, refl, ap, ◌≢◌, true, false, inl, inr, Bool-cases, List, [], ◌∷◌, arith, ◌==◌,
  All,
}
use wandos.Base.Chain.{update, has, Chain, Chain-frame, Distinct}
use wandos.Memory.Slab.{Slab, Heap, SlabCache}
use wandos.Memory.Slab.Objects.{SlabOk}

-- A list of distinct slabs from `head`; `P` holds of each, its descriptor and its free objects.
pub record Group (P : ℕ → Slab → List ℕ → Type 0) (st : ℕ → Slab) (objs : ℕ → List ℕ) (head : ℕ)
    (xs : List ℕ) : Type 0 where
  pub chain : Chain (λ s. (st s).next) head xs
  pub distinct : Distinct xs
  pub each : All (λ s. P s (st s) (objs s)) xs

abbrev pub IsFull : ℕ → (ℕ → ℕ) → ℕ → Slab → List ℕ → Type 0
IsFull ops link s slab xs = SlabOk ops link s slab xs × (slab.free ≡ 0)

abbrev pub IsPartial : ℕ → (ℕ → ℕ) → ℕ → Slab → List ℕ → Type 0
IsPartial ops link s slab xs = SlabOk ops link s slab xs × (0 < slab.free) × (0 < slab.inuse)

abbrev pub IsEmpty : ℕ → (ℕ → ℕ) → ℕ → Slab → List ℕ → Type 0
IsEmpty ops link s slab xs = SlabOk ops link s slab xs × (slab.inuse ≡ 0)

-- The slabs of a cache stand in the list for their number of free objects; `objs` gives the free
-- objects of each.
pub record IsValid (c : SlabCache) (h : Heap) (objs : ℕ → List ℕ) (full partial empty : List ℕ)
    : Type 0 where
  pub some_objects : 0 < c.objects_per_slab
  pub bounded : c.objects_per_slab < 2 ^ 32
  pub fulls : Group (IsFull c.objects_per_slab h.link) h.slab objs c.slabs_full full
  pub partials : Group (IsPartial c.objects_per_slab h.link) h.slab objs c.slabs_partial partial
  pub empties : Group (IsEmpty c.objects_per_slab h.link) h.slab objs c.slabs_free empty

pub All-has : (P : ℕ → Type 0) (a : ℕ) (xs : List ℕ) → All P xs → has a xs ≡ true → P a
All-has P a [] h m = absurd (cc (m))
All-has P a (x ∷ xs) (p, h) m = elim (Bool-cases (a == x)) [
  | inl e ↦ let same : a ≡ x = ground arith in rw same p
  | inr e ↦ All-has P a xs h (ground (arith, m, e))
]

-- What no member can be is in no list.
pub not_has : (P : ℕ → Type 0) (a : ℕ) (xs : List ℕ) → All P xs → (P a → ⊥) → has a xs ≡ false
not_has P a xs h n = elim (Bool-cases (has a xs)) [
  | inl m ↦ absurd (n (All-has P a xs h m))
  | inr m ↦ m
]

pub All-change :
    (P Q : ℕ → Type 0) (xs : List ℕ) → ((a : ℕ) → has a xs ≡ true → P a → Q a) → All P xs → All Q xs
All-change P Q [] f h = tt
All-change P Q (x ∷ xs) f (p, h) =
    (f x (ground arith) p, All-change P Q xs (λ a m. f a (ground (arith, m))) h)

-- A list that a change spares.
pub Group-frame :
    (P Q : ℕ → Slab → List ℕ → Type 0) (st st' : ℕ → Slab) (objs objs' : ℕ → List ℕ) (head : ℕ)
    (xs : List ℕ)
    → ((a : ℕ) → has a xs ≡ true → (st' a ≡ st a) × (objs' a ≡ objs a))
    → ((a : ℕ) (v : Slab) (os : List ℕ) → has a xs ≡ true → P a v os → Q a v os)
    → Group P st objs head xs
    → Group Q st' objs' head xs
Group-frame P Q st st' objs objs' head xs same keep g = record {
  chain =
      Chain-frame (λ s. (st s).next) (λ s. (st' s).next) head xs
        (λ a m. ap (λ (r : Slab). r.next) (same a m).0) g.chain;
  distinct = g.distinct;
  each =
      All-change (λ s. P s (st s) (objs s)) (λ s. Q s (st' s) (objs' s)) xs
        (λ a m p. rw ((same a m).0, (same a m).1) (keep a (st a) (objs a) m p)) g.each;
}

pub Group-cons :
    (P : ℕ → Slab → List ℕ → Type 0) (st : ℕ → Slab) (objs : ℕ → List ℕ) (head s : ℕ) (xs : List ℕ)
    → Group P st objs head xs
    → (st s).next ≡ head
    → 0 < s
    → has s xs ≡ false
    → P s (st s) (objs s)
    → Group P st objs s (s ∷ xs)
Group-cons P st objs head s xs g e l n p = record {
  chain = (refl, l, rw e g.chain);
  distinct = (n, g.distinct);
  each = (p, g.each);
}

pub Group-tail :
    (P : ℕ → Slab → List ℕ → Type 0) (st : ℕ → Slab) (objs : ℕ → List ℕ) (head s : ℕ) (xs : List ℕ)
    → Group P st objs head (s ∷ xs)
    → Group P st objs (st s).next xs
Group-tail P st objs head s xs g = record {
  chain = g.chain.2;
  distinct = g.distinct.1;
  each = g.each.1;
}

-- Another address than one that is not in the list.
pub spared : (s a : ℕ) (xs : List ℕ) → has s xs ≡ false → has a xs ≡ true → s ≢ a
spared s a xs n m e = ground (arith, n, m, e)

pub update_ne {ℓ} : {A : Type ℓ} (f : ℕ → A) (p : ℕ) (v : A) (q : ℕ) → p ≢ q → update f p v q ≡ f q
update_ne f p v q n = ground (arith, n)

pub update_self {ℓ} : {A : Type ℓ} (f : ℕ → A) (p : ℕ) (v : A) → update f p v p ≡ v
update_self f p v = ground arith

-- A write at a slab that is not in the list.
pub Group-spared :
    (P : ℕ → Slab → List ℕ → Type 0) (st : ℕ → Slab) (objs : ℕ → List ℕ) (head s : ℕ) (v : Slab)
    (os xs : List ℕ)
    → has s xs ≡ false
    → Group P st objs head xs
    → Group P (update st s v) (update objs s os) head xs
Group-spared P st objs head s v os xs n g =
    Group-frame P P st (update st s v) objs (update objs s os) head xs
      (λ a m. (update_ne st s v a (spared s a xs n m), update_ne objs s os a (spared s a xs n m)))
      (λ a w ys m p. p) g

-- An address outside a list is not its head.
pub not_head :
    (next : ℕ → ℕ) (head s : ℕ) (xs : List ℕ)
    → Chain next head xs
    → 0 < s
    → has s xs ≡ false
    → s == head ≡ false
not_head next head s [] c l n = ground (arith, c)
not_head next head s (x ∷ xs) c l n = ground (arith, c.0, n)
