-- ===== src/Fs/HashList/Inv.antt =====
-- The invariant of class HashList of kernel/fs/SimplePageCache.cpp, and that every operation keeps
-- it.
use wandos.Base.{
  ℕ, zero, suc, ◌+◌, ◌-◌, ◌%◌, ◌^◌, ◌<◌, ◌≡◌, refl, ◌∙◌, List, [], ◌∷◌, map, arith, length, get_or,
  set, length-set, All, All-get_or, All-set, Option-cases, inl, inr, replicate, length-replicate,
  length-map, sym, ◌==◌, ==_iff, Bool-cases, get_or-replicate, get_or-set_self, get_or-set_ne,
  get_or-map,
}
use mathlib.Core.Path.{subst}
use wandos.Fs.HashList.{
  Page, Node, HashList, init, hash, chain, overwrite, insert, unlink, erase, clear, on_value,
  for_each, modify_chain, modify,
}
use wandos.Fs.HashList.Chain.{
  DistinctKeys, overwrite-none, overwrite-DistinctKeys, unlink-DistinctKeys,
  modify_chain-DistinctKeys, map-DistinctKeys, Placed, overwrite-Placed, unlink-Placed,
  modify_chain-Placed, map-Placed,
}

-- The number of nodes in all chains.
abbrev pub total : List (List Node) → ℕ
total [] = 0
total (c ∷ cs) = length c + total cs

-- There is a bucket, as many as `bucket_count`, each key stands in the chain of its hash, no chain has
-- a key twice, so that no key stands twice in the table, and `size` counts the nodes as far as a 32-bit
-- number can.
pub record IsValid (h : HashList) : Type 0 where
  pub some_bucket : 0 < h.bucket_count
  pub shape : length h.buckets ≡ h.bucket_count
  pub distinct : All DistinctKeys h.buckets
  pub placed : (i : ℕ) → Placed h.bucket_count i (get_or h.buckets i [])
  pub counted : h.size ≡ total h.buckets % 2 ^ 32

pub hash_in : (h : HashList) (k : ℕ) → IsValid h → hash h k < length h.buckets
unfolding hash
hash_in h k v = omega arith

total-set :
    (cs : List (List Node)) (i : ℕ) (c : List Node)
    → i < length cs
    → total (set cs i c) + length (get_or cs i []) ≡ total cs + length c
total-set [] i c h = absurd (omega arith)
total-set (d ∷ cs) zero c h = omega arith
total-set (d ∷ cs) (suc i) c h = omega (arith, total-set cs i c (omega arith))

pub chain-distinct : (h : HashList) (k : ℕ) → IsValid h → DistinctKeys (chain h k)
chain-distinct h k v = All-get_or DistinctKeys h.buckets (hash h k) [] v.distinct tt

All-replicate : (n : ℕ) → All DistinctKeys (replicate n [])
All-replicate zero = tt
All-replicate (suc n) = (tt, All-replicate n)

total-replicate : (n : ℕ) → total (replicate n []) ≡ 0
total-replicate zero = refl
total-replicate (suc n) = omega (arith, total-replicate n)

pub init-IsValid : (n : ℕ) → 0 < n → IsValid (init n)
unfolding init
init-IsValid n h = record {
  some_bucket = h;
  shape = length-replicate n [];
  distinct = All-replicate n;
  placed = λ i. subst (Placed n i) (sym (get_or-replicate n i [])) tt;
  counted = omega (arith, total-replicate n);
}

-- Replacing one chain by another with distinct keys, with `size` adjusted to it.
replaced-IsValid :
    (h : HashList) (k : ℕ) (c : List Node) (s : ℕ)
    → IsValid h
    → DistinctKeys c
    → Placed h.bucket_count (hash h k) c
    → (s + length (chain h k)) % 2 ^ 32 ≡ (h.size + length c) % 2 ^ 32
    → s < 2 ^ 32
    → IsValid (record h { buckets = set h.buckets (hash h k) c; size = s })
replaced-IsValid h k c s v d q e b = record {
  some_bucket = v.some_bucket;
  shape = length-set h.buckets (hash h k) c ∙ v.shape;
  distinct = All-set DistinctKeys h.buckets (hash h k) c v.distinct d;
  placed = λ i. elim (Bool-cases (hash h k == i)) [
    | inl t ↦
        let same : hash h k ≡ i = (==_iff (hash h k) i).0 t in
        subst (λ j. Placed h.bucket_count j (get_or (set h.buckets (hash h k) c) j [])) same
          (subst (Placed h.bucket_count (hash h k))
            (sym (get_or-set_self h.buckets (hash h k) c [] (hash_in h k v))) q)
    | inr t ↦
        subst (Placed h.bucket_count i)
          (sym (get_or-set_ne h.buckets (hash h k) i c [] (λ e. ground (arith, e, t)))) (v.placed i)
  ];
  counted = omega (arith, total-set h.buckets (hash h k) c (hash_in h k v), v.counted);
}

pub insert-IsValid : (h : HashList) (k : ℕ) (p : Page) → IsValid h → IsValid (insert h k p)
unfolding insert
insert-IsValid h k p v = elim (Option-cases (overwrite k p (chain h k))) [
  | inl e ↦
      rw (e, insert)
        (replaced-IsValid h k (record { key = k; value = p } ∷ chain h k) ((h.size + 1) % 2 ^ 32) v
          (overwrite-none k p (chain h k) e, chain-distinct h k v)
          (unfold hash in refl, v.placed (hash h k)) (omega arith) (omega arith))
  | inr (c, e) ↦
      let kept = overwrite-DistinctKeys k p (chain h k) c e (chain-distinct h k v) in
      rw (e, insert)
        (replaced-IsValid h k c h.size v kept.0
          (overwrite-Placed h.bucket_count (hash h k) k p (chain h k) c e (v.placed (hash h k)))
          (omega (arith, kept.1)) (omega (arith, v.counted)))
]

pub erase-IsValid : (h : HashList) (k : ℕ) → IsValid h → IsValid (erase h k).1
unfolding erase
erase-IsValid h k v = elim (Option-cases (unlink k (chain h k))) [
  | inl e ↦ rw (e, erase) v
  | inr (c, e) ↦
      let kept = unlink-DistinctKeys k (chain h k) c e (chain-distinct h k v) in
      rw (e, erase)
        (replaced-IsValid h k c ((h.size + 2 ^ 32 - 1) % 2 ^ 32) v kept.0
          (unlink-Placed h.bucket_count (hash h k) k (chain h k) c e (v.placed (hash h k)))
          (omega (arith, kept.1)) (omega arith))
]

pub modify-IsValid : (h : HashList) (k : ℕ) (f : Page → Page) → IsValid h → IsValid (modify h k f)
unfolding modify
modify-IsValid h k f v =
    let kept = modify_chain-DistinctKeys k f (chain h k) (chain-distinct h k v) in
    replaced-IsValid h k (modify_chain k f (chain h k)) h.size v kept.0
      (modify_chain-Placed h.bucket_count (hash h k) k f (chain h k) (v.placed (hash h k)))
      (omega (arith, kept.1)) (omega (arith, v.counted))

for_each-distinct :
    (f : Page → Page) (cs : List (List Node))
    → All DistinctKeys cs
    → All DistinctKeys (map (map (on_value f)) cs) × (total (map (map (on_value f)) cs) ≡ total cs)
for_each-distinct f [] d = (tt, refl)
for_each-distinct f (c ∷ cs) d =
    let rest = for_each-distinct f cs d.1 in
    ((map-DistinctKeys f c d.0, rest.0), omega (arith, rest.1, length-map c (on_value f)))

pub for_each-IsValid : (f : Page → Page) (h : HashList) → IsValid h → IsValid (for_each f h)
unfolding for_each
for_each-IsValid f h v =
    let kept = for_each-distinct f h.buckets v.distinct in
    record {
      some_bucket = v.some_bucket;
      shape = length-map h.buckets (map (on_value f)) ∙ v.shape;
      distinct = kept.0;
      placed = λ i.
          subst (Placed h.bucket_count i) (sym (get_or-map (map (on_value f)) h.buckets i []))
            (map-Placed h.bucket_count i f (get_or h.buckets i []) (v.placed i));
      counted = omega (arith, kept.1, v.counted);
    }

cleared :
    (cs : List (List Node))
    → All DistinctKeys (map {B = List Node} (λ _. []) cs)
      × (total (map {B = List Node} (λ _. []) cs) ≡ 0)
cleared [] = (tt, refl)
cleared (c ∷ cs) = let rest = cleared cs in ((tt, rest.0), omega (arith, rest.1))

pub clear-IsValid : (h : HashList) → IsValid h → IsValid (clear h)
unfolding clear
clear-IsValid h v =
    let kept = cleared h.buckets in
    record {
      some_bucket = v.some_bucket;
      shape = length-map h.buckets (λ _. []) ∙ v.shape;
      distinct = kept.0;
      placed = λ i.
          subst (Placed h.bucket_count i)
            (sym (get_or-map {B = List Node} (λ _. []) h.buckets i [])) tt;
      counted = omega (arith, kept.1);
    }
