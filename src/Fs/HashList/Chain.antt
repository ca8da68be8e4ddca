-- ===== src/Fs/HashList/Chain.antt =====
-- What the loops along one chain do.
use wandos.Base.{
  ℕ, ◌+◌, ◌≡◌, refl, none, some, List, [], ◌∷◌, map, arith, ◌==◌, if◌then◌else◌, length,
  Option-cases, Bool-cases, ◌%◌, ◌^◌, inl, inr,
}
use mathlib.Core.Path.{subst}
use mathlib.Core.Option
use wandos.Fs.HashList.{Page, Node, find_chain, overwrite, unlink, modify_chain, on_value}

-- No key twice in a chain.
abbrev pub DistinctKeys : List Node → Type 0
DistinctKeys [] = Unit
DistinctKeys (n ∷ ns) = (find_chain n.key ns ≡ none) × DistinctKeys ns

-- What a chain holds of key `k`: at most one page, and what `overwrite` makes of it.
pub overwrite-none :
    (k : ℕ) (v : Page) (ns : List Node) → overwrite k v ns ≡ none → find_chain k ns ≡ none
unfolding overwrite find_chain
overwrite-none k v [] h = refl
overwrite-none k v (n ∷ ns) h = ground (arith, overwrite-none k v ns)

pub find-overwrite :
    (k j : ℕ) (v : Page) (ns c : List Node)
    → overwrite k v ns ≡ some c
    → find_chain j c ≡ (if k == j then some v else find_chain j ns)
unfolding overwrite find_chain
find-overwrite k j v [] c h = cc
find-overwrite k j v (n ∷ ns) c h = elim (Option-cases (overwrite k v ns)) [
  | inl e ↦ ground arith
  | inr (c', e) ↦ ground (arith, find-overwrite k j v ns c' e)
]

pub overwrite-DistinctKeys :
    (k : ℕ) (v : Page) (ns c : List Node)
    → overwrite k v ns ≡ some c
    → DistinctKeys ns
    → DistinctKeys c × (length c ≡ length ns)
unfolding overwrite find_chain
overwrite-DistinctKeys k v [] c h d = cc
overwrite-DistinctKeys k v (n ∷ ns) c h d = elim (Option-cases (overwrite k v ns)) [
  | inl e ↦ ground arith
  | inr (c', e) ↦
      ground (arith, overwrite-DistinctKeys k v ns c' e d.1, find-overwrite k n.key v ns c' e)
]

pub unlink-none : (k : ℕ) (ns : List Node) → unlink k ns ≡ none → find_chain k ns ≡ none
unfolding unlink find_chain
unlink-none k [] h = refl
unlink-none k (n ∷ ns) h = ground (arith, unlink-none k ns)

-- With distinct keys the one node that goes was the only one with its key.
pub find-unlink :
    (k j : ℕ) (ns c : List Node)
    → unlink k ns ≡ some c
    → DistinctKeys ns
    → find_chain j c ≡ (if k == j then none else find_chain j ns)
unfolding unlink find_chain
find-unlink k j [] c h d = cc
find-unlink k j (n ∷ ns) c h d = elim (Option-cases (unlink k ns)) [
  | inl e ↦ ground arith
  | inr (c', e) ↦ ground (arith, find-unlink k j ns c' e d.1)
]

pub unlink-DistinctKeys :
    (k : ℕ) (ns c : List Node)
    → unlink k ns ≡ some c
    → DistinctKeys ns
    → DistinctKeys c × (length c + 1 ≡ length ns)
unfolding unlink find_chain
unlink-DistinctKeys k [] c h d = cc
unlink-DistinctKeys k (n ∷ ns) c h d = elim (Option-cases (unlink k ns)) [
  | inl e ↦ ground arith
  | inr (c', e) ↦ ground (arith, unlink-DistinctKeys k ns c' e d.1, find-unlink k n.key ns c' e d.1)
]

pub find-modify_chain :
    (k j : ℕ) (f : Page → Page) (ns : List Node)
    → find_chain j (modify_chain k f ns)
      ≡ (if k == j then Option.map f (find_chain k ns) else find_chain j ns)
unfolding modify_chain find_chain
find-modify_chain k j f [] = ground arith
find-modify_chain k j f (n ∷ ns) = ground (arith, find-modify_chain k j f ns)

pub modify_chain-DistinctKeys :
    (k : ℕ) (f : Page → Page) (ns : List Node)
    → DistinctKeys ns
    → DistinctKeys (modify_chain k f ns) × (length (modify_chain k f ns) ≡ length ns)
unfolding modify_chain find_chain
modify_chain-DistinctKeys k f [] d = (tt, refl)
modify_chain-DistinctKeys k f (n ∷ ns) d =
    ground (arith, modify_chain-DistinctKeys k f ns d.1, find-modify_chain k n.key f ns)

pub find-map-on_value :
    (j : ℕ) (f : Page → Page) (ns : List Node)
    → find_chain j (map (on_value f) ns) ≡ Option.map f (find_chain j ns)
unfolding find_chain
find-map-on_value j f [] = refl
find-map-on_value j f (n ∷ ns) = ground (arith, find-map-on_value j f ns)

pub map-DistinctKeys :
    (f : Page → Page) (ns : List Node) → DistinctKeys ns → DistinctKeys (map (on_value f) ns)
map-DistinctKeys f [] d = tt
map-DistinctKeys f (n ∷ ns) d =
    (ground (arith, find-map-on_value n.key f ns, d.0), map-DistinctKeys f ns d.1)

-- Every key of a chain has the hash `i` in a table of `buckets` buckets.
abbrev pub Placed : ℕ → ℕ → List Node → Type 0
Placed buckets i [] = Unit
Placed buckets i (n ∷ ns) = (n.key % 2 ^ 32 % buckets ≡ i) × Placed buckets i ns

pub overwrite-Placed :
    (buckets i k : ℕ) (v : Page) (ns c : List Node)
    → overwrite k v ns ≡ some c
    → Placed buckets i ns
    → Placed buckets i c
unfolding overwrite
overwrite-Placed buckets i k v [] c h p = cc
overwrite-Placed buckets i k v (n ∷ ns) c h (q, p) = elim (Bool-cases (n.key == k)) [
  | inl t ↦
      let same : record n { value = v } ∷ ns ≡ c = ground (arith, t, h) in
      subst (Placed buckets i) same (q, p)
  | inr t ↦ elim (Option-cases (overwrite k v ns)) [
    | inl e ↦ ground (arith, t, e, h)
    | inr (c', e) ↦
        let same : n ∷ c' ≡ c = ground (arith, t, e, h) in
        subst (Placed buckets i) same (q, overwrite-Placed buckets i k v ns c' e p)
  ]
]

pub unlink-Placed :
    (buckets i k : ℕ) (ns c : List Node)
    → unlink k ns ≡ some c
    → Placed buckets i ns
    → Placed buckets i c
unfolding unlink
unlink-Placed buckets i k [] c h p = cc
unlink-Placed buckets i k (n ∷ ns) c h (q, p) = elim (Bool-cases (n.key == k)) [
  | inl t ↦ let same : ns ≡ c = ground (arith, t, h) in subst (Placed buckets i) same p
  | inr t ↦ elim (Option-cases (unlink k ns)) [
    | inl e ↦ ground (arith, t, e, h)
    | inr (c', e) ↦
        let same : n ∷ c' ≡ c = ground (arith, t, e, h) in
        subst (Placed buckets i) same (q, unlink-Placed buckets i k ns c' e p)
  ]
]

pub modify_chain-Placed :
    (buckets i k : ℕ) (f : Page → Page) (ns : List Node)
    → Placed buckets i ns
    → Placed buckets i (modify_chain k f ns)
unfolding modify_chain
modify_chain-Placed buckets i k f [] p = tt
modify_chain-Placed buckets i k f (n ∷ ns) (q, p) = elim (Bool-cases (n.key == k)) [
  | inl t ↦ rw t (q, p)
  | inr t ↦ rw t (q, modify_chain-Placed buckets i k f ns p)
]

pub map-Placed :
    (buckets i : ℕ) (f : Page → Page) (ns : List Node)
    → Placed buckets i ns
    → Placed buckets i (map (on_value f) ns)
map-Placed buckets i f [] p = tt
map-Placed buckets i f (n ∷ ns) (q, p) = (q, map-Placed buckets i f ns p)
