-- ===== src/Fs/HashList/Laws.antt =====
-- What `find` of class HashList of kernel/fs/SimplePageCache.cpp returns after each operation.
use wandos.Base.{
  ℕ, ◌≡◌, refl, sym, ap, ◌∙◌, true, Option, none, some, List, [], ◌∷◌, map, arith, ◌==◌,
  if◌then◌else◌, set, get_or-set_self, get_or-set_ne, Bool-cases, Option-cases, inl, inr, is_some,
  get_or-map, get_or-replicate,
}
use mathlib.Core.Option
use wandos.Fs.HashList.{
  Page, Node, HashList, init, hash, find_chain, chain, find, overwrite, insert, unlink, erase,
  clear, on_value, for_each, modify_chain, modify,
}
use wandos.Fs.HashList.Chain.{
  find-overwrite, find-unlink, unlink-none, find-modify_chain, find-map-on_value,
}
use wandos.Fs.HashList.Inv.{IsValid, hash_in, chain-distinct}

-- `find` in a table of which one chain was replaced.
find-set :
    (h : HashList) (k j : ℕ) (c : List Node) (s : ℕ)
    → IsValid h
    → find (record h { buckets = set h.buckets (hash h k) c; size = s }) j
      ≡ find_chain j (if hash h k == hash h j then c else chain h j)
unfolding find hash
find-set h k j c s v = elim (Bool-cases (hash h k == hash h j)) [
  | inl e ↦ ground (arith, get_or-set_self h.buckets (hash h j) c [] (hash_in h j v))
  | inr e ↦ ground (arith, get_or-set_ne h.buckets (hash h k) (hash h j) c [])
]

-- A new chain that answers `r` at `k`, and as before at other keys, makes the table do so.
find-replaced :
    (h : HashList) (k j : ℕ) (c : List Node) (s : ℕ) (r : Option Page)
    → IsValid h
    → find_chain j c ≡ (if k == j then r else find_chain j (chain h k))
    → find (record h { buckets = set h.buckets (hash h k) c; size = s }) j
      ≡ (if k == j then r else find h j)
unfolding find
find-replaced h k j c s r v q = find-set h k j c s v ∙ ground (arith, q)

-- `insert` makes `find` return the new page at its key, and changes no other.
pub find-insert :
    (h : HashList) (k j : ℕ) (p : Page)
    → IsValid h
    → find (insert h k p) j ≡ (if k == j then some p else find h j)
unfolding insert
find-insert h k j p v = elim (Option-cases (overwrite k p (chain h k))) [
  | inl e ↦
      rw (e, insert)
        (find-replaced h k j (record { key = k; value = p } ∷ chain h k) _ (some p) v
          (unfold find_chain in refl))
  | inr (c, e) ↦
      rw (e, insert)
        (find-replaced h k j c h.size (some p) v (find-overwrite k j p (chain h k) c e))
]

-- `erase` makes `find` fail at its key, and changes no other.
pub find-erase :
    (h : HashList) (k j : ℕ)
    → IsValid h
    → find (erase h k).1 j ≡ (if k == j then none else find h j)
unfolding erase
find-erase h k j v = elim (Option-cases (unlink k (chain h k))) [
  | inl e ↦ rw (e, erase) (ground (arith, absent))
  | inr (c, e) ↦
      rw (e, erase)
        (find-replaced h k j c _ none v (find-unlink k j (chain h k) c e (chain-distinct h k v)))
]
  where
    absent : unlink k (chain h k) ≡ none → find h k ≡ none
    absent = unfold find in unlink-none k (chain h k)

-- A write through the pointer that `find` returns is seen by `find`, at that key only.
pub find-modify :
    (h : HashList) (k j : ℕ) (f : Page → Page)
    → IsValid h
    → find (modify h k f) j ≡ (if k == j then Option.map f (find h k) else find h j)
unfolding modify find
find-modify h k j f v =
    find-replaced h k j (modify_chain k f (chain h k)) h.size
      (Option.map f (find_chain k (chain h k))) v (find-modify_chain k j f (chain h k))

unlink-some : (k : ℕ) (ns c : List Node) → unlink k ns ≡ some c → is_some (find_chain k ns) ≡ true
unfolding unlink find_chain
unlink-some k [] c h = cc
unlink-some k (n ∷ ns) c h = elim (Option-cases (unlink k ns)) [
  | inl e ↦ ground arith
  | inr (c', e) ↦ ground (arith, unlink-some k ns c' e)
]

-- `erase` returns whether the key was there.
pub erase-find : (h : HashList) (k : ℕ) → (erase h k).0 ≡ is_some (find h k)
unfolding erase find
erase-find h k = elim (Option-cases (unlink k (chain h k))) [
  | inl e ↦ rw (e, erase) (ground (arith, unlink-none k (chain h k) e))
  | inr (c, e) ↦ rw (e, erase) (sym (unlink-some k (chain h k) c e))
]

-- After `clear` no key is found.
pub find-clear : (h : HashList) (j : ℕ) → find (clear h) j ≡ none
unfolding clear find find_chain hash
find-clear h j = ap (find_chain j) (get_or-map (λ _. []) h.buckets (hash h j) [])

-- `for_each` changes every page that is found.
pub find-for_each :
    (f : Page → Page) (h : HashList) (j : ℕ) → find (for_each f h) j ≡ Option.map f (find h j)
unfolding for_each find hash
find-for_each f h j =
    ap (find_chain j) (get_or-map (map (on_value f)) h.buckets (hash h j) [])
    ∙ find-map-on_value j f (chain h j)

-- A new table holds no key.
pub find-init : (n j : ℕ) → find (init n) j ≡ none
unfolding init find find_chain
find-init n j = ap (find_chain j) (get_or-replicate n (hash (init n) j) [])
