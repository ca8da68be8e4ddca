-- ===== src/Fs/HashList.antt =====
-- kernel/fs/SimplePageCache.cpp, class HashList, and the types of include/kernel/fs/PageCache.h.
-- A bucket's chain of nodes is a list, and the array of buckets a list of chains. A write through
-- the pointer that `find` returns is `modify`. `size_t` is 32 bits wide, a block number 64.
use wandos.Base.{
  ℕ, zero, suc, ◌+◌, ◌-◌, ◌%◌, ◌^◌, Bool, true, false, Option, none, some, List, [], ◌∷◌, map, ◌==◌,
  if◌then◌else◌, get_or, set, replicate,
}
use mathlib.Core.Option
pub mod Chain
pub mod Inv
pub mod Laws

-- `struct Page`; `data` is the page's buffer.
pub record Page : Type 0 where
  pub bytes : List ℕ
  pub size : ℕ
  pub dirty : Bool

-- `struct HashListNode`; the key is the `block_id` of its `PageKey`.
pub record Node : Type 0 where
  pub key : ℕ
  pub value : Page

pub record HashList : Type 0 where
  pub bucket_count : ℕ
  pub size : ℕ
  pub buckets : List (List Node)

pub init : ℕ → HashList
init n = record { bucket_count = n; size = 0; buckets = replicate n [] }

-- `(size_t)(key.block_id) % bucket_count_`
pub hash : HashList → ℕ → ℕ
hash h k = k % 2 ^ 32 % h.bucket_count

-- The loop of `find` along a chain.
pub find_chain : ℕ → List Node → Option Page
find_chain k [] = none
find_chain k (n ∷ ns) = if n.key == k then some n.value else find_chain k ns

abbrev pub chain : HashList → ℕ → List Node
chain h k = get_or h.buckets (hash h k) []

pub find : HashList → ℕ → Option Page
unfolding find_chain
find h k = find_chain k (chain h k)

-- The loop of `insert`: overwrite the node with this key, if there is one.
pub overwrite : ℕ → Page → List Node → Option (List Node)
overwrite k v [] = none
overwrite k v (n ∷ ns) =
    if n.key == k
    then some (record n { value = v } ∷ ns)
    else Option.map (λ (r : List Node). n ∷ r) (overwrite k v ns)

pub insert : HashList → ℕ → Page → HashList
unfolding overwrite
insert h k v = elim (overwrite k v (chain h k)) [
  | some c ↦ record h { buckets = set h.buckets (hash h k) c }
  | none ↦ record h {
    buckets = set h.buckets (hash h k) (record { key = k; value = v } ∷ chain h k);
    size = (h.size + 1) % 2 ^ 32;
  }
]

-- The loop of `erase`: unlink the first node with this key.
pub unlink : ℕ → List Node → Option (List Node)
unlink k [] = none
unlink k (n ∷ ns) =
    if n.key == k then some ns else Option.map (λ (r : List Node). n ∷ r) (unlink k ns)

-- `--size_` on a `size_t`.
pub erase : HashList → ℕ → Bool × HashList
unfolding unlink
erase h k = elim (unlink k (chain h k)) [
  | some c ↦ (
    true,
    record h { buckets = set h.buckets (hash h k) c; size = (h.size + 2 ^ 32 - 1) % 2 ^ 32 },
  )
  | none ↦ (false, h)
]

pub clear : HashList → HashList
clear h = record h { buckets = map (λ _. []) h.buckets; size = 0 }

abbrev pub on_value : (Page → Page) → Node → Node
on_value f n = record n { value = f n.value }

-- `for_each`, with a function that changes the page it is given.
pub for_each : (Page → Page) → HashList → HashList
for_each f h = record h { buckets = map (map (on_value f)) h.buckets }

pub modify_chain : ℕ → (Page → Page) → List Node → List Node
modify_chain k f [] = []
modify_chain k f (n ∷ ns) = if n.key == k then on_value f n ∷ ns else n ∷ modify_chain k f ns

pub modify : HashList → ℕ → (Page → Page) → HashList
unfolding modify_chain
modify h k f = record h { buckets = set h.buckets (hash h k) (modify_chain k f (chain h k)) }
