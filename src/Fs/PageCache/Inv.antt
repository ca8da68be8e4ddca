-- ===== src/Fs/PageCache/Inv.antt =====
-- The invariant of SimplePageCache (kernel/fs/SimplePageCache.cpp), that every method keeps it, and
-- what the methods without data do: mark_dirty, flush, flush_all, invalidate, clear, set_max_pages.
use wandos.Base.{
  ℕ, ◌%◌, ◌^◌, [], ◌∷◌, All, ◌-◌, min, ◌≡◌, refl, true, false, some, List, arith, length,
  Option-cases, none, Bool-cases, ltb, inl, inr,
}
use wandos.Text.Memory.Laws.{length_written}
use wandos.Fs.HashList
use wandos.Fs.HashList.{Page, HashList}
use wandos.Fs.HashList.Inv as TableInv
use wandos.Fs.HashList.Laws as TableLaws
use wandos.Fs.PageCache.{
  PageCache, init, get_page, flushed, flush_all, invalidate, clear, write_page, written, mark_dirty,
  with_dirty, flush, set_max_pages, shrink,
}
use wandos.Fs.PageCache.Laws.{IsValid}

pub init-IsValid : (page_size max_pages : ℕ) → IsValid (init page_size max_pages)
unfolding init
init-IsValid page_size max_pages = record {
  table = TableInv.init-IsValid 256 (omega arith);
  full = λ k p e. cc (TableLaws.find-init 256 k);
}

-- Replacing one page by one as long keeps the cache valid.
modified-IsValid :
    (c : PageCache) (k : ℕ) (f : Page → Page)
    → ((p : Page) → length (f p).bytes ≡ length p.bytes)
    → IsValid c
    → IsValid (record c { cache = HashList.modify c.cache k f })
modified-IsValid c k f same v = record {
  table = TableInv.modify-IsValid c.cache k f v.table;
  full = full';
}
  where
    full' :
        (j : ℕ) (p : Page)
        → HashList.find (HashList.modify c.cache k f) j ≡ some p
        → length p.bytes ≡ c.page_size
    full' j p e = elim (Option-cases (HashList.find c.cache k)) [
      | inl a ↦ ground (arith, v.full j p, TableLaws.find-modify c.cache k j f v.table)
      | inr (q, a) ↦
          ground
            (arith, v.full j p, v.full k q a, same q, TableLaws.find-modify c.cache k j f v.table)
    ]

pub write_page-IsValid :
    (c : PageCache) (k offset size : ℕ) (buf : List ℕ)
    → IsValid c
    → IsValid (write_page c k offset buf size).1
unfolding write_page
write_page-IsValid c k offset size buf v = ground (
  arith,
  modified-IsValid c k (written offset buf (min size (c.page_size - offset)))
      (λ p. length_written p.bytes buf offset (min size (c.page_size - offset))) v,
)

pub mark_dirty-IsValid : (c : PageCache) (k : ℕ) → IsValid c → IsValid (mark_dirty c k)
unfolding mark_dirty
mark_dirty-IsValid c k v = ground (arith, modified-IsValid c k (with_dirty true) (λ p. refl) v)

pub flush-IsValid : (c : PageCache) (k : ℕ) → IsValid c → IsValid (flush c k).1
unfolding flush
flush-IsValid c k v = ground (arith, modified-IsValid c k (with_dirty false) (λ p. refl) v)

-- The device fills the whole buffer: `read_block` does not change its length.
abbrev pub KeepsLength : (ℕ → List ℕ → List ℕ) → Type 0
KeepsLength read = (b : ℕ) (raw : List ℕ) → length (read b raw) ≡ length raw

pub get_page-IsValid :
    (read : ℕ → List ℕ → List ℕ) (c : PageCache) (k : ℕ) (raw : List ℕ)
    → KeepsLength read
    → length raw ≡ c.page_size
    → IsValid c
    → IsValid (get_page read c k raw).1
unfolding get_page
get_page-IsValid read c k raw keeps r v = elim (Option-cases (HashList.find c.cache k)) [
  | inr (p, e) ↦ rw (e, get_page) v
  | inl e ↦
      rw (e, get_page)
        (record {
          table = TableInv.insert-IsValid c.cache k page v.table;
          full = λ j p h. ground (
            arith,
            TableLaws.find-insert c.cache k j page v.table,
            v.full j p,
            keeps (k % 2 ^ 32) raw,
          );
        })
]
  where
    page : Page
    page = record { bytes = read (k % 2 ^ 32) raw; size = c.page_size; dirty = false }

pub flush_all-IsValid : (c : PageCache) → IsValid c → IsValid (flush_all c)
unfolding flush_all
flush_all-IsValid c v = record {
  table = TableInv.for_each-IsValid flushed c.cache v.table;
  full = λ k p h. elim (Option-cases (HashList.find c.cache k)) [
    | inl e ↦ ground (arith, TableLaws.find-for_each flushed c.cache k)
    | inr (q, e) ↦ ground (arith, TableLaws.find-for_each flushed c.cache k, v.full k q e)
  ];
}

pub invalidate-IsValid : (c : PageCache) (k : ℕ) → IsValid c → IsValid (invalidate c k)
unfolding invalidate
invalidate-IsValid c k v = elim (Option-cases (HashList.find c.cache k)) [
  | inl e ↦ rw (e, invalidate) v
  | inr (p, e) ↦
      rw (e, invalidate)
        (record {
          table = TableInv.erase-IsValid c.cache k v.table;
          full = λ j q h. ground (arith, TableLaws.find-erase c.cache k j v.table, v.full j q);
        })
]

pub clear-IsValid : (c : PageCache) → IsValid c → IsValid (clear c)
unfolding clear
clear-IsValid c v = record {
  table = TableInv.clear-IsValid c.cache v.table;
  full = λ k p e. cc (TableLaws.find-clear c.cache k);
}

-- The calls of the class that change the cache, with their arguments.
pub data Call : Type 0 where
  get : ℕ → List ℕ → Call
  write : ℕ → ℕ → List ℕ → ℕ → Call
  mark : ℕ → Call
  flush_one : ℕ → Call
  flush_every : Call
  drop_one : ℕ → Call
  drop_all : Call
  set_max : ℕ → Call

-- A call of `set_max_pages` returns in its first round or never; one that never returns is passed over.
pub step : (ℕ → List ℕ → List ℕ) → PageCache → Call → PageCache
step read c (get k raw) = (get_page read c k raw).1
step read c (write k offset buf size) = (write_page c k offset buf size).1
step read c (mark k) = mark_dirty c k
step read c (flush_one k) = (flush c k).1
step read c flush_every = flush_all c
step read c (drop_one k) = invalidate c k
step read c drop_all = clear c
step read c (set_max n) = elim (set_max_pages 1 c n) [ none ↦ c | some c' ↦ c' ]

pub run : (ℕ → List ℕ → List ℕ) → PageCache → List Call → PageCache
run read c [] = c
run read c (x ∷ xs) = run read (step read c x) xs

-- A new page's buffer has `page_size` bytes.
abbrev pub Allocates : ℕ → Call → Type 0
Allocates n (get k raw) = length raw ≡ n
Allocates n _ = Unit {0}

set_max_pages-larger :
    (c : PageCache) (n : ℕ) → ltb n c.cache.size ≡ true → set_max_pages 1 c n ≡ none
unfolding set_max_pages shrink
set_max_pages-larger c n e = rw e refl

set_max_pages-enough :
    (c : PageCache) (n : ℕ)
    → ltb n c.cache.size ≡ false
    → set_max_pages 1 c n ≡ some (record c { max_pages = n })
unfolding set_max_pages shrink
set_max_pages-enough c n e = rw e refl

step-IsValid :
    (read : ℕ → List ℕ → List ℕ) (c : PageCache) (x : Call)
    → KeepsLength read
    → Allocates c.page_size x
    → IsValid c
    → IsValid (step read c x) × ((step read c x).page_size ≡ c.page_size)
unfolding step
step-IsValid read c (get k raw) keeps a v =
    (get_page-IsValid read c k raw keeps a v, unfold get_page in ground arith)
step-IsValid read c (write k offset buf size) keeps a v =
    (write_page-IsValid c k offset size buf v, unfold write_page in ground arith)
step-IsValid read c (mark k) keeps a v =
    (mark_dirty-IsValid c k v, unfold mark_dirty in ground arith)
step-IsValid read c (flush_one k) keeps a v = (flush-IsValid c k v, unfold flush in ground arith)
step-IsValid read c flush_every keeps a v = (flush_all-IsValid c v, unfold flush_all in refl)
step-IsValid read c (drop_one k) keeps a v =
    (invalidate-IsValid c k v, unfold invalidate in ground arith)
step-IsValid read c (set_max n) keeps a v = elim (Bool-cases (ltb n c.cache.size)) [
  | inl e ↦ rw (set_max_pages-larger c n e, step) (v, refl)
  | inr e ↦ rw (set_max_pages-enough c n e, step) (record { table = v.table; full = v.full }, refl)
]
step-IsValid read c drop_all keeps a v = (clear-IsValid c v, unfold clear in refl)

-- After any sequence of calls on a valid cache, over a device that fills the buffers it is given, each
-- key stands once in the table, in the chain of its hash, `size` counts the nodes, modulo 2 ^ 32, and
-- every page has `page_size` bytes. The calls are those of get_page, write_page, mark_dirty, flush,
-- flush_all, invalidate, clear and set_max_pages, the last where it returns.
pub run-IsValid :
    (read : ℕ → List ℕ → List ℕ) (c : PageCache) (xs : List Call)
    → KeepsLength read
    → All (Allocates c.page_size) xs
    → IsValid c
    → IsValid (run read c xs)
unfolding run
run-IsValid read c [] keeps a v = v
run-IsValid read c (x ∷ xs) keeps a v =
    let next = step-IsValid read c x keeps a.0 v in
    run-IsValid read (step read c x) xs keeps (rw next.1 a.1) next.0
