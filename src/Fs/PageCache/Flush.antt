-- ===== src/Fs/PageCache/Flush.antt =====
-- Dirty pages and the size limit of SimplePageCache (kernel/fs/SimplePageCache.cpp).
use wandos.Base.{
  ℕ, zero, suc, ◌≤◌, ◌<◌, ◌≡◌, refl, true, false, none, some, arith, ◌==◌, if◌then◌else◌,
  Option-cases, inl, inr, is_some,
}
use mathlib.Core.Option
use wandos.Fs.HashList
use wandos.Fs.HashList.{Page, HashList}
use wandos.Fs.HashList.Laws as TableLaws
use wandos.Fs.PageCache.{
  PageCache, mark_dirty, with_dirty, flush, flushed, flush_all, invalidate, shrink, set_max_pages,
}
use wandos.Fs.PageCache.Laws.{IsValid, view}

-- `flush` writes nothing back to the device, against include/kernel/fs/PageCache.h: all that it does is
-- to clear the dirty mark of the page, which keeps its bytes, and it reports success exactly when the
-- page is there. `mark_dirty` sets the mark. Neither touches another page.
pub view-flush :
    (c : PageCache) (k j : ℕ)
    → IsValid c
    → ((flush c k).0 ≡ is_some (view c k))
      × (view (flush c k).1 j
          ≡ (if k == j then Option.map (with_dirty false) (view c k) else view c j))
      × (view (mark_dirty c k) j
          ≡ (if k == j then Option.map (with_dirty true) (view c k) else view c j))
unfolding flush mark_dirty
view-flush c k j v = elim (Option-cases (HashList.find c.cache k)) [
  | inl e ↦ rw (e, flush, mark_dirty) (ground (arith, e))
  | inr (p, e) ↦
      rw (e, flush, mark_dirty)
        (ground (
          arith,
          e,
          TableLaws.find-modify c.cache k j (with_dirty false) v.table,
          TableLaws.find-modify c.cache k j (with_dirty true) v.table,
        ))
]

-- After `flush_all` no page is dirty, and each has its bytes.
pub view-flush_all :
    (c : PageCache) (k : ℕ) → view (flush_all c) k ≡ Option.map (with_dirty false) (view c k)
unfolding flush_all
view-flush_all c k = elim (Option-cases (HashList.find c.cache k)) [
  | inl e ↦ ground (arith, TableLaws.find-for_each flushed c.cache k)
  | inr (p, e) ↦ ground (arith, TableLaws.find-for_each flushed c.cache k)
]

-- `invalidate` drops the page of its key, dirty or not, and no other.
pub view-invalidate :
    (c : PageCache) (k j : ℕ)
    → IsValid c
    → view (invalidate c k) j ≡ (if k == j then none else view c j)
unfolding invalidate
view-invalidate c k j v = elim (Option-cases (HashList.find c.cache k)) [
  | inl e ↦ rw (e, invalidate) (ground (arith, e))
  | inr (p, e) ↦ rw (e, invalidate) (TableLaws.find-erase c.cache k j v.table)
]

shrink-stuck : (fuel : ℕ) (c : PageCache) → c.max_pages < c.cache.size → shrink fuel c ≡ none
unfolding shrink
shrink-stuck zero c h = refl
shrink-stuck (suc fuel) c h = ground (arith, shrink-stuck fuel c h)

-- The loop of `set_max_pages` has no body: the call returns, at once, if the cache holds at most
-- `n` pages, and for more pages it does not return after any number of rounds.
pub set_max_pages_returns :
    (c : PageCache) (n : ℕ)
    → (c.cache.size ≤ n
        → (fuel : ℕ) → set_max_pages (suc fuel) c n ≡ some (record c { max_pages = n }))
      × (n < c.cache.size → (fuel : ℕ) → set_max_pages fuel c n ≡ none)
unfolding set_max_pages
set_max_pages_returns c n = (
  λ h fuel. unfold shrink in ground arith,
  λ h fuel. shrink-stuck fuel (record c { max_pages = n }) h,
)
