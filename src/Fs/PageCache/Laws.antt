-- ===== src/Fs/PageCache/Laws.antt =====
-- The contract of include/kernel/fs/PageCache.h for SimplePageCache: what its methods do to the
-- page of each key, in terms of `view`, the page that the cache holds for a key.
use wandos.Base.{
  ℕ, ◌+◌, ◌-◌, ◌%◌, ◌^◌, ◌≤◌, ◌<◌, min, ◌≡◌, refl, ap, ◌∙◌, false, Option, none, some, List, arith,
  ◌==◌, if◌then◌else◌, drop, length, Option-cases, inl, inr,
}
use mathlib.Core.Option
use wandos.Text.Memory.{memcpy}
use wandos.Text.Memory.Laws.{memcpy_back}
use wandos.Fs.HashList
use wandos.Fs.HashList.{Page, HashList}
use wandos.Fs.HashList.Inv
use wandos.Fs.HashList.Laws
use wandos.Fs.PageCache.{PageCache, get_page, read_page, write_page, written}

abbrev pub view : PageCache → ℕ → Option Page
view c k = HashList.find c.cache k

-- The table is valid and every page that is found has `page_size` bytes.
pub record IsValid (c : PageCache) : Type 0 where
  pub table : Inv.IsValid c.cache
  pub full : (k : ℕ) (p : Page) → view c k ≡ some p → length p.bytes ≡ c.page_size

-- `get_page` returns the page that the cache then holds: the old one if there was one, else a clean
-- one with what the device holds at the low 32 bits of the key. No other key's page changes.
pub get_page_lem :
    (read : ℕ → List ℕ → List ℕ) (c : PageCache) (k j : ℕ) (raw : List ℕ)
    → IsValid c
    → (view (get_page read c k raw).1 j ≡ (if k == j then (get_page read c k raw).0 else view c j))
      × ((get_page read c k raw).0 ≡ (elim (view c k) [
        | some p ↦ some p
        | none ↦ some (record { bytes = read (k % 2 ^ 32) raw; size = c.page_size; dirty = false })
      ]))
unfolding get_page
get_page_lem read c k j raw v = elim (Option-cases (HashList.find c.cache k)) [
  | inl e ↦
      rw (e, get_page)
        (
          ground (arith, Laws.find-insert c.cache k j page v.table),
          ground (arith, Laws.find-insert c.cache k k page v.table),
        )
  | inr (p, e) ↦ rw (e, get_page) (ground arith, refl)
]
  where
    page : Page
    page = record { bytes = read (k % 2 ^ 32) raw; size = c.page_size; dirty = false }

-- The first `n` bytes of `buf` go to `offset` of the page at `k`, which becomes dirty; here `n`
-- is `size`, or what is left of the page from `offset`. All else stays.
pub view-write_page :
    (c : PageCache) (k j offset size : ℕ) (buf : List ℕ)
    → IsValid c
    → offset < c.page_size
    → view (write_page c k offset buf size).1 j ≡ (
        if k == j
        then Option.map (written offset buf (min size (c.page_size - offset))) (view c k)
        else view c j)
unfolding write_page
view-write_page c k j offset size buf v h = elim (Option-cases (HashList.find c.cache k)) [
  | inl e ↦ rw (e, write_page) (ground (arith, e))
  | inr (p, e) ↦
      rw (e, write_page)
        (ground (
          arith,
          e,
          Laws.find-modify c.cache k j (written offset buf (min size (c.page_size - offset)))
              v.table,
        ))
]

-- The call on a cached page, at an offset inside it.
read_page-cached :
    (c : PageCache) (k offset size : ℕ) (out : List ℕ) (p : Page)
    → view c k ≡ some p
    → offset + size ≤ c.page_size
    → 0 < size
    → read_page c k offset out size ≡ (size, memcpy out (drop offset p.bytes) size)
unfolding read_page
read_page-cached c k offset size out p e h z =
    let m : min size (c.page_size - offset) ≡ size = omega arith in
    rw (e, read_page) (ground (arith, m))

-- `read_page` of bytes that `write_page` has just put into a cached page gives those bytes.
pub read_page-write_page :
    (c : PageCache) (k offset size : ℕ) (buf out : List ℕ) (p : Page)
    → IsValid c
    → view c k ≡ some p
    → offset + size ≤ c.page_size
    → 0 < size
    → length buf ≡ size
    → length out ≡ size
    → read_page (write_page c k offset buf size).1 k offset out size ≡ (size, buf)
unfolding write_page
read_page-write_page c k offset size buf out p v e h z b o =
    read_page-cached (write_page c k offset buf size).1 k offset size out
      (written offset buf size p) now (rw same h) z
    ∙ ap (λ r. (size, r))
        (memcpy_back p.bytes buf out offset size (omega (arith, v.full k p e)) b o)
  where
    same : (write_page c k offset buf size).1.page_size ≡ c.page_size
    same = ground arith

    m : min size (c.page_size - offset) ≡ size
    m = omega arith

    now : view (write_page c k offset buf size).1 k ≡ some (written offset buf size p)
    now = view-write_page c k k offset size buf v (omega arith) ∙ ground (arith, m, e)
