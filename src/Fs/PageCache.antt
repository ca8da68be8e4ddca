-- ===== src/Fs/PageCache.antt =====
-- kernel/fs/SimplePageCache.cpp, class SimplePageCache, over the HashList behind its laws.
-- The block device is a parameter: `read_block` gives what its virtual `read_block(block_num,
-- buffer)` leaves in the buffer, of which the cache ignores the result. The lock that each method
-- holds makes it atomic and has no state here. `new uint8_t[page_size_]` does not set its bytes:
-- they are the argument `raw` of `get_page`.
use wandos.Base.{
  ℕ, zero, suc, ◌+◌, ◌-◌, ◌%◌, ◌^◌, min, Bool, true, false, Option, none, some, List, [], ◌++◌, ltb,
  leb, if◌then◌else◌, take, drop, is_some,
}
use wandos.Text.Memory.{memcpy}
use wandos.Fs.HashList
use wandos.Fs.HashList.{Page, HashList}
pub mod Clean
pub mod Flush
pub mod Inv
pub mod Laws
pub mod Tests

pub record PageCache : Type 0 where
  pub page_size : ℕ
  pub max_pages : ℕ
  pub cache : HashList

-- The constructor; a HashList has 256 buckets unless told otherwise.
pub init : ℕ → ℕ → PageCache
init page_size max_pages = record {
  page_size = page_size;
  max_pages = max_pages;
  cache = HashList.init 256;
}

pub exists : PageCache → ℕ → Bool
exists c k = is_some (HashList.find c.cache k)

-- What is passed to `read_block`, a 32-bit number, is the low half of the key. The branch on
-- `max_pages_` has an empty body.
pub get_page : (ℕ → List ℕ → List ℕ) → PageCache → ℕ → List ℕ → Option Page × PageCache
get_page read_block c k raw = elim (HashList.find c.cache k) [
  | some p ↦ (some p, c)
  | none ↦
      let page : Page = record {
        bytes = read_block (k % 2 ^ 32) raw;
        size = c.page_size;
        dirty = false;
      } in
      let cache' = HashList.insert c.cache k page in
      (HashList.find cache' k, record c { cache = cache' })
]

-- The bytes that `read_page` has put in the caller's buffer, and their number.
pub read_page : PageCache → ℕ → ℕ → List ℕ → ℕ → ℕ × List ℕ
read_page c k offset buf size = elim (HashList.find c.cache k) [
  | none ↦ (0, buf)
  | some p ↦ if leb c.page_size offset then (0, buf) else (
    min size (c.page_size - offset),
    memcpy buf (drop offset p.bytes) (min size (c.page_size - offset)),
  )
]

-- `memcpy(it->data + offset, buf, n); it->dirty = true`
abbrev pub written : ℕ → List ℕ → ℕ → Page → Page
written offset buf n p = record p {
  bytes = take offset p.bytes ++ memcpy (drop offset p.bytes) buf n;
  dirty = true;
}

pub write_page : PageCache → ℕ → ℕ → List ℕ → ℕ → ℕ × PageCache
write_page c k offset buf size = elim (HashList.find c.cache k) [
  | none ↦ (0, c)
  | some p ↦ if leb c.page_size offset then (0, c) else (
    min size (c.page_size - offset),
    record c {
      cache = HashList.modify c.cache k (written offset buf (min size (c.page_size - offset)));
    },
  )
]

abbrev pub with_dirty : Bool → Page → Page
with_dirty b p = record p { dirty = b }

pub mark_dirty : PageCache → ℕ → PageCache
mark_dirty c k = elim (HashList.find c.cache k) [
  | none ↦ c
  | some p ↦ record c { cache = HashList.modify c.cache k (with_dirty true) }
]

pub flush : PageCache → ℕ → Bool × PageCache
flush c k = elim (HashList.find c.cache k) [
  | none ↦ (false, c)
  | some p ↦
      if p.dirty
      then (true, record c { cache = HashList.modify c.cache k (with_dirty false) })
      else (true, c)
]

abbrev pub flushed : Page → Page
flushed p = if p.dirty then with_dirty false p else p

pub flush_all : PageCache → PageCache
flush_all c = record c { cache = HashList.for_each flushed c.cache }

pub invalidate : PageCache → ℕ → PageCache
invalidate c k = elim (HashList.find c.cache k) [
  | none ↦ c
  | some p ↦ record c { cache = (HashList.erase c.cache k).1 }
]

pub clear : PageCache → PageCache
clear c = record c { cache = HashList.clear c.cache }

pub page_count : PageCache → ℕ
page_count c = c.cache.size

-- The loop of `set_max_pages` while the cache is too large; its body is empty. `none` means that
-- the fuel ran out.
pub shrink : ℕ → PageCache → Option PageCache
shrink zero c = none
shrink (suc fuel) c =
    let rest = shrink fuel c in if ltb c.max_pages c.cache.size then rest else some c

pub set_max_pages : ℕ → PageCache → ℕ → Option PageCache
unfolding shrink
set_max_pages fuel c n = shrink fuel (record c { max_pages = n })
