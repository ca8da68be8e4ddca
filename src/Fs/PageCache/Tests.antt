-- ===== src/Fs/PageCache/Tests.antt =====
-- The theorems on HashList and SimplePageCache at concrete inputs.
use wandos.Base.{
  ℕ, ◌≡◌, refl, true, false, none, some, List, [], ◌∷◌, arith, if◌then◌else◌, ◌==◌, length, is_some,
  ◌∙◌,
}
use mathlib.Core.Option
use wandos.Fs.HashList.{Page}
use wandos.Fs.HashList.Laws as TableLaws
use wandos.Fs.PageCache.{
  PageCache, init, get_page, read_page, write_page, with_dirty, mark_dirty, flush, set_max_pages,
}
use wandos.Fs.PageCache.Inv.{
  Call, get, write, mark, flush_one, flush_every, run, run-IsValid, init-IsValid, get_page-IsValid,
}
use wandos.Fs.PageCache.Laws.{IsValid, view, get_page_lem, read_page-write_page}
use wandos.Fs.PageCache.Flush.{view-flush, set_max_pages_returns}

-- A device whose block `b` is full of `b`s, on a page of four bytes.
abbrev device : ℕ → List ℕ → List ℕ
device b [] = []
device b (x ∷ xs) = b ∷ device b xs

device-length : (b : ℕ) (raw : List ℕ) → length (device b raw) ≡ length raw
device-length b [] = refl
device-length b (x ∷ xs) = omega (arith, device-length b xs)

abbrev blank : List ℕ
blank = 0 ∷ 0 ∷ 0 ∷ 0 ∷ []

abbrev calls : List Call
calls = get 3 blank ∷ write 3 1 (8 ∷ 9 ∷ []) 2 ∷ mark 3 ∷ flush_one 3 ∷ flush_every ∷ []

run-IsValid_example : IsValid (run device (init 4 2) calls)
unfolding init
run-IsValid_example =
    run-IsValid device (init 4 2) calls device-length (omega arith) (init-IsValid 4 2)

-- A cache that holds page 3.
abbrev loaded : PageCache
loaded = (get_page device (init 4 2) 3 blank).1

abbrev page_three : Page
page_three = record { bytes = 3 ∷ 3 ∷ 3 ∷ 3 ∷ []; size = 4; dirty = false }

loaded-IsValid : IsValid loaded
unfolding init
loaded-IsValid = get_page-IsValid device (init 4 2) 3 blank device-length refl (init-IsValid 4 2)

loaded_page : view loaded 3 ≡ some page_three
unfolding init
loaded_page =
    let lem = get_page_lem device (init 4 2) 3 3 blank (init-IsValid 4 2) in
    lem.0 ∙ lem.1 ∙ rw (TableLaws.find-init 256 3) refl

loaded_size : loaded.page_size ≡ 4
unfolding get_page init
loaded_size = ground arith

read_page-write_page_example :
    read_page (write_page loaded 3 1 (8 ∷ 9 ∷ []) 2).1 3 1 (0 ∷ 0 ∷ []) 2 ≡ (2, 8 ∷ 9 ∷ [])
read_page-write_page_example =
    read_page-write_page loaded 3 1 2 (8 ∷ 9 ∷ []) (0 ∷ 0 ∷ []) page_three loaded-IsValid
      loaded_page (rw loaded_size (omega arith)) (omega arith) refl refl

view-flush_example :
    ((flush loaded 3).0 ≡ is_some (view loaded 3))
    × (view (flush loaded 3).1 3
        ≡ (if ◌==◌ 3 3 then Option.map (with_dirty false) (view loaded 3) else view loaded 3))
    × (view (mark_dirty loaded 3) 3
        ≡ (if ◌==◌ 3 3 then Option.map (with_dirty true) (view loaded 3) else view loaded 3))
view-flush_example = view-flush loaded 3 3 loaded-IsValid

-- A cache of three pages, told to keep two, does not return in a thousand rounds.
abbrev overfull : PageCache
overfull = record {
  page_size = 4;
  max_pages = 9;
  cache = record { bucket_count = 1; size = 3; buckets = [] ∷ [] };
}

set_max_pages_returns_example : set_max_pages 1000 overfull 2 ≡ none
set_max_pages_returns_example = (set_max_pages_returns overfull 2).1 (omega arith) 1000
