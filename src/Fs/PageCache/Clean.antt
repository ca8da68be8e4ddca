-- ===== src/Fs/PageCache/Clean.antt =====
-- SimplePageCache::get_page (kernel/fs/SimplePageCache.cpp) of a cache that no one has written to.
use wandos.Base.{
  ℕ, ◌%◌, ◌^◌, ◌≡◌, refl, ap, ◌∙◌, sym, Option, none, some, false, List, [], ◌==◌, length,
  Option-cases, inl, inr, Bool-cases, ==_iff,
}
use wandos.Fs.HashList
use wandos.Fs.HashList.{Page}
use wandos.Fs.HashList.Laws.{find-init}
use wandos.Fs.PageCache.{PageCache, init, get_page}
use wandos.Fs.PageCache.Laws.{view, IsValid, get_page_lem}
use wandos.Fs.PageCache.Inv.{KeepsLength, init-IsValid, get_page-IsValid}

-- Every page has what the disk has at the low 32 bits of its key.
pub record Clean (disk : ℕ → List ℕ) (size : ℕ) (c : PageCache) : Type 0 where
  pub valid : IsValid c
  pub sized : c.page_size ≡ size
  pub same : (k : ℕ) (p : Page) → view c k ≡ some p → p.bytes ≡ disk (k % 2 ^ 32)

page_size-get_page :
    (read : ℕ → List ℕ → List ℕ) (c : PageCache) (k : ℕ) (raw : List ℕ)
    → (get_page read c k raw).1.page_size ≡ c.page_size
unfolding get_page
page_size-get_page read c k raw = elim (Option-cases (HashList.find c.cache k)) [
  | inl e ↦ rw (e, get_page) refl
  | inr (p, e) ↦ rw (e, get_page) refl
]

pub init-Clean : (disk : ℕ → List ℕ) (size max_pages : ℕ) → Clean disk size (init size max_pages)
unfolding init
init-Clean disk size max_pages = record {
  valid = init-IsValid size max_pages;
  sized = refl;
  same = λ k p e. cc (find-init 256 k);
}

-- The bytes of a page, none without one.
abbrev pub bytes_of : Option Page → List ℕ
bytes_of none = []
bytes_of (some p) = p.bytes

module _ (read : ℕ → List ℕ → List ℕ) (disk : ℕ → List ℕ) (raw : List ℕ) (keeps : KeepsLength read)
    (reads : (b : ℕ) → read b raw ≡ disk b) where
  -- The page that is given is there, and has the bytes of the disk.
  given :
      (c : PageCache) (k : ℕ)
      → Clean disk (length raw) c
      → (p : Page) × ((get_page read c k raw).0 ≡ some p) × (p.bytes ≡ disk (k % 2 ^ 32))
  given c k v = elim (Option-cases (view c k)) [
    | inl e ↦ (
      record { bytes = read (k % 2 ^ 32) raw; size = c.page_size; dirty = false },
      rw (e) at ((get_page_lem read c k k raw v.valid).1),
      reads (k % 2 ^ 32),
    )
    | inr (p, e) ↦ (p, rw (e) at ((get_page_lem read c k k raw v.valid).1), v.same k p e)
  ]

  pub get_page-bytes :
      (c : PageCache) (k : ℕ)
      → Clean disk (length raw) c
      → bytes_of (get_page read c k raw).0 ≡ disk (k % 2 ^ 32)
  get_page-bytes c k v = let (p, e, s) = given c k v in rw e s

  pub get_page-Clean :
      (c : PageCache) (k : ℕ)
      → Clean disk (length raw) c
      → Clean disk (length raw) (get_page read c k raw).1
  get_page-Clean c k v = record {
    valid = get_page-IsValid read c k raw keeps (sym v.sized) v.valid;
    sized = page_size-get_page read c k raw ∙ v.sized;
    same = λ j p e.
        let (q, a, s) = given c k v in
        let l = (get_page_lem read c k j raw v.valid).0 in
        elim (Bool-cases (k == j)) [
          | inl t ↦
              ap bytes_of (sym e ∙ (rw (t) at l) ∙ a)
              ∙ s
              ∙ ap (λ (i : ℕ). disk (i % 2 ^ 32)) ((==_iff k j).0 t)
          | inr t ↦ v.same j p (sym (rw (t) at l) ∙ e)
        ];
  }

  pub length-disk : (b : ℕ) → length (disk b) ≡ length raw
  length-disk b = sym (ap (λ (x : List ℕ). length x) (reads b)) ∙ keeps b raw
