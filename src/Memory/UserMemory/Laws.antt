-- ===== src/Memory/UserMemory/Laws.antt =====
-- What allocate_area and free_area of kernel/memory/user_memory.cpp do to the table of areas.
use wandos.Base.{
  ℕ, ◌+◌, ◌-◌, ◌/◌, ◌%◌, ◌^◌, ◌≤◌, ◌<◌, ◌≡◌, ◌≢◌, ◌⊎◌, inl, inr, refl, ap, ◌∙◌, true, false, Option,
  none, some, List, [], ◌∷◌, ◌++◌, arith, leb, ◌==◌, length, length-append, Option-cases,
  Bool-cases, lt→not_leb,
}
use wandos.Memory.UserMemory.{
  Area, UserMemory, user_start, user_end, max_areas, page_align, find_gap, head_room,
  find_free_area, allocate_area, remove, free_area,
}
use wandos.Memory.UserMemory.Gaps.{
  Sorted, Sorted-le_end, Avoids, Avoids-before, IsFree, find_free_area_sound,
  find_free_area_complete,
}

abbrev pub area : ℕ → ℕ → ℕ → ℕ → Area
area start n flags type = record {
  start_addr = start;
  end_addr = start + n;
  flags = flags;
  type = type;
}

-- In a table in order, for a size from 1 byte up to that of user space: either the call returns an
-- address, at which the pages asked for are free, and adds the area with these pages to the end of
-- the table and counts them; or it returns null and changes nothing, and then the table is full or
-- no pages of user space in a row are free for the size.
pub allocate_area_lem :
    (m : UserMemory) (size flags type : ℕ)
    → Sorted user_start m.areas
    → 0 < size
    → size ≤ user_end - user_start
    → ((start : ℕ) × IsFree start (page_align size) m.areas
        × (length m.areas < max_areas)
        × (allocate_area m size flags type ≡ (
          some start,
          record {
            areas = m.areas ++ area start (page_align size) flags type ∷ [];
            total_vm = (m.total_vm + page_align size / 4096) % 2 ^ 32;
          },
        )))
      ⊎ ((allocate_area m size flags type ≡ (none, m))
          × ((max_areas ≤ length m.areas) ⊎ ((x : ℕ) → ¬ IsFree x (page_align size) m.areas)))
unfolding allocate_area
allocate_area_lem m size flags type s z h = elim (Bool-cases (leb max_areas (length m.areas))) [
  | inl f ↦ inr (rw f, inl (ground arith))
  | inr f ↦ elim (Bool-cases (find_free_area m.areas size == 0)) [
    | inl e ↦ inr (
      rw (f, e),
      inr (λ x. find_free_area_complete m.areas size x s (omega arith) (ground arith)),
    )
    | inr e ↦
        let free = find_free_area_sound m.areas size s h (ground arith) in
        let no_wrap : (find_free_area m.areas size + page_align size) % 2 ^ 32
            ≡ find_free_area m.areas size + page_align size =
          omega (arith, free.1) in
        inl (find_free_area m.areas size, free, ground arith, rw (f, e, no_wrap))
  ]
]

find_gap-append :
    (n g : ℕ) (xs ys : List Area) → find_gap xs n ≡ some g → find_gap (xs ++ ys) n ≡ some g
unfolding find_gap
find_gap-append n g [] ys e = cc
find_gap-append n g (a ∷ []) ys e = cc
find_gap-append n g (a ∷ b ∷ rest) ys e = ground (arith, find_gap-append n g (b ∷ rest) ys)

-- A search that ends before the last area is not changed by an area that is added behind it.
find_free_area-append :
    (a : Area) (rest ys : List Area) (size g : ℕ)
    → (head_room a (page_align size) ≡ true) ⊎ (find_gap (a ∷ rest) (page_align size) ≡ some g)
    → find_free_area (a ∷ rest ++ ys) size ≡ find_free_area (a ∷ rest) size
unfolding find_free_area
find_free_area-append a rest ys size g (inl f) = rw f
find_free_area-append a rest ys size g (inr e) =
    rw (e, find_gap-append (page_align size) g (a ∷ rest) ys e)

allocate_area-some :
    (m : UserMemory) (size flags type : ℕ)
    → find_free_area m.areas size ≢ 0
    → length m.areas < max_areas
    → allocate_area m size flags type ≡ (
      some (find_free_area m.areas size),
      record {
        areas =
            m.areas
            ++ record {
              start_addr = find_free_area m.areas size;
              end_addr = (find_free_area m.areas size + page_align size) % 2 ^ 32;
              flags = flags;
              type = type;
            }
              ∷ [];
        total_vm = (m.total_vm + page_align size / 4096) % 2 ^ 32;
      },
    )
unfolding allocate_area
allocate_area-some m size flags type z l =
    let room : leb max_areas (length m.areas) ≡ false = lt→not_leb _ _ l in
    let some_start : (find_free_area m.areas size == 0) ≡ false = ground arith in
    rw (room, some_start)

-- In a table with room for two more areas, wherever the search ends before the last area, in front of
-- the first area or in an inner gap, two calls in a row return the same address: the second area lies
-- on the first.
pub allocate_area_overlaps :
    (m : UserMemory) (a : Area) (rest : List Area) (size flags type g : ℕ)
    → m.areas ≡ a ∷ rest
    → (head_room a (page_align size) ≡ true) ⊎ (find_gap (a ∷ rest) (page_align size) ≡ some g)
    → find_free_area m.areas size ≢ 0
    → length m.areas + 1 < max_areas
    → ((allocate_area m size flags type).0 ≡ some (find_free_area m.areas size))
      × ((allocate_area (allocate_area m size flags type).1 size flags type).0
          ≡ some (find_free_area m.areas size))
allocate_area_overlaps m a rest size flags type g e found z l =
    let first = allocate_area-some m size flags type z (omega arith) in
    (
      ap (λ (r : Option ℕ × UserMemory). r.0) first,
      rw first (
          ap (λ (r : Option ℕ × UserMemory). r.0)
            (allocate_area-some _ size flags type (rw same z)
              (omega (arith, l, length-append m.areas (new ∷ []))))
          ∙ ap some same),
    )
  where
    new : Area
    new = record {
      start_addr = find_free_area m.areas size;
      end_addr = (find_free_area m.areas size + page_align size) % 2 ^ 32;
      flags = flags;
      type = type;
    }

    kept : (x : Area) → find_free_area (m.areas ++ x ∷ []) size ≡ find_free_area m.areas size
    kept x = rw e (find_free_area-append a rest (x ∷ []) size g found)

    same : find_free_area (m.areas ++ new ∷ []) size ≡ find_free_area m.areas size
    same = kept new

Sorted-mono : (lo hi : ℕ) (xs : List Area) → lo ≤ hi → Sorted hi xs → Sorted lo xs
Sorted-mono lo hi [] h s = omega arith
Sorted-mono lo hi (a ∷ rest) h s = (omega arith, s.1, s.2)

-- What the loop of `free_area` takes out, and what it leaves.
abbrev pub Removes : ℕ → ℕ → List Area → ℕ → List Area → Type 0
Removes lo start xs n ys =
    Sorted lo ys
    × (lo ≤ start)
    × (start + n ≤ user_end)
    × Avoids start n ys
    × (length ys + 1 ≡ length xs)

remove-Removes :
    (lo start n : ℕ) (xs ys : List Area)
    → Sorted lo xs
    → remove start xs ≡ some (n, ys)
    → Removes lo start xs n ys
unfolding remove
remove-Removes lo start n [] ys s e = cc
remove-Removes lo start n (a ∷ rest) ys s e = elim (Bool-cases (a.start_addr == start)) [
  | inl f ↦
      let here : a.start_addr ≡ start = ground arith in
      let left : rest ≡ ys = ground arith in
      let size : (a.end_addr + 2 ^ 32 - a.start_addr) % 2 ^ 32 ≡ n = ground arith in
      let top = Sorted-le_end a.end_addr rest s.2 in
      rw (← left) (
        Sorted-mono lo a.end_addr rest (omega arith) s.2,
        omega arith,
        omega (arith, size, top),
        Avoids-before start n a.end_addr rest s.2 (omega (arith, size, top)),
        omega arith,
      )
  | inr f ↦ elim (Option-cases (remove start rest)) [
    | inl g ↦ ground arith
    | inr ((k, zs), g) ↦
        let size : k ≡ n = ground arith in
        let later = rw size at (remove-Removes a.end_addr start k rest zs s.2 g) in
        let left : a ∷ zs ≡ ys = ground arith in
        rw (← left) (
          (s.0, s.1, later.0),
          omega (arith, later.1),
          later.2,
          (inl later.1, later.3),
          omega (arith, later.4),
        )
  ]
]

-- In a table in order, `free_area` of an address at which an area starts takes one area out: the
-- table stays in order, and the bytes from the address on, as many as are then unmapped, are free.
pub free_area_lem :
    (m : UserMemory) (start : ℕ) (n : ℕ) (ys : List Area)
    → Sorted user_start m.areas
    → remove start m.areas ≡ some (n, ys)
    → ((free_area m start).0 ≡ n)
      × Sorted user_start (free_area m start).1.areas
      × IsFree start n (free_area m start).1.areas
      × (length (free_area m start).1.areas + 1 ≡ length m.areas)
unfolding free_area
free_area_lem m start n ys s e =
    let r = remove-Removes user_start start n m.areas ys s e in
    rw (e, free_area) (refl, r.0, (r.1, r.2, r.3), r.4)

remove-append :
    (start : ℕ) (xs : List Area) (a : Area)
    → remove start xs ≡ none
    → a.start_addr ≡ start
    → a.start_addr ≤ a.end_addr
    → a.end_addr < 2 ^ 32
    → remove start (xs ++ a ∷ []) ≡ some (a.end_addr - a.start_addr, xs)
unfolding remove
remove-append start [] a e h k l =
    let size : (a.end_addr + 2 ^ 32 - a.start_addr) % 2 ^ 32 ≡ a.end_addr - a.start_addr =
      omega arith in
    ground (arith, size)
remove-append start (b ∷ xs) a e h k l = ground (arith, remove-append start xs a)

-- What `free_area` takes from the count of pages is what `allocate_area` added.
pages :
    (total size : ℕ)
    → size ≤ user_end - user_start
    → total < 2 ^ 32
    → ((total + page_align size / 4096) % 2 ^ 32
          + 2 ^ 32
          - (page_align size + 4095) % 2 ^ 32 / 4096)
        % 2 ^ 32
      ≡ total
pages total size h t = omega arith

-- `free_area` undoes `allocate_area`, if no older area starts at the address that it returned.
pub free_area-allocate_area :
    (m : UserMemory) (size flags type start : ℕ)
    → Sorted user_start m.areas
    → 0 < size
    → size ≤ user_end - user_start
    → m.total_vm < 2 ^ 32
    → (allocate_area m size flags type).0 ≡ some start
    → remove start m.areas ≡ none
    → free_area (allocate_area m size flags type).1 start ≡ (page_align size, m)
unfolding free_area
free_area-allocate_area m size flags type start s z h t e absent =
    elim (allocate_area_lem m size flags type s z h) [
      | inr (f, _) ↦ cc (ap (λ (r : Option ℕ × UserMemory). r.0) f)
      | inl (r, free, l, f) ↦
          let same : r ≡ start = ground arith in
          let taken =
            remove-append start m.areas (area r (page_align size) flags type) absent same
              (omega arith) (omega (arith, free.1)) in
          let size_eq : r + page_align size - r ≡ page_align size = omega arith in
          rw (f, taken, free_area) (ground (arith, f, size_eq, pages m.total_vm size h t))
    ]
