-- ===== src/Memory/UserMemory/Gaps.antt =====
-- What find_free_area of kernel/memory/user_memory.cpp finds in a table whose areas stand in the
-- order of their addresses.
use wandos.Base.{
  ℕ, ◌+◌, ◌-◌, ◌≤◌, ◌<◌, ◌≡◌, ◌≢◌, ◌⊎◌, inl, inr, refl, Bool, ◌&&◌, none, some, List, [], ◌∷◌,
  arith, ltb, leb, Option-cases, Bool-cases, dec_lt,
}
use wandos.Memory.UserMemory.{
  Area, user_start, user_end, page_align, gap, find_gap, last_end, head_room, find_free_area,
}

-- The areas stand in order from `lo` on, none reaches into the next, and all end in user space.
abbrev pub Sorted : ℕ → List Area → Type 0
Sorted lo [] = lo ≤ user_end
Sorted lo (a ∷ rest) = (lo ≤ a.start_addr) × (a.start_addr ≤ a.end_addr) × Sorted a.end_addr rest

-- The `n` bytes from `r` on meet no area.
abbrev pub Avoids : ℕ → ℕ → List Area → Type 0
Avoids r n [] = Unit
Avoids r n (a ∷ rest) = ((a.end_addr ≤ r) ⊎ (r + n ≤ a.start_addr)) × Avoids r n rest

pub Sorted-le_end : (lo : ℕ) (xs : List Area) → Sorted lo xs → lo ≤ user_end
Sorted-le_end lo [] s = s
Sorted-le_end lo (a ∷ rest) s = omega (arith, Sorted-le_end a.end_addr rest s.2)

pub last_bounds :
    (lo : ℕ) (a : Area) (xs : List Area)
    → Sorted lo (a ∷ xs)
    → (a.end_addr ≤ last_end a xs) × (last_end a xs ≤ user_end)
unfolding last_end
last_bounds lo a [] s = omega arith
last_bounds lo a (b ∷ rest) s = omega (arith, last_bounds a.end_addr b rest s.2)

pub Avoids-before : (r n lo : ℕ) (xs : List Area) → Sorted lo xs → r + n ≤ lo → Avoids r n xs
Avoids-before r n lo [] s h = tt
Avoids-before r n lo (a ∷ rest) s h =
    (inr (omega arith), Avoids-before r n a.end_addr rest s.2 (omega arith))

pub Avoids-after :
    (r n lo : ℕ) (a : Area) (xs : List Area)
    → Sorted lo (a ∷ xs)
    → last_end a xs ≤ r
    → Avoids r n (a ∷ xs)
unfolding last_end
Avoids-after r n lo a [] s h = (inl h, tt)
Avoids-after r n lo a (b ∷ rest) s h = (
  inl (omega (arith, last_bounds a.end_addr b rest s.2)),
  Avoids-after r n a.end_addr b rest s.2 h,
)

-- In order, the subtraction of neighbours does not wrap.
gap_lem :
    (lo : ℕ) (a b : Area) (rest : List Area)
    → Sorted lo (a ∷ b ∷ rest)
    → (gap a b + a.end_addr ≡ b.start_addr) × (b.start_addr ≤ user_end)
gap_lem lo a b rest s = omega (arith, Sorted-le_end b.end_addr rest s.2.2)

find_gap_sound :
    (lo n r : ℕ) (xs : List Area)
    → Sorted lo xs
    → find_gap xs n ≡ some r
    → (lo ≤ r) × (r + n ≤ user_end) × Avoids r n xs
unfolding find_gap
find_gap_sound lo n r [] s e = cc
find_gap_sound lo n r (a ∷ []) s e = cc
find_gap_sound lo n r (a ∷ b ∷ rest) s e = elim (Bool-cases (leb n (gap a b))) [
  | inl f ↦
      let room = gap_lem lo a b rest s in
      let here : a.end_addr ≡ r = ground arith in
      let fits : r + n ≤ b.start_addr = ground arith in
      (
        omega arith,
        omega (arith, fits, room),
        (inl (omega arith), (inr fits, Avoids-before r n b.end_addr rest s.2.2 (omega arith))),
      )
  | inr f ↦
      let later = find_gap_sound a.end_addr n r (b ∷ rest) s.2 (ground arith) in
      (omega (arith, later.0), later.1, (inl later.0, later.2))
]

-- Where the search of `find_free_area` for `n` bytes ends, and what it then returns.
pub data Search (a : Area) (rest : List Area) (n : ℕ) : ℕ → Type 0 where
  head : user_start + n ≤ a.start_addr → Search a rest n user_start
  inner : (g : ℕ) → find_gap (a ∷ rest) n ≡ some g → Search a rest n g
  tail : last_end a rest + n ≤ user_end → Search a rest n (last_end a rest)
  nowhere :
      a.start_addr < user_start + n ⊎ (a.start_addr ≤ user_start)
      → find_gap (a ∷ rest) n ≡ none
      → user_end < last_end a rest + n ⊎ (user_end ≤ last_end a rest)
      → Search a rest n 0

pub find_free_area-Search :
    (a : Area) (rest : List Area) (size : ℕ)
    → Search a rest (page_align size) (find_free_area (a ∷ rest) size)
unfolding find_free_area
find_free_area-Search a rest size = elim (Bool-cases (head_room a (page_align size))) [
  | inl f ↦ rw f (head (unfold head_room in ground arith))
  | inr f ↦ elim (Option-cases (find_gap (a ∷ rest) (page_align size))) [
    | inr (g, e) ↦ rw (f, e) (inner g e)
    | inl e ↦ elim (Bool-cases tail_room) [
      | inl t ↦ rw (f, e, t) (tail (ground arith))
      | inr t ↦ rw (f, e, t) (nowhere (unfold head_room in ground arith) e (ground arith))
    ]
  ]
]
  where
    tail_room : Bool
    tail_room = ltb (last_end a rest) user_end && leb (page_align size) (user_end - last_end a rest)

-- The `n` bytes from `r` on lie in user space and meet no area.
abbrev pub IsFree : ℕ → ℕ → List Area → Type 0
IsFree r n xs = (user_start ≤ r) × (r + n ≤ user_end) × Avoids r n xs

Search-IsFree :
    {a : Area} {rest : List Area} {n r : ℕ}
    → Search a rest n r
    → Sorted user_start (a ∷ rest)
    → r ≢ 0
    → IsFree r n (a ∷ rest)
Search-IsFree {a} {rest} {n} (head h) s z = (
  omega arith,
  omega (arith, last_bounds user_start a rest s),
  (inr h, Avoids-before user_start n a.end_addr rest s.2 (omega arith)),
)
Search-IsFree {a} {rest} {n} (inner g e) s z = find_gap_sound user_start n g (a ∷ rest) s e
Search-IsFree {a} {rest} {n} (tail h) s z = (
  omega (arith, last_bounds user_start a rest s),
  h,
  Avoids-after (last_end a rest) n user_start a rest s (omega arith),
)
Search-IsFree (nowhere h e t) s z = absurd (z refl)

-- In a table in order, what `find_free_area` returns, if not 0, is the start of that many bytes of
-- user space, rounded up to pages, that meet no area, for any size up to that of user space.
pub find_free_area_sound :
    (xs : List Area) (size : ℕ)
    → Sorted user_start xs
    → size ≤ user_end - user_start
    → find_free_area xs size ≢ 0
    → IsFree (find_free_area xs size) (page_align size) xs
find_free_area_sound [] size s h z = unfold find_free_area in (omega arith, omega arith, tt)
find_free_area_sound (a ∷ rest) size s h z = Search-IsFree (find_free_area-Search a rest size) s z

pub find_gap_complete :
    (lo n x : ℕ) (a : Area) (rest : List Area)
    → Sorted lo (a ∷ rest)
    → find_gap (a ∷ rest) n ≡ none
    → a.end_addr ≤ x
    → x < last_end a rest
    → 0 < n
    → Avoids x n rest
    → ⊥
unfolding find_gap last_end
find_gap_complete lo n x a [] s e h k z v = omega arith
find_gap_complete lo n x a (b ∷ rest) s e h k z (inr l, v) = ground (arith, gap_lem lo a b rest s)
find_gap_complete lo n x a (b ∷ rest) s e h k z (inl l, v) =
    find_gap_complete a.end_addr n x b rest s.2 (ground arith) l k z v

Search-complete :
    {a : Area} {rest : List Area} {n r : ℕ} (x : ℕ)
    → Search a rest n r
    → Sorted user_start (a ∷ rest)
    → 0 < n
    → r ≡ 0
    → ¬ IsFree x n (a ∷ rest)
Search-complete x (head h) s z e f = absurd (omega (arith, e))
Search-complete {a} {rest} {n} x (inner g h) s z e f =
    omega (arith, e, (find_gap_sound user_start n g (a ∷ rest) s h).0)
Search-complete {a} {rest} x (tail h) s z e f = omega (arith, e, last_bounds user_start a rest s)
Search-complete {a} {rest} x (nowhere h e t) s z _ (lo, hi, (inr l, v)) = omega (arith, h)
Search-complete {a} {rest} {n} x (nowhere h e t) s z _ (lo, hi, (inl l, v)) =
    elim (dec_lt x (last_end a rest)) [
      | yes k ↦ find_gap_complete user_start n x a rest s e l k z v
      | no k ↦ omega (arith, t)
    ]

-- It returns 0 only if every such range of user space meets an area.
pub find_free_area_complete :
    (xs : List Area) (size x : ℕ)
    → Sorted user_start xs
    → 0 < page_align size
    → find_free_area xs size ≡ 0
    → ¬ IsFree x (page_align size) xs
find_free_area_complete [] size x s h e f = unfold find_free_area in absurd (omega (arith, e))
find_free_area_complete (a ∷ rest) size x s h e f =
    Search-complete x (find_free_area-Search a rest size) s h e f
