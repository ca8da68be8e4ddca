-- ===== src/Memory/UserMemory.antt =====
-- kernel/memory/user_memory.cpp, class UserMemory: the table of areas. The first `num_areas`
-- entries of the array `areas` are a list, in the array's order. Addresses are 32-bit numbers.
use wandos.Base.{
  ℕ, zero, suc, ◌+◌, ◌-◌, ◌*◌, ◌/◌, ◌%◌, ◌^◌, Bool, ◌&&◌, Option, none, some, List, [], ◌∷◌, ◌++◌,
  ltb, leb, ◌==◌, if◌then◌else◌, length,
}
pub mod Gaps
pub mod Largest
pub mod Laws
pub mod Tests

-- `struct MemoryArea`
pub record Area : Type 0 where
  pub start_addr : ℕ
  pub end_addr : ℕ
  pub flags : ℕ
  pub type : ℕ

pub record UserMemory : Type 0 where
  pub areas : List Area
  pub total_vm : ℕ

abbrev pub user_start : ℕ
user_start = 0x40000000

abbrev pub user_end : ℕ
user_end = 0xC0000000

abbrev pub max_areas : ℕ
max_areas = 32

-- `(size + PAGE_SIZE - 1) & ~(PAGE_SIZE - 1)`
abbrev pub page_align : ℕ → ℕ
page_align size = (size + 4095) % 2 ^ 32 / 4096 * 4096

-- `areas[i + 1].start_addr - areas[i].end_addr`, which wraps.
abbrev pub gap : Area → Area → ℕ
gap a b = (b.start_addr + 2 ^ 32 - a.end_addr) % 2 ^ 32

-- The loop of `find_free_area` over neighbouring areas.
pub find_gap : List Area → ℕ → Option ℕ
find_gap [] size = none
find_gap (a ∷ []) size = none
find_gap (a ∷ b ∷ rest) size =
    let later = find_gap (b ∷ rest) size in if leb size (gap a b) then some a.end_addr else later

-- `areas[num_areas - 1].end_addr`
pub last_end : Area → List Area → ℕ
last_end a [] = a.end_addr
last_end a (b ∷ rest) = last_end b rest

-- The room before the first area.
pub head_room : Area → ℕ → Bool
head_room a size = ltb user_start a.start_addr && leb size (a.start_addr - user_start)

pub find_free_area : List Area → ℕ → ℕ
unfolding head_room find_gap last_end
find_free_area [] size = user_start
find_free_area (a ∷ rest) size =
    if head_room a (page_align size)
    then user_start
    else elim (find_gap (a ∷ rest) (page_align size)) [
      | some g ↦ g
      | none ↦
          if ltb (last_end a rest) user_end && leb (page_align size) (user_end - last_end a rest)
          then last_end a rest
          else 0
    ]

-- `allocate_area` up to the page tables: the address, or `none` for a null pointer.
pub allocate_area : UserMemory → ℕ → ℕ → ℕ → Option ℕ × UserMemory
unfolding find_free_area
allocate_area m size flags type =
    if leb max_areas (length m.areas)
    then (none, m)
    else let start = find_free_area m.areas size in
      if start == 0 then (none, m) else (
        some start,
        record {
          areas =
              m.areas
              ++ record {
                start_addr = start;
                end_addr = (start + page_align size) % 2 ^ 32;
                flags = flags;
                type = type;
              }
                ∷ [];
          total_vm = (m.total_vm + page_align size / 4096) % 2 ^ 32;
        },
      )

-- The loop of `free_area`: the size of the first area that starts there, and the table without it.
pub remove : ℕ → List Area → Option (ℕ × List Area)
remove start [] = none
remove start (a ∷ rest) =
    let later = remove start rest in
    if a.start_addr == start
    then some ((a.end_addr + 2 ^ 32 - a.start_addr) % 2 ^ 32, rest)
    else elim later [ none ↦ none | some (size, rest') ↦ some (size, a ∷ rest') ]

-- `free_area`, with the size of what it then unmaps.
pub free_area : UserMemory → ℕ → ℕ × UserMemory
unfolding remove
free_area m start = elim (remove start m.areas) [
  | none ↦ (0, m)
  | some (size, rest) ↦ (
    size,
    record {
      areas = rest;
      total_vm = (m.total_vm + 2 ^ 32 - (size + 4095) % 2 ^ 32 / 4096) % 2 ^ 32;
    },
  )
]

-- The loop of `find_largest_free_area`.
pub largest_gap : ℕ → List Area → ℕ
largest_gap best [] = best
largest_gap best (a ∷ []) = best
largest_gap best (a ∷ b ∷ rest) =
    largest_gap (if ltb best (gap a b) then gap a b else best) (b ∷ rest)

pub find_largest_free_area : List Area → ℕ
unfolding largest_gap last_end
find_largest_free_area [] = user_end - user_start
find_largest_free_area (a ∷ rest) =
    let first : ℕ = if ltb user_start a.start_addr then a.start_addr - user_start else 0 in
    let inner = largest_gap first (a ∷ rest) in
    if ltb (last_end a rest) user_end
    then (if ltb inner (user_end - last_end a rest) then user_end - last_end a rest else inner)
    else inner
