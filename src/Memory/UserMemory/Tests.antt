-- ===== src/Memory/UserMemory/Tests.antt =====
-- Runs of the model of UserMemory, and its theorems at concrete inputs.
use wandos.Base.{
  ℕ, ◌+◌, ◌≤◌, ◌<◌, ◌≡◌, ◌⊎◌, refl, inr, none, some, [], ◌∷◌, ◌++◌, arith, ◌/◌, ◌%◌, ◌^◌, length,
}
use wandos.Memory.UserMemory.{
  UserMemory, max_areas, page_align, allocate_area, find_free_area, find_gap, head_room,
}
use wandos.Memory.UserMemory.Gaps.{IsFree}
use wandos.Memory.UserMemory.Laws.{area, allocate_area_lem, allocate_area_overlaps}

-- Two areas of a page, with one free page between them.
abbrev gapped : UserMemory
gapped = record { areas = area 0x40000000 4096 0 3 ∷ area 0x40002000 4096 0 3 ∷ []; total_vm = 2 }

allocate_area_lem_example :
    ((start : ℕ) × IsFree start (page_align 5000) gapped.areas
      × (length gapped.areas < max_areas)
      × (allocate_area gapped 5000 0 3 ≡ (
        some start,
        record {
          areas = gapped.areas ++ area start (page_align 5000) 0 3 ∷ [];
          total_vm = (2 + page_align 5000 / 4096) % 2 ^ 32;
        },
      )))
    ⊎ ((allocate_area gapped 5000 0 3 ≡ (none, gapped))
        × ((max_areas ≤ length gapped.areas)
            ⊎ ((x : ℕ) → ¬ IsFree x (page_align 5000) gapped.areas)))
allocate_area_lem_example =
    allocate_area_lem gapped 5000 0 3 (omega arith) (omega arith) (omega arith)

-- The page in the gap is given out twice.
overlaps_example :
    ((allocate_area gapped 100 0 3).0 ≡ some 0x40001000)
    × ((allocate_area (allocate_area gapped 100 0 3).1 100 0 3).0 ≡ some 0x40001000)
unfolding find_free_area find_gap head_room
overlaps_example =
    allocate_area_overlaps gapped (area 0x40000000 4096 0 3) (area 0x40002000 4096 0 3 ∷ []) 100 0 3
      0x40001000 refl (inr refl) (omega arith) (omega arith)
