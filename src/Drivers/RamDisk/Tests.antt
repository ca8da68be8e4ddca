-- ===== src/Drivers/RamDisk/Tests.antt =====
-- A run of the model of RamDisk, and its theorem at a concrete input.
use wandos.Base.{◌≡◌, true, false, some, [], ◌∷◌, refl, arith}
use wandos.Drivers.RamDisk.{RamDisk, read_block, write_block}
use wandos.Drivers.RamDisk.Laws.{read_block-write_block}

-- Two sectors of two bytes.
abbrev small : RamDisk
small = record {
  disk_data = 1 ∷ 2 ∷ 3 ∷ 4 ∷ [];
  info = record { sector_size = 2; total_sectors = 2; read_only = false };
}

read_block-write_block_example :
    ((write_block small 1 (some (8 ∷ 9 ∷ []))).0 ≡ true)
    × (read_block (write_block small 1 (some (8 ∷ 9 ∷ []))).1 1 (some (0 ∷ 0 ∷ []))
        ≡ (true, some (8 ∷ 9 ∷ [])))
read_block-write_block_example =
    read_block-write_block small 1 (8 ∷ 9 ∷ []) (0 ∷ 0 ∷ []) refl (omega arith) (omega arith) refl
      refl
