-- ===== src/Drivers/RamDisk.antt =====
-- drivers/block_device.cpp, class RamDisk: a disk in memory. A buffer that is a null pointer is `none`.
use wandos.Base.{
  ℕ, ◌*◌, ◌/◌, ◌%◌, ◌^◌, Bool, true, false, ◌||◌, Option, none, some, List, ◌++◌, leb,
  if◌then◌else◌, replicate, take, drop,
}
use wandos.Text.Memory.{memcpy, memset}
pub mod Laws
pub mod Tests

pub record BlockDeviceInfo : Type 0 where
  pub sector_size : ℕ
  pub total_sectors : ℕ
  pub read_only : Bool

pub record RamDisk : Type 0 where
  pub disk_data : List ℕ
  pub info : BlockDeviceInfo

-- The constructor; `fresh` is what `new` returns.
pub init : ℕ → List ℕ → RamDisk
init size_in_bytes fresh = record {
  disk_data = memset fresh 0 size_in_bytes;
  info = record { sector_size = 512; total_sectors = size_in_bytes / 512; read_only = false };
}

-- `block_num * info.sector_size`, which wraps.
abbrev pub sector_offset : RamDisk → ℕ → ℕ
sector_offset d block_num = block_num * d.info.sector_size % 2 ^ 32

-- The result and the buffer afterwards.
unfoldable pub read_block : RamDisk → ℕ → Option (List ℕ) → Bool × Option (List ℕ)
read_block d block_num none = (false, none)
read_block d block_num (some buffer) =
    if leb d.info.total_sectors block_num then (false, some buffer) else (
      true,
      some (memcpy buffer (drop (sector_offset d block_num) d.disk_data) d.info.sector_size),
    )

pub write_block : RamDisk → ℕ → Option (List ℕ) → Bool × RamDisk
write_block d block_num none = (false, d)
write_block d block_num (some buffer) =
    if leb d.info.total_sectors block_num || d.info.read_only then (false, d) else (
      true,
      record d {
        disk_data =
            take (sector_offset d block_num) d.disk_data
            ++ memcpy (drop (sector_offset d block_num) d.disk_data) buffer d.info.sector_size;
      },
    )
