-- ===== src/Drivers/RamDisk/Laws.antt =====
-- RamDisk (drivers/block_device.cpp): a block that was written is read back.
use wandos.Base.{ℕ, ◌+◌, ◌≤◌, ◌<◌, ◌≡◌, true, false, some, List, arith, length, ap, refl, leb}
use wandos.Text.Memory.Laws.{memcpy_back}
use wandos.Drivers.RamDisk.{RamDisk, read_block, write_block, sector_offset}

-- On a disk that can be written, whose data hold the block, both calls succeed, and `read_block` of
-- the block that `write_block` has just written gives the same bytes.
pub read_block-write_block :
    (d : RamDisk) (k : ℕ) (buf out : List ℕ)
    → d.info.read_only ≡ false
    → k < d.info.total_sectors
    → sector_offset d k + d.info.sector_size ≤ length d.disk_data
    → length buf ≡ d.info.sector_size
    → length out ≡ d.info.sector_size
    → ((write_block d k (some buf)).0 ≡ true)
      × (read_block (write_block d k (some buf)).1 k (some out) ≡ (true, some buf))
unfolding read_block write_block
read_block-write_block d k buf out w l r b o =
    let inside : leb d.info.total_sectors k ≡ false = ground arith in
    rw (inside, w)
      (
        refl,
        rw inside (
            ap (λ x. (true, some x))
              (memcpy_back d.disk_data buf out (sector_offset d k) d.info.sector_size r b o)),
      )
