-- ===== src/Drivers/Ext2/File.antt =====
-- drivers/ext2.cpp, class Ext2FileDescriptor: reading, writing and seeking in a file. The page cache
-- is an interface: `get_page` gives the bytes of a page.
use wandos.Base.{
  ℕ, zero, suc, ◌+◌, ◌-◌, ◌*◌, ◌/◌, ◌%◌, ◌^◌, min, Bool, true, false, ◌||◌, Option, none, some,
  List, ◌++◌, ltb, leb, ◌==◌, if◌then◌else◌, take, drop,
}
use wandos.Base.Int.{ℤ, pos, negsuc}
use wandos.Text.Memory.{memcpy}
use wandos.Drivers.Ext2.{
  Device, Ext2, le32, file_size, mode, blocks, i_block, fresh, read_inode, write_inode,
  allocate_block,
}
pub mod Read
pub mod Whole
pub mod Cached

pub record Cache (C : Type 0) : Type 0 where
  pub get_page : ℕ → C → List ℕ × C

-- The block of the device for a block of a file: direct, over one table, or over two.
pub get_block_id : {C : Type 0} → Cache C → ℕ → List ℕ → C → ℕ × C
get_block_id cache block_idx inode c =
    let single = cache.get_page (i_block inode 12) c in
    let double = cache.get_page (i_block inode 13) c in
    let inner = cache.get_page (le32 double.0 ((block_idx - 268) % 65536 * 4)) double.1 in
    if ltb block_idx 12
    then (i_block inode block_idx, c)
    else if ltb block_idx 268
    then (le32 single.0 ((block_idx - 12) * 4), single.1)
    else if ltb block_idx 65804
    then (le32 inner.0 ((block_idx - 268) % 256 * 4), inner.1)
    else (0, c)

pub record Reading (C : Type 0) : Type 0 where
  pub buffer : List ℕ
  pub position : ℕ
  pub total_read : ℕ
  pub cache : C

-- One round of the loop of `read` for `left` bytes; a device block has `size` bytes.
pub read_round : {C : Type 0} → Cache C → ℕ → List ℕ → ℕ → Reading C → Reading C
unfolding get_block_id
read_round cache size inode left r =
    let block = get_block_id cache (r.position / size) inode r.cache in
    let page = cache.get_page block.0 block.1 in
    let offset : ℕ = r.position % size in
    let copy_size = min (size - offset) left in
    record {
      buffer =
          take r.total_read r.buffer
          ++ memcpy (drop r.total_read r.buffer) (drop offset page.0) copy_size;
      position = r.position + copy_size;
      total_read = r.total_read + copy_size;
      cache = page.1;
    }

pub read_loop : {C : Type 0} → Cache C → ℕ → ℕ → List ℕ → ℕ → Reading C → Reading C
unfolding read_round
read_loop cache zero size inode left r = r
read_loop cache (suc fuel) size inode left r =
    let rest =
      read_loop cache fuel size inode (left - min (size - r.position % size) left)
        (read_round cache size inode left r) in
    if left == 0 then r else rest

-- The result and what is left by a read of at most `size` bytes; a device block has `block_size`
-- bytes, and each round of the loop reads one byte at least.
unfoldable pub read :
    {C D : Type 0} → Cache C → Device D → D → Ext2 → ℕ → ℕ → ℕ → ℕ → List ℕ → C → ℤ × Reading C
unfolding read_loop read_inode
read {C} cache dev d fs block_size m_inode position size buffer c =
    let start : Reading C = record {
      buffer = buffer;
      position = position;
      total_read = 0;
      cache = c;
    } in
    elim (read_inode dev d fs m_inode) [
      | none ↦ (negsuc 0, start)
      | some inode ↦
          let n = min size ((file_size inode + 2 ^ 32 - position) % 2 ^ 32) in
          let r = read_loop cache n block_size inode n start in (pos r.total_read, r)
    ]

-- The result and the position afterwards. An offset of 2 ^ 31 or more is negative as an `off_t`.
unfoldable pub seek : {D : Type 0} → Device D → D → Ext2 → ℕ → ℕ → ℕ → ℤ × ℕ
unfolding read_inode
seek dev d fs m_inode position offset = elim (read_inode dev d fs m_inode) [
  | none ↦ (pos 0, position)
  | some inode ↦
      if leb (2 ^ 31) offset || ltb (file_size inode) offset
      then (negsuc 0, position)
      else (pos offset, offset)
]
