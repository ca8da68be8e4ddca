-- ===== src/Drivers/Ext2.antt =====
-- drivers/ext2.cpp, class Ext2FileSystem: inodes and blocks on a block device. The structures on the
-- disk are the lists of their bytes, and a field is read at its offset, the lowest byte first.
use wandos.Base.{
  ℕ, zero, suc, ◌+◌, ◌-◌, ◌*◌, ◌/◌, ◌%◌, ◌^◌, Bool, true, false, not, ◌&&◌, ◌||◌, Option, none,
  some, List, [], ◌∷◌, ◌++◌, ltb, ◌==◌, if◌then◌else◌, get_or, take, drop, replicate,
}
use wandos.Text.Memory.{memcpy}
pub mod Allocation
pub mod File
pub mod Tests

-- A block device in some state: `read_block` gives its result and the buffer afterwards. DiskDevice,
-- whose blocks have 4096 bytes, writes behind the 512 of the buffers that `write_inode`
-- and `allocate_block` pass, where there are no bytes here; RamDisk fills them.
pub record Device (D : Type 0) : Type 0 where
  pub sector_size : ℕ
  pub read_block : D → ℕ → List ℕ → Bool × List ℕ
  pub write_block : D → ℕ → List ℕ → Bool × D

abbrev pub le16 : List ℕ → ℕ → ℕ
le16 bytes at = get_or bytes at 0 + 256 * get_or bytes (at + 1) 0

abbrev pub le32 : List ℕ → ℕ → ℕ
le32 bytes at = le16 bytes at + 65536 * le16 bytes (at + 2)

-- The super block, the descriptor of the first group, and the inode of the directory last opened.
pub record Ext2 : Type 0 where
  pub super_block : List ℕ
  pub group_desc : List ℕ
  pub root_inodes : List ℕ
  pub current_dir_inode : ℕ

-- The fields of a super block.
abbrev pub inodes_count : List ℕ → ℕ
inodes_count sb = le32 sb 0

abbrev pub blocks_count : List ℕ → ℕ
blocks_count sb = le32 sb 4

abbrev pub first_data_block : List ℕ → ℕ
first_data_block sb = le32 sb 20

abbrev pub block_size : List ℕ → ℕ
block_size sb = 1024 * 2 ^ le32 sb 24 % 2 ^ 32

abbrev pub magic : List ℕ → ℕ
magic sb = le16 sb 56

abbrev pub inode_size : List ℕ → ℕ
inode_size sb = le16 sb 88

abbrev pub bg_inode_table : List ℕ → ℕ
bg_inode_table desc = le32 desc 8

-- The fields of an inode of `sizeof_inode` bytes.
abbrev pub sizeof_inode : ℕ
sizeof_inode = 128

abbrev pub mode : List ℕ → ℕ
mode inode = le16 inode 0

abbrev pub file_size : List ℕ → ℕ
file_size inode = le32 inode 4

abbrev pub blocks : List ℕ → ℕ
blocks inode = le32 inode 28

abbrev pub i_block : List ℕ → ℕ → ℕ
i_block inode i = le32 inode (40 + 4 * i)

-- The first `n` bytes at an offset of a buffer.
abbrev pub copied : List ℕ → ℕ → ℕ → List ℕ
copied buffer at n = take n (drop at buffer)

-- `new uint8_t[n]` does not set its bytes; they are taken as 0.
abbrev pub fresh : ℕ → List ℕ
fresh n = replicate n 0

-- `super_block_offset` is 1024; blocks have 4096 bytes here.
pub read_super_block : {D : Type 0} → Device D → D → Ext2 → Bool × Ext2
read_super_block dev d fs =
    let first = dev.read_block d 0 (fresh 4096) in
    let sb = copied first.1 1024 1024 in
    let second = dev.read_block d ((first_data_block sb + 1) % 2 ^ 32) (fresh 4096) in
    let desc = copied second.1 0 32 in
    let third = dev.read_block d (bg_inode_table desc) (fresh 4096) in
    let root_offset : ℕ = 1 % (4096 / inode_size sb) * inode_size sb in
    if not first.0
    then (false, fs)
    else if not (magic sb == 0xEF53)
    then (false, record fs { super_block = sb })
    else if not second.0
    then (false, record fs { super_block = sb })
    else if not third.0
    then (false, record fs { super_block = sb; group_desc = desc })
    else (
      true,
      record fs {
        super_block = sb;
        group_desc = desc;
        root_inodes = copied third.1 root_offset sizeof_inode;
      },
    )

pub read_inode : {D : Type 0} → Device D → D → Ext2 → ℕ → Option (List ℕ)
read_inode dev d fs inode_num =
    let sb = fs.super_block in
    let per_block : ℕ = block_size sb / inode_size sb in
    let block_num : ℕ = ((inode_num - 1) / per_block + bg_inode_table fs.group_desc) % 2 ^ 32 in
    let offset : ℕ = (inode_num - 1) % per_block in
    let r = dev.read_block d block_num (fresh (block_size sb)) in
    if inode_num == 0 || ltb (inodes_count sb) inode_num
    then none
    else if r.0
    then some (copied r.1 (offset * inode_size sb) sizeof_inode)
    else none

-- The block of the device that `write_inode` writes.
abbrev pub write_block_num : {D : Type 0} → Device D → Ext2 → ℕ → ℕ
write_block_num dev fs inode_num =
    ((inode_num - 1) / (dev.sector_size / sizeof_inode) + first_data_block fs.super_block) % 2 ^ 32

pub write_inode : {D : Type 0} → Device D → D → Ext2 → ℕ → List ℕ → Bool × D
write_inode dev d fs inode_num inode =
    let offset : ℕ = (inode_num - 1) % (dev.sector_size / sizeof_inode) * sizeof_inode in
    let r = dev.read_block d (write_block_num dev fs inode_num) (fresh dev.sector_size) in
    if inode_num == 0 || ltb (inodes_count fs.super_block) inode_num
    then (false, d)
    else if r.0
    then dev.write_block d (write_block_num dev fs inode_num)
        (take offset r.1 ++ memcpy (drop offset r.1) inode sizeof_inode)
    else (false, d)

-- Whether the first `n` bytes are 0.
pub all_zero : ℕ → List ℕ → Bool
all_zero zero bytes = true
all_zero (suc n) bytes = get_or bytes 0 0 == 0 && all_zero n (drop 1 bytes)

-- `n` rounds of the loop of `allocate_block`, from the block `i` on; 0 for none. The buffer stays
-- from one round to the next.
pub find_block : {D : Type 0} → Device D → D → ℕ → ℕ → List ℕ → ℕ
find_block dev d zero i buffer = 0
find_block dev d (suc n) i buffer =
    let r = dev.read_block d i buffer in
    let rest = find_block dev d n (i + 1) r.1 in
    if r.0 && all_zero dev.sector_size r.1 then i else rest

pub allocate_block : {D : Type 0} → Device D → D → Ext2 → ℕ
unfolding find_block all_zero
allocate_block dev d fs =
    find_block dev d (blocks_count fs.super_block - first_data_block fs.super_block)
      (first_data_block fs.super_block) (fresh dev.sector_size)

abbrev pub is_free_inode : Option (List ℕ) → Bool
is_free_inode none = false
is_free_inode (some inode) = mode inode == 0

-- `n` rounds of the loop of `allocate_inode`, from `i` on.
pub find_inode : {D : Type 0} → Device D → D → Ext2 → ℕ → ℕ → ℕ
find_inode dev d fs zero i = 0
find_inode dev d fs (suc n) i =
    let rest = find_inode dev d fs n (i + 1) in
    if is_free_inode (read_inode dev d fs i) then i else rest

pub allocate_inode : {D : Type 0} → Device D → D → Ext2 → ℕ
unfolding find_inode read_inode
allocate_inode dev d fs = find_inode dev d fs (inodes_count fs.super_block) 1
