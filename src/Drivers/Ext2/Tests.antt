-- ===== src/Drivers/Ext2/Tests.antt =====
-- The theorems on drivers/ext2.cpp at concrete disks.
use wandos.Base.{
  ℕ, ◌+◌, ◌*◌, ◌%◌, ◌^◌, ◌<◌, ◌≤◌, ◌≡◌, refl, ap, ◌∙◌, true, false, ◌&&◌, Option, none, some, inl,
  inr, Bool-cases, leb, take, drop, length-drop, List, [], ◌∷◌, ◌++◌, arith, ltb, ◌==◌,
  if◌then◌else◌, replicate, length, get_or, drop_all, append-nil, length-replicate,
}
use wandos.Base.Int.{pos, negsuc}
use wandos.Text.Memory.Laws.{memcpy-eq-take-drop, length-memcpy}
use wandos.Drivers.Ext2.{
  Device, Ext2, read_inode, all_zero, allocate_block, allocate_inode, is_free_inode,
}
use wandos.Drivers.Ext2.Allocation.{First, Reads, allocate_lem}
use wandos.Drivers.RamDisk
use wandos.Drivers.RamDisk.{RamDisk}
use wandos.Drivers.Ext2.File.{Cache, read, seek}
use wandos.Drivers.Ext2.File.Read.{file_byte}
use wandos.Fs.PageCache
use wandos.Fs.PageCache.Clean.{Clean, init-Clean}
use wandos.Drivers.Ext2.File.Cached.{simple_page_cache, read-simple_page_cache}
use wandos.Drivers.Ext2.File.Whole.{read_lem}

abbrev Disk : Type 0
Disk = ℕ → List ℕ

-- A super block with 8 inodes of 128 bytes, 6 blocks and the first of the data at 3.
abbrev super : List ℕ
super =
    (8 ∷ 0 ∷ 0 ∷ 0 ∷ 6 ∷ []) ++ (replicate 15 0 ++ ((3 ∷ []) ++ (replicate 67 0 ++ (128 ∷ 0 ∷ []))))

abbrev fs_at : ℕ → Ext2
fs_at table = record {
  super_block = super;
  group_desc = replicate 8 0 ++ (table ∷ []);
  root_inodes = [];
  current_dir_inode = 0;
}

-- A file of 40 bytes in the blocks 20, 21 and 22.
abbrev file : List ℕ
file =
    (0 ∷ 128 ∷ 0 ∷ 0 ∷ 40 ∷ [])
    ++ (replicate 35 0 ++ ((20 ∷ 0 ∷ 0 ∷ 0 ∷ 21 ∷ 0 ∷ 0 ∷ 0 ∷ 22 ∷ []) ++ replicate 79 0))

-- A disk that gives its sectors of 16 bytes whole.
abbrev plain : Device Disk
plain = record {
  sector_size = 16;
  read_block = λ d k out. (true, d k);
  write_block = λ d k b. (true, λ j. if j == k then b else d j);
}

-- The file is the inode 1; every other block has its number in all its bytes.
abbrev disk : Disk
disk k = if k == 3 then file else replicate 16 k

abbrev cache : Cache ℕ
cache = record { get_page = λ k c. (replicate 16 k, c + 1) }

at_end : (read cache plain disk (fs_at 3) 16 1 38 12 (replicate 14 9) 0).0 ≡ pos 2
unfolding read
at_end = refl

no_inode : (read cache plain disk (fs_at 3) 16 0 38 12 [] 0).0 ≡ negsuc 0
unfolding read
no_inode = refl

behind_end : seek plain disk (fs_at 3) 1 7 41 ≡ (negsuc 0, 7)
unfolding seek
behind_end = refl

abbrev big_cache : Cache ℕ
big_cache = record { get_page = λ k c. (replicate 1024 k, c + 1) }

-- A file of 2048 bytes in the blocks 20, 21 and 22.
abbrev big_file : List ℕ
big_file =
    (0 ∷ 128 ∷ 0 ∷ 0 ∷ 0 ∷ 8 ∷ [])
    ++ (replicate 34 0 ++ ((20 ∷ 0 ∷ 0 ∷ 0 ∷ 21 ∷ 0 ∷ 0 ∷ 0 ∷ 22 ∷ []) ++ replicate 79 0))

abbrev big_disk : Disk
big_disk k = if k == 3 then big_file else replicate 16 k

read_lem_example :
    let got = read big_cache plain big_disk (fs_at 3) 1024 1 1020 12 (replicate 14 9) 0 in
    (got.0 ≡ pos 12)
    × (got.1.position ≡ 1032)
    × (length got.1.buffer ≡ 14)
    × ((j : ℕ)
        → get_or got.1.buffer j 0 ≡ (
            if ltb j 12
            then file_byte (replicate 1024) 1024 big_file (1020 + j)
            else get_or (replicate 14 9) j 0))
    × Unit {0}
unfolding read_inode
read_lem_example =
    read_lem big_cache (λ k. replicate 1024 k) (λ c. Unit {0}) (λ k c h. (refl, h)) 1024
      (omega arith) (λ k. length-replicate 1024 k) plain big_disk (fs_at 3) 1 big_file 1020 12
      (replicate 14 9) 0 refl (omega arith) (omega arith) (omega arith) (omega arith) tt

abbrev zeros_at_four : Disk
zeros_at_four k = if k == 4 then replicate 16 0 else if k == 3 then file else replicate 16 k

first_free : allocate_block plain zeros_at_four (fs_at 3) ≡ 4
unfolding allocate_block
first_free = refl

-- A disk in memory of six sectors of 512 bytes, all 0.
abbrev ram : RamDisk
ram = record {
  disk_data = replicate 3072 0;
  info = record { sector_size = 512; total_sectors = 6; read_only = false };
}

abbrev bytes_or : List ℕ → Option (List ℕ) → List ℕ
bytes_or out none = out
bytes_or out (some b) = b

-- RamDisk as the device.
abbrev ram_device : Device RamDisk
ram_device = record {
  sector_size = 512;
  read_block = λ d k out. let r = RamDisk.read_block d k (some out) in (r.0, bytes_or out r.1);
  write_block = λ d k b. RamDisk.write_block d k (some b);
}

abbrev sector_at : ℕ → List ℕ
sector_at k = take 512 (drop (k * 512 % 2 ^ 32) (replicate 3072 0))

in_data : (k : ℕ) → k < 6 → 512 ≤ length (drop (k * 512 % 2 ^ 32) (replicate {A = ℕ} 3072 0))
in_data k l = omega (
  arith,
  length-drop (k * 512 % 2 ^ 32) (replicate {A = ℕ} 3072 0),
  length-replicate {A = ℕ} 3072 0,
)

ram-Reads : Reads ram_device ram (λ k. ltb k 6) sector_at
unfolding RamDisk.read_block
ram-Reads = record {
  result = λ k out l. ground arith;
  bytes = λ k out l e.
      let inside : leb 6 k ≡ false = ground (arith, e) in
      rw inside (
        memcpy-eq-take-drop out (drop (k * 512 % 2 ^ 32) (replicate 3072 0)) 512 (omega arith)
          (in_data k (ground (arith, e)))
        ∙ ap (λ (r : List ℕ). sector_at k ++ r) (drop_all 512 out (omega arith))
        ∙ append-nil (sector_at k));
  keeps = λ k out l. elim (Bool-cases (leb 6 k)) [
    | inl e ↦ rw e l
    | inr e ↦ rw e (length-memcpy out (drop (k * 512 % 2 ^ 32) (replicate 3072 0)) 512 ∙ l)
  ];
}

allocate_lem_example :
    First (λ i. ltb i 6 && all_zero 512 (sector_at i)) 3 3 (allocate_block ram_device ram (fs_at 3))
    × First
        (λ i. is_free_inode (read_inode ram_device ram (fs_at 3) i))
        1
        8
        (allocate_inode ram_device ram (fs_at 3))
allocate_lem_example = allocate_lem ram_device ram (λ k. ltb k 6) sector_at (fs_at 3) ram-Reads

-- The same file through the page cache.
abbrev fill : ℕ → List ℕ → List ℕ
fill k raw = replicate (length raw) k

read-simple_page_cache_example :
    let got =
      read
        (simple_page_cache fill (replicate 1024 0))
        plain
        big_disk
        (fs_at 3)
        1024
        1
        1020
        12
        (replicate 14 9)
        (PageCache.init 1024 100) in
    (got.0 ≡ pos 12)
    × Clean (replicate 1024) 1024 got.1.cache
    × ((j : ℕ)
        → get_or got.1.buffer j 0 ≡ (
            if ltb j 12
            then file_byte (λ i. replicate 1024 (i % 2 ^ 32)) 1024 big_file (1020 + j)
            else get_or (replicate 14 9) j 0))
unfolding read_inode
read-simple_page_cache_example =
    read-simple_page_cache fill (λ k. replicate 1024 k) (replicate 1024 0) plain big_disk (fs_at 3)
      1 big_file 1020 12 (replicate 14 9) (PageCache.init 1024 100)
      (λ k raw. length-replicate (length raw) k) (λ k. refl) (omega arith)
      (init-Clean (λ k. replicate 1024 k) 1024 100) refl (omega arith) (omega arith) (omega arith)
      (omega arith)
