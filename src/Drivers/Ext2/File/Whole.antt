-- ===== src/Drivers/Ext2/File/Whole.antt =====
-- Ext2FileDescriptor::read of drivers/ext2.cpp, its result and its buffer.
use wandos.Base.{
  ap, ℕ, ◌+◌, ◌*◌, ◌-◌, ◌^◌, ◌%◌, min, ◌<◌, ◌≤◌, ◌≡◌, refl, some, List, arith, ltb, if◌then◌else◌,
  length, get_or,
}
use wandos.Base.Int.{pos}
use wandos.Drivers.Ext2.{Device, Ext2, read_inode, file_size}
use wandos.Drivers.Ext2.File.{Cache, Reading, read, read_loop}
use wandos.Drivers.Ext2.File.Read.{direct_blocks, file_byte, Advanced, read_loop_lem}

wrap : (s p : ℕ) → p ≤ s → s < 2 ^ 32 → (s + 2 ^ 32 - p) % 2 ^ 32 ≡ s - p
wrap s p h l = omega arith

read-some :
    {C D : Type 0} (cache : Cache C) (dev : Device D) (d : D) (fs : Ext2) (size m_inode : ℕ)
    (inode : List ℕ) (p n : ℕ) (b : List ℕ) (c : C)
    → read_inode dev d fs m_inode ≡ some inode
    → p ≤ file_size inode
    → file_size inode < 2 ^ 32
    → let k : ℕ = min n (file_size inode - p) in
      let r =
        read_loop cache k size inode k
          (record { buffer = b; position = p; total_read = 0; cache = c }) in
      read cache dev d fs size m_inode p n b c ≡ (pos r.total_read, r)
unfolding read
read-some cache dev d fs size m_inode inode p n b c e h w =
    rw (e, read) (rw (wrap (file_size inode) p h w) refl)

module _ {C : Type 0} (cache : Cache C) (disk : ℕ → List ℕ) (Holds : C → Type 0)
    (gives : (k : ℕ) (c : C)
      → Holds c
      → ((cache.get_page k c).0 ≡ disk k) × Holds (cache.get_page k c).1)
    (size : ℕ) (some_bytes : 1024 ≤ size) (whole : (k : ℕ) → length (disk k) ≡ size) where
  positive : 0 < size
  positive = omega arith

  from_start :
      (inode b : List ℕ) (p n : ℕ) (c : C) (q : Reading C)
      → Advanced cache disk Holds gives size positive whole inode
          (record { buffer = b; position = p; total_read = 0; cache = c })
          n
          q
      → (q.total_read ≡ n)
        × (q.position ≡ p + n)
        × (length q.buffer ≡ length b)
        × ((j : ℕ)
            → get_or q.buffer j 0
              ≡ (if ltb j n then file_byte disk size inode (p + j) else get_or b j 0))
        × Holds q.cache
  unfolding Advanced
  from_start inode b p n c q (p1, t, l, h, f) = (omega arith, p1, l, λ j. ground (arith, f j), h)

  -- read over a cache that gives the pages of a disk, of one size of 1024 bytes at least, and goes
  -- on giving them, of a file that can be read, of less than 2 ^ 32 bytes and of 268 pages at most,
  -- from a place inside it, into an object with room: the result is the number of bytes asked for,
  -- or of those up to the end of the file when they are fewer; the position moves on by as many; that
  -- many bytes of the object are the file's from the position on, whether their pages are among the
  -- twelve of the inode or among the 256 of its first table; no other byte of the object changes, and
  -- the cache still gives the pages.
  pub read_lem :
      {D : Type 0} (dev : Device D) (d : D) (fs : Ext2) (m_inode : ℕ) (inode : List ℕ) (p n : ℕ)
      (b : List ℕ) (c : C)
      → read_inode dev d fs m_inode ≡ some inode
      → p ≤ file_size inode
      → file_size inode < 2 ^ 32
      → file_size inode ≤ direct_blocks * size
      → n ≤ length b
      → Holds c
      → let k : ℕ = min n (file_size inode - p) in
        let got = read cache dev d fs size m_inode p n b c in
        (got.0 ≡ pos k)
        × (got.1.position ≡ p + k)
        × (length got.1.buffer ≡ length b)
        × ((j : ℕ)
            → get_or got.1.buffer j 0
              ≡ (if ltb j k then file_byte disk size inode (p + j) else get_or b j 0))
        × Holds got.1.cache
  read_lem dev d fs m_inode inode p n b c e h w few l hold =
      let k : ℕ = min n (file_size inode - p) in
      let start : Reading C = record { buffer = b; position = p; total_read = 0; cache = c } in
      let r = from_start inode b p k c (read_loop cache k size inode k start) (
        read_loop_lem cache disk Holds gives size positive whole inode k k start (omega arith)
          (omega arith) (omega arith) hold) in
      rw (read-some cache dev d fs size m_inode inode p n b c e h w)
        (ap pos r.0, r.1, r.2, r.3, r.4)
