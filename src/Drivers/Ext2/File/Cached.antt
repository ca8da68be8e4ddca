-- ===== src/Drivers/Ext2/File/Cached.antt =====
-- Ext2FileDescriptor::read of drivers/ext2.cpp with the cache that Ext2FileSystem makes, a
-- SimplePageCache (kernel/fs/SimplePageCache.cpp).
use wandos.Base.{
  ℕ, ◌+◌, ◌*◌, ◌-◌, ◌%◌, ◌^◌, min, ◌<◌, ◌≤◌, ◌≡◌, some, List, ltb, if◌then◌else◌, length, get_or,
}
use wandos.Base.Int.{pos}
use wandos.Fs.PageCache
use wandos.Fs.PageCache.{PageCache}
use wandos.Fs.PageCache.Inv.{KeepsLength}
use wandos.Fs.PageCache.Clean.{Clean, bytes_of, get_page-bytes, get_page-Clean, length-disk}
use wandos.Drivers.Ext2.{Device, Ext2, read_inode, file_size}
use wandos.Drivers.Ext2.File.{Cache, read}
use wandos.Drivers.Ext2.File.Read.{direct_blocks, file_byte}
use wandos.Drivers.Ext2.File.Whole.{read_lem}

-- `raw` are the bytes of a new page before the device has filled it.
abbrev pub simple_page_cache : (ℕ → List ℕ → List ℕ) → List ℕ → Cache PageCache
simple_page_cache block raw = record {
  get_page =
      λ k c. (bytes_of (PageCache.get_page block c k raw).0, (PageCache.get_page block c k raw).1);
}

-- read through a page cache that no one has written to, with pages of 1024 bytes at least, over a
-- device that gives the same block at every try, of a file that can be read, of less than 2 ^ 32
-- bytes and of 268 pages at most, from a place inside it, into an object with room: the result is the
-- number of bytes asked for, or of those up to the end of the file when they are fewer; that many
-- bytes of the object are those that the disk has for the file from the position on, whether their
-- pages were in the cache or not; no other byte of the object changes, and every page of the cache
-- still has what the disk has.
pub read-simple_page_cache :
    {D : Type 0} (block : ℕ → List ℕ → List ℕ) (disk : ℕ → List ℕ) (raw : List ℕ) (dev : Device D)
    (d : D) (fs : Ext2) (m_inode : ℕ) (inode : List ℕ) (p n : ℕ) (b : List ℕ) (c : PageCache)
    → KeepsLength block
    → ((k : ℕ) → block k raw ≡ disk k)
    → 1024 ≤ length raw
    → Clean disk (length raw) c
    → read_inode dev d fs m_inode ≡ some inode
    → p ≤ file_size inode
    → file_size inode < 2 ^ 32
    → file_size inode ≤ direct_blocks * length raw
    → n ≤ length b
    → let k : ℕ = min n (file_size inode - p) in
      let got = read (simple_page_cache block raw) dev d fs (length raw) m_inode p n b c in
      (got.0 ≡ pos k)
      × Clean disk (length raw) got.1.cache
      × ((j : ℕ)
          → get_or got.1.buffer j 0 ≡ (
              if ltb j k
              then file_byte (λ i. disk (i % 2 ^ 32)) (length raw) inode (p + j)
              else get_or b j 0))
read-simple_page_cache block disk raw dev d fs m_inode inode p n b c keeps reads some_bytes v e h w
      few l =
    let r =
      read_lem (simple_page_cache block raw) (λ i. disk (i % 2 ^ 32))
        (λ c'. Clean disk (length raw) c')
        (λ k c' u. (
          get_page-bytes block disk raw keeps reads c' k u,
          get_page-Clean block disk raw keeps reads c' k u,
        ))
        (length raw) some_bytes (λ k. length-disk block disk raw keeps reads (k % 2 ^ 32)) dev d fs
        m_inode inode p n b c e h w few l v in
    (r.0, r.4, r.3)
