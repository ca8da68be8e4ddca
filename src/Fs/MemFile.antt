-- ===== src/Fs/MemFile.antt =====
-- kernel/fs/memfs.cpp, class MemFSFileDescriptor: reading and writing a file in memory. The file is the
-- part of its inode that is about the data; each call takes the descriptor's offset and gives the new one.
use wandos.Base.{
  ℕ, ◌+◌, ◌-◌, ◌*◌, ◌%◌, ◌^◌, Bool, true, false, List, ◌++◌, ltb, leb, if◌then◌else◌, take, drop,
}
use wandos.Base.Int.{ℤ, pos, negsuc}
use wandos.Text.Memory.{memcpy}
pub mod Laws
pub mod Tests

-- `data`, of `capacity` bytes, of which `size` are in use. A null pointer is the empty list.
pub record MemFile : Type 0 where
  pub bytes : List ℕ
  pub size : ℕ
  pub capacity : ℕ

-- The result, the buffer and the offset afterwards.
pub read : MemFile → ℕ → List ℕ → ℕ → ℕ × List ℕ × ℕ
read f offset buffer size =
    if leb f.size offset
    then (0, buffer, offset)
    else let remaining = f.size - offset in
      let read_size = if ltb size remaining then size else remaining in
      (read_size, memcpy buffer (drop offset f.bytes) read_size, offset + read_size)

-- The file with room for `needed` bytes; `fresh` is what `new` returns.
pub grown : List ℕ → MemFile → ℕ → MemFile
grown fresh f needed =
    if ltb f.capacity needed
    then record {
      bytes = memcpy fresh f.bytes f.size;
      size = f.size;
      capacity = needed * 2 % 2 ^ 32;
    }
    else f

-- The file and the offset afterwards; the result is `size`.
pub write : List ℕ → MemFile → ℕ → List ℕ → ℕ → MemFile × ℕ
unfolding grown
write fresh f offset buffer size =
    let g = grown fresh f ((offset + size) % 2 ^ 32) in
    let end = (offset + size) % 2 ^ 32 in
    (
      record {
        bytes = take offset g.bytes ++ memcpy (drop offset g.bytes) buffer size;
        size = if ltb g.size end then end else g.size;
        capacity = g.capacity;
      },
      end,
    )

pub seek : MemFile → ℕ → ℕ → ℤ × ℕ
seek f offset new_offset = if ltb f.size new_offset then (negsuc 0, offset) else (pos 0, new_offset)
