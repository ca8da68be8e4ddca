-- ===== src/Fs/Descriptors.antt =====
-- kernel/fs/vfs.cpp: the system calls on files, `sys_open` to `sys_seek`, and `Context::allocate_fd` of
-- kernel/process/process.cpp. An open file is a pointer, a number here; its virtual functions are a
-- record of operations on some state `S`. Descriptors that a caller passes are unsigned.
use wandos.Base.{
  ℕ, ◌+◌, Bool, true, false, Option, none, some, List, leb, if◌then◌else◌, replicate, set, get_or,
}
use wandos.Base.Int.{ℤ, pos, negsuc}
pub mod Laws
pub mod Tests

abbrev pub max_process_fds : ℕ
max_process_fds = 256

-- The part of `struct Context` that is about files.
pub record Context : Type 0 where
  pub fd_table : List (Option ℕ)
  pub next_fd : ℕ

abbrev pub new_context : Context
new_context = record { fd_table = replicate max_process_fds none; next_fd = 3 }

pub allocate_fd : Context → ℕ × Context
allocate_fd c = (c.next_fd, record c { next_fd = c.next_fd + 1 })

-- `open_file` is `VFSManager::open` of the path. There is no test of the number that `allocate_fd`
-- gives: the write past the table, which hits what is behind it, changes nothing here.
pub sys_open : {S : Type 0} → (S → Option ℕ × S) → Context → S → ℤ × Context × S
unfolding allocate_fd
sys_open open_file c s =
    let r = open_file s in
    elim r.0 [
      | none ↦ (negsuc 0, c, r.1)
      | some fd ↦
          let a = allocate_fd c in
          (pos a.0, record a.1 { fd_table = set a.1.fd_table a.0 (some fd) }, r.1)
    ]

-- The file of a descriptor; `none` if the number is 256 or more, or its entry is null.
pub file_of : Context → ℕ → Option ℕ
file_of c fd_num = if leb max_process_fds fd_num then none else get_or c.fd_table fd_num none

-- The virtual functions of FileDescriptor, with the bytes that are read. What `close` returns is the
-- result of `sys_close`, whatever it is.
pub record FileDescriptor (S : Type 0) : Type 0 where
  pub read : ℕ → ℕ → S → ℤ × List ℕ × S
  pub write : ℕ → List ℕ → S → ℤ × S
  pub seek : ℕ → ℕ → S → ℤ × S
  pub close : ℕ → S → ℤ × S

module _ {S : Type 0} (ops : FileDescriptor S) where
  -- The bytes are `none` where the buffer is not touched.
  pub sys_read : ℕ → ℕ → Context → S → ℤ × Option (List ℕ) × S
  unfolding file_of
  sys_read fd_num size c s = elim (file_of c fd_num) [
    | none ↦ (negsuc 0, none, s)
    | some fd ↦ let r = ops.read fd size s in (r.0, some r.1, r.2)
  ]

  pub sys_write : ℕ → List ℕ → Context → S → ℤ × S
  unfolding file_of
  sys_write fd_num buffer c s = elim (file_of c fd_num) [
    | none ↦ (negsuc 0, s)
    | some fd ↦ ops.write fd buffer s
  ]

  pub sys_seek : ℕ → ℕ → Context → S → ℤ × S
  unfolding file_of
  sys_seek fd_num offset c s = elim (file_of c fd_num) [
    | none ↦ (negsuc 0, s)
    | some fd ↦ ops.seek fd offset s
  ]

  pub sys_close : ℕ → Context → S → ℤ × Context × S
  unfolding file_of
  sys_close fd_num c s = elim (file_of c fd_num) [
    | none ↦ (negsuc 0, c, s)
    | some fd ↦
        let r = ops.close fd s in (r.0, record c { fd_table = set c.fd_table fd_num none }, r.1)
  ]
