-- ===== src/Fs/Vfs.antt =====
-- kernel/fs/vfs.cpp: the mount table and VFSManager. What a file system does stands behind virtual
-- functions: it is a record of operations on some state `S`. A file system and an open file are
-- pointers, numbers here.
use wandos.Base.{
  ℕ, zero, suc, ◌-◌, Bool, true, false, not, ◌&&◌, Option, none, some, List, [], ◌∷◌, ltb, ◌==◌,
  if◌then◌else◌, drop, replicate, set, is_some,
}
use wandos.Base.Int.{ℤ, pos, negsuc}
use wandos.Text.CString.{strlen, strncmp, strncpy, strcpy}
pub mod Mounts
pub mod Tests

pub record MountPoint : Type 0 where
  pub fs : ℕ
  pub path : List ℕ
  pub used : Bool

-- `sizeof(mount_points[i].path)`
abbrev pub path_size : ℕ
path_size = 256

abbrev pub max_mount_points : ℕ
max_mount_points = 16

-- The table before any file system is registered.
pub init_vfs : List MountPoint
init_vfs =
    replicate max_mount_points (record { fs = 0; path = replicate path_size 0; used = false })

-- `ret == 0`
abbrev pub is_zero : ℤ → Bool
is_zero (pos zero) = true
is_zero (pos (suc n)) = false
is_zero (negsuc n) = false

-- What `find_fs` returns: the file system, and the path behind the mount point.
pub record Found : Type 0 where
  pub fs : ℕ
  pub remaining_path : List ℕ

-- The test of a round, with `longest_match`.
abbrev pub improves : MountPoint → List ℕ → ℕ → Bool
improves m path longest_match =
    m.used && is_zero (strncmp path m.path (strlen m.path)) && ltb longest_match (strlen m.path)

-- The loop of `find_fs`.
pub find_from : List MountPoint → List ℕ → ℕ → Option Found → Option Found
find_from [] path longest_match matched_fs = matched_fs
find_from (m ∷ ms) path longest_match matched_fs =
    find_from ms path (if improves m path longest_match then strlen m.path else longest_match) (
      if improves m path longest_match
      then some (record { fs = m.fs; remaining_path = drop (strlen m.path) path })
      else matched_fs)

pub find_fs : List MountPoint → List ℕ → Option Found
unfolding find_from
find_fs ms path = find_from ms path 0 none

-- `register_fs`: the first free entry. With none free it only prints a message.
pub register_fs : List MountPoint → List ℕ → ℕ → List MountPoint
register_fs [] mount_point fs = []
register_fs (m ∷ ms) mount_point fs =
    let rest = register_fs ms mount_point fs in
    if m.used
    then m ∷ rest
    else record { fs = fs; path = strncpy m.path mount_point (path_size - 1); used = true } ∷ ms

-- FT_DIR of `enum FileType`.
abbrev pub ft_dir : ℕ
ft_dir = 2

-- The virtual functions of `FileSystem`; `fs` says which object is called. `open` gives a null
-- pointer as `none`, and `stat` the type of the file where it returns 0.
pub record FileSystem (S : Type 0) : Type 0 where
  pub open_file : ℕ → List ℕ → S → Option ℕ × S
  pub stat : ℕ → List ℕ → S → Option ℕ
  pub mkdir : ℕ → List ℕ → S → ℤ × S
  pub unlink : ℕ → List ℕ → S → ℤ × S
  pub rmdir : ℕ → List ℕ → S → ℤ × S

-- The functions of VFSManager pass the call on to the file system that is found.
module _ {S : Type 0} (ops : FileSystem S) (ms : List MountPoint) where
  pub vfs_open : List ℕ → S → Option ℕ × S
  vfs_open path s = elim (find_fs ms path) [
    | none ↦ (none, s)
    | some f ↦ ops.open_file f.fs f.remaining_path s
  ]

  pub vfs_stat : List ℕ → S → Option ℕ
  vfs_stat path s = elim (find_fs ms path) [
    | none ↦ none
    | some f ↦ ops.stat f.fs f.remaining_path s
  ]

  pub vfs_mkdir : List ℕ → S → ℤ × S
  vfs_mkdir path s = elim (find_fs ms path) [
    | none ↦ (negsuc 0, s)
    | some f ↦ ops.mkdir f.fs f.remaining_path s
  ]

  pub vfs_unlink : List ℕ → S → ℤ × S
  vfs_unlink path s = elim (find_fs ms path) [
    | none ↦ (negsuc 0, s)
    | some f ↦ ops.unlink f.fs f.remaining_path s
  ]

  pub vfs_rmdir : List ℕ → S → ℤ × S
  vfs_rmdir path s = elim (find_fs ms path) [
    | none ↦ (negsuc 0, s)
    | some f ↦ ops.rmdir f.fs f.remaining_path s
  ]

  -- The result, the `cwd` of the task and `current_working_directory` afterwards.
  pub vfs_chdir : List ℕ → S → List ℕ → List ℕ → ℤ × List ℕ × List ℕ
  vfs_chdir path s cwd current_working_directory = elim (vfs_stat path s) [
    | none ↦ (negsuc 0, cwd, current_working_directory)
    | some type ↦
        if type == ft_dir
        then (
          pos 0,
          set (strncpy cwd path (path_size - 1)) (path_size - 1) 0,
          strcpy current_working_directory path,
        )
        else (negsuc 0, cwd, current_working_directory)
  ]
