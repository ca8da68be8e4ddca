-- ===== src/Fs/Vfs/Tests.antt =====
-- Runs of the model of the mount table (kernel/fs/vfs.cpp), and its theorem at a concrete input.
use wandos.Base.{none, true, arith, [], ◌∷◌, List, ℕ}
use wandos.Fs.Vfs.{MountPoint, find_fs}
use wandos.Fs.Vfs.Mounts.{Search, find_fs_lem}

-- "/" with the file system 1, and "/dev" with 2.
abbrev mounts : List MountPoint
mounts =
    record { fs = 1; path = b'/' ∷ 0 ∷ []; used = true }
    ∷ record { fs = 2; path = b'/' ∷ b'd' ∷ b'e' ∷ b'v' ∷ 0 ∷ []; used = true }
    ∷ []

-- "/devices"
abbrev devices : List ℕ
devices = b'/' ∷ b'd' ∷ b'e' ∷ b'v' ∷ b'i' ∷ b'c' ∷ b'e' ∷ b's' ∷ 0 ∷ []

find_fs_lem_example : Search devices 0 none mounts (find_fs mounts devices)
find_fs_lem_example = find_fs_lem mounts devices (omega arith, (omega arith, tt))
