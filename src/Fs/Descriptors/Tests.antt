-- ===== src/Fs/Descriptors/Tests.antt =====
-- The theorems about open files (kernel/fs/vfs.cpp) at concrete inputs.
use wandos.Base.{
  ℕ, suc, ◌≡◌, ◌≢◌, refl, arith, Option, none, some, [], get_or-replicate, length-replicate,
}
use wandos.Base.Int.{pos}
use wandos.Fs.Descriptors.{Context, new_context, sys_open, file_of, FileDescriptor, sys_close}
use wandos.Fs.Descriptors.Laws.{IsValid, sys_open_lem, sys_close_lem}

-- The state counts the files that were opened, and each gets the next number.
abbrev open_next : ℕ → Option ℕ × ℕ
open_next s = (some (suc s), suc s)

abbrev ops : FileDescriptor ℕ
ops = record {
  read = λ fd size s. (pos 0, [], s);
  write = λ fd buffer s. (pos 0, s);
  seek = λ fd offset s. (pos 0, s);
  close = λ fd s. (pos 0, s);
}

new_context-IsValid : IsValid new_context
new_context-IsValid = record {
  table = length-replicate {A = Option ℕ} 256 none;
  above = λ i h. get_or-replicate 256 i none;
}

abbrev one_open : Context
one_open = (sys_open open_next new_context 7).1

sys_open_lem_example :
    let r = sys_open open_next new_context 7 in
    (r.0 ≡ pos 3)
    × (file_of new_context 3 ≡ none)
    × (file_of r.1 3 ≡ some 8)
    × ((j : ℕ) → j ≢ 3 → file_of r.1 j ≡ file_of new_context j)
    × IsValid r.1
sys_open_lem_example = sys_open_lem open_next new_context 7 8 new_context-IsValid refl (omega arith)

one_open-IsValid : IsValid one_open
one_open-IsValid = (sys_open_lem open_next new_context 7 8 new_context-IsValid refl (omega arith)).4

is_open : file_of one_open 3 ≡ some 8
is_open = (sys_open_lem open_next new_context 7 8 new_context-IsValid refl (omega arith)).2

sys_close_lem_example :
    let r = sys_close ops 3 one_open 8 in
    (r.0 ≡ pos 0)
    × (file_of r.1 3 ≡ none)
    × ((j : ℕ) → j ≢ 3 → file_of r.1 j ≡ file_of one_open j)
    × (r.1.next_fd ≡ one_open.next_fd)
    × IsValid r.1
sys_close_lem_example = sys_close_lem ops 3 one_open 8 8 one_open-IsValid is_open

-- All numbers have been given out, and all files closed.
abbrev all_used : Context
all_used = record new_context { next_fd = 256 }
