-- ===== src/Fs/MemFile/Tests.antt =====
-- The theorems about files in memory (kernel/fs/memfs.cpp) at a concrete input.
use wandos.Base.{◌≡◌, refl, arith, [], ◌∷◌, ◌++◌, replicate, take, drop}
use wandos.Fs.MemFile.{MemFile, read, write}
use wandos.Fs.MemFile.Laws.{IsValid, contents, write_lem, read-write}

abbrev three : MemFile
three = record { bytes = 1 ∷ 2 ∷ 3 ∷ []; size = 3; capacity = 3 }

three-IsValid : IsValid three
three-IsValid = record { room = refl; used = omega arith }

write_lem_example :
    let r = write (replicate 8 0) three 2 (7 ∷ 8 ∷ []) 2 in
    (contents r.0 ≡ take 2 (contents three) ++ (7 ∷ 8 ∷ []) ++ drop 4 (contents three))
    × (r.1 ≡ 4)
    × IsValid r.0
write_lem_example =
    write_lem (replicate 8 0) three 2 (7 ∷ 8 ∷ []) three-IsValid (omega arith) (omega arith) refl

read-write_example :
    read (write (replicate 8 0) three 2 (7 ∷ 8 ∷ []) 2).0 2 (0 ∷ 0 ∷ []) 2 ≡ (2, 7 ∷ 8 ∷ [], 4)
read-write_example =
    read-write (replicate 8 0) three 2 (7 ∷ 8 ∷ []) (0 ∷ 0 ∷ []) three-IsValid (omega arith)
      (omega arith) refl (omega arith) refl
