-- ===== src/Memory/Paging/Writes.antt =====
-- Reading a page table after an entry is written (kernel/memory/paging.cpp).
use wandos.Base.{ℕ, ◌≡◌, ◌≢◌, arith}
use wandos.Memory.Paging.{Tables, write}

pub write_ne : (mem : Tables) (a i e b j : ℕ) → a ≢ b → write mem a i e b j ≡ mem b j
write_ne mem a i e b j n = ground (arith, n)

pub write_self : (mem : Tables) (a i e : ℕ) → write mem a i e a i ≡ e
write_self mem a i e = ground arith

pub write_index : (mem : Tables) (a i e b j : ℕ) → i ≢ j → write mem a i e b j ≡ mem b j
write_index mem a i e b j n = ground (arith, n)
