-- ===== src/Memory/Paging/Kernel/Direct.antt =====
-- The direct map of the kernel (PageManager::init in kernel/memory/paging.cpp).
use wandos.Base.{
  ℕ, zero, suc, ◌+◌, ◌*◌, ◌<◌, ◌≤◌, ◌≡◌, ◌≢◌, ◌⊎◌, refl, ◌∙◌, inl, inr, Bool-cases, arith, ◌==◌,
  ==_iff,
}
use wandos.Memory.Paging.{Tables, write}
use wandos.Memory.Paging.Writes.{write_ne, write_self, write_index}
use wandos.Memory.Paging.Kernel.{
  page_directory_addr, k_page_table_start, clear_directory, fill_table, map_tables,
}

pub clear_at :
    (n i : ℕ) (mem : Tables) (j : ℕ)
    → (mem page_directory_addr j ≡ 2) ⊎ ((i ≤ j) × (j < i + n))
    → clear_directory n i mem page_directory_addr j ≡ 2
unfolding clear_directory
clear_at zero i mem j (inl e) = e
clear_at zero i mem j (inr (l, u)) = absurd (omega arith)
clear_at (suc n) i mem j h = elim (Bool-cases (i == j)) [
  | inl e ↦
      let same : i ≡ j = (==_iff i j).0 e in
      clear_at n (i + 1) (write mem page_directory_addr i 2) j
        (inl (rw (← same) (write_self mem page_directory_addr i 2)))
  | inr e ↦
      let other : i ≢ j = λ q. cc (e, (==_iff i j).1 q) in
      clear_at n (i + 1) (write mem page_directory_addr i 2) j (elim h [
        | inl old ↦ inl (write_index mem page_directory_addr i 2 page_directory_addr j other ∙ old)
        | inr (l, u) ↦ inr (omega (arith, other), omega arith)
      ])
]

pub fill_other :
    (n i table base flags : ℕ) (mem : Tables) (a j : ℕ)
    → table ≢ a
    → fill_table n i table base flags mem a j ≡ mem a j
unfolding fill_table
fill_other zero i table base flags mem a j d = refl
fill_other (suc n) i table base flags mem a j d =
    fill_other n (i + 1) table base flags (write mem table i (i * 4096 + base + flags)) a j d
    ∙ write_ne mem table i (i * 4096 + base + flags) a j d

fill_before :
    (n i table base flags : ℕ) (mem : Tables) (a j : ℕ)
    → j < i
    → fill_table n i table base flags mem a j ≡ mem a j
unfolding fill_table
fill_before zero i table base flags mem a j l = refl
fill_before (suc n) i table base flags mem a j l =
    fill_before n (i + 1) table base flags (write mem table i (i * 4096 + base + flags)) a j
      (omega arith)
    ∙ write_index mem table i (i * 4096 + base + flags) a j (λ e. absurd (omega arith))

fill_at :
    (n i table base flags : ℕ) (mem : Tables) (j : ℕ)
    → i ≤ j
    → j < i + n
    → fill_table n i table base flags mem table j ≡ j * 4096 + base + flags
unfolding fill_table
fill_at zero i table base flags mem j l u = absurd (omega arith)
fill_at (suc n) i table base flags mem j l u = elim (Bool-cases (i == j)) [
  | inl e ↦
      let same : i ≡ j = (==_iff i j).0 e in
      fill_before n (i + 1) table base flags (write mem table i (i * 4096 + base + flags)) table j
        (omega arith)
      ∙ (rw (← same) (write_self mem table i (i * 4096 + base + flags)))
  | inr e ↦
      let other : i ≢ j = λ q. cc (e, (==_iff i j).1 q) in
      fill_at n (i + 1) table base flags (write mem table i (i * 4096 + base + flags)) j
        (omega (arith, other)) (omega arith)
]

abbrev filled : ℕ → Tables → Tables
filled j mem = fill_table 1024 0 (k_page_table_start + j * 4096) (j * 1024 * 4096) 3 mem

-- The tables of the direct map, one round at a time.
round : ℕ → Tables → Tables
round j mem =
    write (fill_table 1024 0 (k_page_table_start + j * 4096) (j * 1024 * 4096) 3 mem)
      page_directory_addr (j + 768) (k_page_table_start + j * 4096 + 3)

round_other :
    (j : ℕ) (mem : Tables) (a i : ℕ)
    → k_page_table_start + j * 4096 ≢ a
    → page_directory_addr ≢ a
    → round j mem a i ≡ mem a i
unfolding round
round_other j mem a i t d =
    write_ne (filled j mem) page_directory_addr (j + 768) (k_page_table_start + j * 4096 + 3) a i d
    ∙ fill_other 1024 0 (k_page_table_start + j * 4096) (j * 1024 * 4096) 3 mem a i t

round_slot :
    (j : ℕ) (mem : Tables) (s : ℕ)
    → j + 768 ≢ s
    → round j mem page_directory_addr s ≡ mem page_directory_addr s
unfolding round
round_slot j mem s n =
    write_index (filled j mem) page_directory_addr (j + 768) (k_page_table_start + j * 4096 + 3)
      page_directory_addr s n
    ∙ fill_other 1024 0 (k_page_table_start + j * 4096) (j * 1024 * 4096) 3 mem page_directory_addr
        s (λ e. absurd (omega arith))

tables-step :
    (n j : ℕ) (mem : Tables) → map_tables (suc n) j mem ≡ map_tables n (j + 1) (round j mem)
unfolding map_tables round
tables-step n j mem = refl

-- What lies before the tables that are still to be filled is kept.
tables_before :
    (n j : ℕ) (mem : Tables) (q i : ℕ)
    → q < j
    → map_tables n j mem (k_page_table_start + q * 4096) i ≡ mem (k_page_table_start + q * 4096) i
tables_before zero j mem q i l = unfold map_tables in refl
tables_before (suc n) j mem q i l = rw (tables-step n j mem) (
    tables_before n (j + 1) (round j mem) q i (omega arith)
    ∙ round_other j mem (k_page_table_start + q * 4096) i (λ e. absurd (omega arith))
        (λ e. absurd (omega arith)))

pub slots_before :
    (n j : ℕ) (mem : Tables) (s : ℕ)
    → (s < j + 768) ⊎ (j + n + 768 ≤ s)
    → map_tables n j mem page_directory_addr s ≡ mem page_directory_addr s
slots_before zero j mem s h = unfold map_tables in refl
slots_before (suc n) j mem s h =
    let apart : j + 768 ≢ s =
      λ e. elim h [ inl l ↦ absurd (omega arith) | inr l ↦ absurd (omega arith) ] in
    let later : (s < j + 1 + 768) ⊎ (j + 1 + n + 768 ≤ s) = elim h [
      | inl l ↦ inl (omega arith)
      | inr l ↦ inr (omega arith)
    ] in
    rw (tables-step n j mem)
      (slots_before n (j + 1) (round j mem) s later ∙ round_slot j mem s apart)

-- The table `q` of the direct map, and its slot in the directory.
abbrev pub Mapped : Tables → ℕ → ℕ → Type 0
Mapped mem q i =
    (mem (k_page_table_start + q * 4096) i ≡ i * 4096 + q * 1024 * 4096 + 3)
    × (mem page_directory_addr (q + 768) ≡ k_page_table_start + q * 4096 + 3)

round-Mapped : (j : ℕ) (mem : Tables) (i : ℕ) → i < 1024 → Mapped (round j mem) j i
unfolding round
round-Mapped j mem i l =
    let table = k_page_table_start + j * 4096 in
    (
      write_ne (filled j mem) page_directory_addr (j + 768) (table + 3) table i
            (λ e. absurd (omega arith))
          ∙ fill_at 1024 0 table (j * 1024 * 4096) 3 mem i (omega arith) (omega arith),
      write_self (filled j mem) page_directory_addr (j + 768) (table + 3),
    )

pub tables_Mapped :
    (n j : ℕ) (mem : Tables) (q i : ℕ)
    → i < 1024
    → j ≤ q
    → q < j + n
    → Mapped (map_tables n j mem) q i
tables_Mapped zero j mem q i b l u = absurd (omega arith)
tables_Mapped (suc n) j mem q i b l u = elim (Bool-cases (j == q)) [
  | inl e ↦
      let same : j ≡ q = (==_iff j q).0 e in
      let here : Mapped (round j mem) q i = rw (← same) (round-Mapped j mem i b) in
      rw (tables-step n j mem) (
        tables_before n (j + 1) (round j mem) q i (omega arith) ∙ here.0,
        slots_before n (j + 1) (round j mem) (q + 768) (inl (omega arith)) ∙ here.1,
      )
  | inr e ↦
      let other : j ≢ q = λ p. cc (e, (==_iff j q).1 p) in
      rw (tables-step n j mem)
        (tables_Mapped n (j + 1) (round j mem) q i b (omega (arith, other)) (omega arith))
]
