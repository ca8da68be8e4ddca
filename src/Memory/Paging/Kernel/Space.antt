-- ===== src/Memory/Paging/Kernel/Space.antt =====
-- The kernel's address space after PageManager::init (kernel/memory/paging.cpp).
use wandos.Base.{
  ℕ, zero, suc, ◌+◌, ◌-◌, ◌*◌, ◌/◌, ◌%◌, ◌^◌, ◌<◌, ◌≤◌, ◌≡◌, ◌≢◌, ◌⊎◌, refl, ap, ◌∙◌, inl, inr,
  true, false, Bool-cases, arith, if◌then◌else◌,
}
use wandos.Memory.Buddy.{virt2_phys}
use wandos.Memory.Paging.{Tables, write, present, frame, pd_index, pt_index}
use wandos.Memory.Paging.Writes.{write_ne, write_self, write_index}
use wandos.Memory.Paging.Kernel.{
  page_directory_addr, k_first_4m_pt, k_page_table_start, clear_directory, fill_table, map_tables,
  map_apic, map_kernel_space, init,
}
use wandos.Memory.Paging.Kernel.Direct.{clear_at, fill_other, slots_before, tables_Mapped, Mapped}

-- The table of the APIC's pages, for the slot 1019.
abbrev apic_table : ℕ
apic_table = 0x7FD000

-- The slot is free, or leads to that table.
abbrev ApicSlot : Tables → Type 0
ApicSlot mem =
    (present (mem page_directory_addr 1019) ≡ false)
    ⊎ (frame (mem page_directory_addr 1019) ≡ apic_table)

linked : Tables → Tables
linked mem =
    if present (mem page_directory_addr 1019)
    then mem
    else write mem page_directory_addr 1019 (apic_table + 3)

frame-linked :
    (mem : Tables) → ApicSlot mem → frame (linked mem page_directory_addr 1019) ≡ apic_table
unfolding linked
frame-linked mem (inl e) =
    rw e (ap (λ (x : ℕ). frame x) (write_self mem page_directory_addr 1019 (apic_table + 3)))
frame-linked mem (inr e) = elim (Bool-cases (present (mem page_directory_addr 1019))) [
  | inl p ↦ rw p e
  | inr p ↦
      rw p (ap (λ (x : ℕ). frame x) (write_self mem page_directory_addr 1019 (apic_table + 3)))
]

-- What the APIC's pages do not touch.
abbrev Untouched : ℕ → ℕ → Type 0
Untouched a j = (page_directory_addr ≢ a) ⊎ (1019 ≢ j)

linked_other : (mem : Tables) (a j : ℕ) → Untouched a j → linked mem a j ≡ mem a j
unfolding linked
linked_other mem a j u = elim (Bool-cases (present (mem page_directory_addr 1019))) [
  | inl p ↦ rw p refl
  | inr p ↦ elim u [
    | inl d ↦ rw p (write_ne mem page_directory_addr 1019 (apic_table + 3) a j d)
    | inr d ↦ rw p (write_index mem page_directory_addr 1019 (apic_table + 3) a j d)
  ]
]

apic_step :
    (n addr : ℕ) (mem : Tables)
    → addr / 2 ^ 22 ≡ 1019
    → map_apic (suc n) addr mem
      ≡ map_apic n (addr + 0x1000) (
          write
            (linked mem)
            (frame (linked mem page_directory_addr 1019))
            (addr / 2 ^ 12 % 1024)
            (addr + 0x13))
unfolding map_apic linked
apic_step n addr mem e = rw e refl

apic_other :
    (n addr : ℕ) (mem : Tables) (a j : ℕ)
    → 0xFEC00000 ≤ addr
    → addr + n * 4096 ≤ 0xFF000000
    → ApicSlot mem
    → apic_table ≢ a
    → Untouched a j
    → map_apic n addr mem a j ≡ mem a j
apic_other zero addr mem a j l u s t o = unfold map_apic in refl
apic_other (suc n) addr mem a j l u s t o =
    let slot : addr / 2 ^ 22 ≡ 1019 = omega arith in
    let at = addr / 2 ^ 12 % 1024 in
    let there = frame-linked mem s in
    let after = write (linked mem) apic_table at (addr + 0x13) in
    let again : ApicSlot after = inr (
      ap (λ (x : ℕ). frame x)
        (write_ne (linked mem) apic_table at (addr + 0x13) page_directory_addr 1019
          (λ e. absurd (omega arith)))
      ∙ there) in
    rw (apic_step n addr mem slot, there)
      (apic_other n (addr + 0x1000) after a j (omega arith) (omega arith) again t o
        ∙ write_ne (linked mem) apic_table at (addr + 0x13) a j t
        ∙ linked_other mem a j o)

-- The tables before the last loop.
before_apic : Tables → Tables
before_apic mem = map_tables 224 0 (
    fill_table 1024 0 k_first_4m_pt 0 7
      (write (clear_directory 1024 0 mem) page_directory_addr 0 (k_first_4m_pt + 7)))

slot_free : (mem : Tables) → before_apic mem page_directory_addr 1019 ≡ 2
unfolding before_apic
slot_free mem =
    let cleared = clear_directory 1024 0 mem in
    let first = write cleared page_directory_addr 0 (k_first_4m_pt + 7) in
    slots_before 224 0 (fill_table 1024 0 k_first_4m_pt 0 7 first) 1019 (inr (omega arith))
    ∙ fill_other 1024 0 k_first_4m_pt 0 7 first page_directory_addr 1019 (λ e. absurd (omega arith))
    ∙ write_index cleared page_directory_addr 0 (k_first_4m_pt + 7) page_directory_addr 1019
        (λ e. absurd (omega arith))
    ∙ clear_at 1024 0 mem 1019 (inr (omega arith, omega arith))

init-Mapped : (mem : Tables) (q i : ℕ) → q < 224 → i < 1024 → Mapped (init mem) q i
unfolding init map_kernel_space before_apic
init-Mapped mem q i b c =
    let free : ApicSlot (before_apic mem) = inl (rw (slot_free mem) refl) in
    let (page, entry) : Mapped (before_apic mem) q i =
      tables_Mapped 224 0
        (fill_table 1024 0 k_first_4m_pt 0 7
          (write (clear_directory 1024 0 mem) page_directory_addr 0 (k_first_4m_pt + 7)))
        q i c (omega arith) (omega arith) in
    (
      apic_other 768 0xFEC00000 (before_apic mem) (k_page_table_start + q * 4096) i (omega arith)
            (omega arith) free (λ e. absurd (omega arith)) (inl (λ e. absurd (omega arith)))
          ∙ page,
      apic_other 768 0xFEC00000 (before_apic mem) page_directory_addr (q + 768) (omega arith)
            (omega arith) free (λ e. absurd (omega arith)) (inr (λ e. absurd (omega arith)))
          ∙ entry,
    )

-- After `init` every address of the 896 MB from 3 GB on is translated to the physical address that
-- `virt2Phys` gives: its table is present, and the entry there is a page that the kernel may write.
pub init_direct :
    (v : ℕ) (mem : Tables)
    → 0xC0000000 ≤ v
    → v < 0xF8000000
    → let entry = init mem page_directory_addr (pd_index v) in
      let page = init mem (frame entry) (pt_index v) in
      (present entry ≡ true) × (frame page + v % 4096 ≡ virt2_phys v) × (page % 4096 ≡ 3)
init_direct v mem l u =
    let q : ℕ = pd_index v - 768 in
    let slot : pd_index v ≡ q + 768 = omega arith in
    let (page, entry) = init-Mapped mem q (pt_index v) (omega arith) (omega arith) in
    let table : frame (k_page_table_start + q * 4096 + 3) ≡ k_page_table_start + q * 4096 =
      omega arith in
    rw (slot, entry, table, page) (ground arith, omega arith, omega arith)
