-- ===== src/Memory/Paging/Walk.antt =====
-- The translation of addresses by the tables of kernel/memory/paging.cpp.
use wandos.Base.{
  ℕ, ◌+◌, ◌%◌, ◌≡◌, refl, ap, ◌∙◌, ◌≢◌, ◌⊎◌, inl, inr, true, false, Bool-cases, ◌==◌, not, Option,
  none, some, arith, if◌then◌else◌,
}
use wandos.Memory.Buddy.{phys2_virt}
use wandos.Memory.Paging.{
  Tables, write, Frames, present, frame, supervisor, pd_index, pt_index, leaf, map_page,
}

-- What the processor does with an address: the table is at the physical address in the directory.
unfoldable pub walk : Tables → ℕ → ℕ → Option ℕ
walk mem cur virt_addr =
    let entry = mem cur (pd_index virt_addr) in
    let page = mem (phys2_virt (frame entry)) (pt_index virt_addr) in
    if not (present entry)
    then none
    else if not (present page)
    then none
    else some (frame page + virt_addr % 4096)

frame-leaf : (p f : ℕ) → frame (leaf p f) ≡ frame p
frame-leaf p f = omega arith

present-leaf : (p f : ℕ) → present (leaf p f) ≡ true
present-leaf p f = ground (arith)

-- The virtual address of the table for an address.
abbrev pub table_of : Tables → ℕ → ℕ → ℕ
table_of mem cur virt_addr = phys2_virt (frame (mem cur (pd_index virt_addr)))

frame-supervisor : (p : ℕ) → p % 4096 ≡ 0 → frame (supervisor p) ≡ p
frame-supervisor p a = omega arith

present-supervisor : (p : ℕ) → present (supervisor p) ≡ true
present-supervisor p = ground (arith)

walk_by :
    (mem : Tables) (cur virt_addr entry table page : ℕ)
    → mem cur (pd_index virt_addr) ≡ entry
    → present entry ≡ true
    → phys2_virt (frame entry) ≡ table
    → mem table (pt_index virt_addr) ≡ page
    → present page ≡ true
    → walk mem cur virt_addr ≡ some (frame page + virt_addr % 4096)
unfolding walk
walk_by mem cur virt_addr entry table page e p t g q = rw (e, p, t, g, q) refl

-- Two writes to different tables.
write_first :
    (mem : Tables) (a i e b j f : ℕ) → b == a ≡ false → write (write mem a i e) b j f a i ≡ e
write_first mem a i e b j f n = ground (arith, n)

write_last : (mem : Tables) (b j f : ℕ) → write mem b j f b j ≡ f
write_last mem b j f = ground arith

module _ {K : Type 0} (frames : Frames K) (cur virt_addr phys_addr flags : ℕ) (mem : Tables) (k : K)
    (current : cur ≢ 0) where
  walk-old :
      present (mem cur (pd_index virt_addr)) ≡ true
      → table_of mem cur virt_addr ≢ cur
      → walk (map_page frames cur virt_addr phys_addr flags mem k).0 cur virt_addr
        ≡ some (frame phys_addr + virt_addr % 4096)
  unfolding walk map_page
  walk-old p n =
      ground (arith, current, p, n, frame-leaf phys_addr flags, present-leaf phys_addr flags)

  walk-new :
      present (mem cur (pd_index virt_addr)) ≡ false
      → (frames.alloc_page k).0 % 4096 ≡ 0
      → phys2_virt (frames.alloc_page k).0 ≢ cur
      → walk (map_page frames cur virt_addr phys_addr flags mem k).0 cur virt_addr
        ≡ some (frame phys_addr + virt_addr % 4096)
  unfolding walk map_page
  walk-new p a n =
      let new = (frames.alloc_page k).0 in
      let null : cur == 0 ≡ false = ground (arith, current) in
      let apart : phys2_virt new == cur ≡ false = ground (arith, n) in
      let slot = pd_index virt_addr in
      let at = pt_index virt_addr in
      let page = leaf phys_addr flags in
      let linked = write mem cur slot (supervisor new) in
      rw (null, p)
        (walk_by (write linked (phys2_virt new) at page) cur virt_addr (supervisor new)
            (phys2_virt new) page
            (write_first mem cur slot (supervisor new) (phys2_virt new) at page apart)
            (present-supervisor new) (ap (λ (q : ℕ). phys2_virt q) (frame-supervisor new a))
            (write_last linked (phys2_virt new) at page) (present-leaf phys_addr flags)
          ∙ ap (λ (q : ℕ). some (q + virt_addr % 4096)) (frame-leaf phys_addr flags))

-- After `mapPage`, with a page directory set, the processor finds the frame at the address, whether
-- the table for it was there or is new. The tables are not at the address of the page directory, and
-- a new one is aligned.
pub walk-map_page :
    {K : Type 0} (frames : Frames K) (cur virt_addr phys_addr flags : ℕ) (mem : Tables) (k : K)
    → cur ≢ 0
    → (frames.alloc_page k).0 % 4096 ≡ 0
    → phys2_virt (frames.alloc_page k).0 ≢ cur
    → table_of mem cur virt_addr ≢ cur
    → walk (map_page frames cur virt_addr phys_addr flags mem k).0 cur virt_addr
      ≡ some (frame phys_addr + virt_addr % 4096)
walk-map_page frames cur virt_addr phys_addr flags mem k c a n t =
    elim (Bool-cases (present (mem cur (pd_index virt_addr)))) [
      | inl p ↦ walk-old frames cur virt_addr phys_addr flags mem k c p t
      | inr p ↦ walk-new frames cur virt_addr phys_addr flags mem k c p a n
    ]

present_two : present 2 ≡ false
present_two = refl

-- An entry that is not the one that `mapPage` writes keeps its meaning.
pub walk-map_page_ne :
    {K : Type 0} (frames : Frames K) (cur virt_addr phys_addr flags other : ℕ) (mem : Tables)
    (k : K)
    → present (mem cur (pd_index virt_addr)) ≡ true
    → table_of mem cur virt_addr ≢ cur
    → (table_of mem cur other ≢ table_of mem cur virt_addr) ⊎ (pt_index other ≢ pt_index virt_addr)
    → walk (map_page frames cur virt_addr phys_addr flags mem k).0 cur other ≡ walk mem cur other
unfolding walk map_page
walk-map_page_ne frames cur virt_addr phys_addr flags other mem k p n (inl t) =
    ground (arith, p, n, t)
walk-map_page_ne frames cur virt_addr phys_addr flags other mem k p n (inr t) =
    ground (arith, p, n, t)
