-- ===== src/Drivers/Ext2/Allocation.antt =====
-- Ext2FileSystem::allocate_block and allocate_inode of drivers/ext2.cpp: the first that is free.
use wandos.Base.{
  ℕ, zero, suc, ◌+◌, ◌-◌, ◌<◌, ◌≤◌, ◌≡◌, ◌⊎◌, refl, ◌∙◌, inl, inr, Bool, true, false, ◌&&◌,
  Bool-cases, List, arith, ==_iff, ◌==◌, ap, sym, length, length-replicate,
}
use wandos.Drivers.Ext2.{
  Device, Ext2, fresh, inodes_count, blocks_count, first_data_block, read_inode, all_zero,
  find_block, allocate_block, is_free_inode, find_inode, allocate_inode,
}

-- The first of the `n` numbers from `lo` on that has a property, or 0 when none of them has it.
pub First : (ℕ → Bool) → ℕ → ℕ → ℕ → Type 0
First f lo n r =
    ((r ≡ 0) × ((j : ℕ) → lo ≤ j → j < lo + n → f j ≡ false))
    ⊎ ((lo ≤ r) × (r < lo + n) × (f r ≡ true) × ((j : ℕ) → lo ≤ j → j < r → f j ≡ false))

First-none : (f : ℕ → Bool) (lo : ℕ) → First f lo 0 0
unfolding First
First-none f lo = inl (refl, λ j a b. absurd (omega arith))

First-here : (f : ℕ → Bool) (lo n : ℕ) → f lo ≡ true → First f lo (suc n) lo
unfolding First
First-here f lo n h = inr (omega arith, omega arith, h, λ j a b. absurd (omega arith))

past : (f : ℕ → Bool) (lo j : ℕ) → f lo ≡ false → (lo + 1 ≤ j → f j ≡ false) → lo ≤ j → f j ≡ false
past f lo j h k a = elim (Bool-cases (lo == j)) [
  | inl e ↦ let same : lo ≡ j = (==_iff lo j).0 e in ap f (sym same) ∙ h
  | inr e ↦ k (ground arith)
]

First-next :
    (f : ℕ → Bool) (lo n r : ℕ) → f lo ≡ false → First f (lo + 1) n r → First f lo (suc n) r
unfolding First
First-next f lo n r h (inl (e, k)) = inl (e, λ j a b. past f lo j h (λ c. k j c (omega arith)) a)
First-next f lo n r h (inr (a, b, e, k)) =
    inr (omega arith, omega arith, e, λ j c d. past f lo j h (λ m. k j m d) c)

module _ {D : Type 0} (dev : Device D) (d : D) where
  pub find_inode_lem :
      (fs : Ext2) (n lo : ℕ)
      → First (λ i. is_free_inode (read_inode dev d fs i)) lo n (find_inode dev d fs n lo)
  unfolding find_inode
  find_inode_lem fs zero lo = First-none (λ i. is_free_inode (read_inode dev d fs i)) lo
  find_inode_lem fs (suc n) lo =
      let f = λ (i : ℕ). is_free_inode (read_inode dev d fs i) in
      elim (Bool-cases (is_free_inode (read_inode dev d fs lo))) [
        | inl e ↦ rw e (First-here f lo n e)
        | inr e ↦
            rw e
              (First-next f lo n (find_inode dev d fs n (lo + 1)) e (find_inode_lem fs n (lo + 1)))
      ]

  -- What a read into a buffer of one sector gives depends on the block alone: whether it succeeds,
  -- and the bytes. The buffer keeps its length.
  pub record Reads (works : ℕ → Bool) (page : ℕ → List ℕ) : Type 0 where
    pub result :
        (i : ℕ) (out : List ℕ) → length out ≡ dev.sector_size → (dev.read_block d i out).0 ≡ works i
    pub bytes :
        (i : ℕ) (out : List ℕ)
        → length out ≡ dev.sector_size
        → works i ≡ true
        → (dev.read_block d i out).1 ≡ page i
    pub keeps :
        (i : ℕ) (out : List ℕ)
        → length out ≡ dev.sector_size
        → length (dev.read_block d i out).1 ≡ dev.sector_size

  find_block_lem :
      (works : ℕ → Bool) (page : ℕ → List ℕ)
      → Reads works page
      → (n lo : ℕ) (out : List ℕ) → length out ≡ dev.sector_size
      → First (λ i. works i && all_zero dev.sector_size (page i)) lo n (find_block dev d n lo out)
  unfolding find_block
  find_block_lem works page r zero lo out l =
      First-none (λ i. works i && all_zero dev.sector_size (page i)) lo
  find_block_lem works page r (suc n) lo out l =
      let f = λ (i : ℕ). works i && all_zero dev.sector_size (page i) in
      let rest = First-next f lo n (find_block dev d n (lo + 1) (dev.read_block d lo out).1) in
      let ih =
        find_block_lem works page r n (lo + 1) (dev.read_block d lo out).1 (r.keeps lo out l) in
      elim (Bool-cases (works lo)) [
        | inr e ↦ rw (r.result lo out l ∙ e) (rest (rw e refl) ih)
        | inl e ↦
            let read : (dev.read_block d lo out).1 ≡ page lo = r.bytes lo out l e in
            rw (r.result lo out l ∙ e) (elim (Bool-cases (all_zero dev.sector_size (page lo))) [
              | inl z ↦ rw (read, z) (First-here f lo n (rw (e, z) refl))
              | inr z ↦ rw (ap (all_zero dev.sector_size) read ∙ z) (rest (rw (e, z) refl) ih)
            ])
      ]

  -- allocate_block and allocate_inode on a device on which a read into a buffer of one sector depends
  -- on the block alone and keeps the buffer's length: each gives the first that counts as free, and 0
  -- when there is none among the blocks from the first data block on, or among the inodes from 1. A
  -- block counts as free when it can be read and the bytes of one sector, which are all that the code
  -- looks at, are 0; an inode when its mode is 0.
  pub allocate_lem :
      (works : ℕ → Bool) (page : ℕ → List ℕ) (fs : Ext2)
      → Reads works page
      → First
          (λ i. works i && all_zero dev.sector_size (page i))
          (first_data_block fs.super_block)
          (blocks_count fs.super_block - first_data_block fs.super_block)
          (allocate_block dev d fs)
        × First
            (λ i. is_free_inode (read_inode dev d fs i))
            1
            (inodes_count fs.super_block)
            (allocate_inode dev d fs)
  unfolding allocate_block allocate_inode
  allocate_lem works page fs r = (
    find_block_lem works page r (blocks_count fs.super_block - first_data_block fs.super_block)
        (first_data_block fs.super_block) (fresh dev.sector_size)
        (length-replicate dev.sector_size 0),
    find_inode_lem fs (inodes_count fs.super_block) 1,
  )
