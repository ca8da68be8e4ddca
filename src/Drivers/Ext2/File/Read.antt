-- ===== src/Drivers/Ext2/File/Read.antt =====
-- Ext2FileDescriptor::read of drivers/ext2.cpp against the bytes of the file on the disk.
use wandos.Base.{
  ℕ, zero, suc, ap, ◌==◌, ==_iff, ◌+◌, min, ◌-◌, ◌*◌, ◌/◌, ◌%◌, ◌<◌, ◌≤◌, ◌≡◌, refl, ◌∙◌, sym, inl,
  inr, Bool-cases, true, lt→ltb, ◌&&◌, List, ◌++◌, arith, ltb, leb, if◌then◌else◌, take, drop,
  length, length-drop, get_or,
}
use wandos.Text.Memory.{memcpy}
use wandos.Text.Memory.Laws.{length_written, get_or-drop, get_or_written}
use native.Mathlib.Nat.{
  div-lt_iff_lt-mul, mod-lt, div-eq_of_lt-le, div-mul-le_self, mod-add-mod, mod-eq_of_lt,
  div-add-mod', add-mul,
}
use wandos.Drivers.Ext2.{le32, i_block}
use wandos.Drivers.Ext2.File.{read_round, read_loop, Reading, Cache, get_block_id}

-- The device block of each of the first 268 blocks of a file, as ext2 lays them out: the inode has
-- the numbers of twelve, and that of a table with the next 256. `disk` has the device's pages.
pub block_of : (ℕ → List ℕ) → List ℕ → ℕ → ℕ
block_of disk inode i =
    if ltb i 12 then i_block inode i else le32 (disk (i_block inode 12)) ((i - 12) * 4)

-- The blocks that a file can have up to the end of that table.
abbrev pub direct_blocks : ℕ
direct_blocks = 268

-- The byte at a place of a file whose device has pages of `size` bytes.
pub file_byte : (ℕ → List ℕ) → ℕ → List ℕ → ℕ → ℕ
file_byte disk size inode p = get_or (disk (block_of disk inode (p / size))) (p % size) 0

div_shift : (p k size : ℕ) → 0 < size → p % size + k < size → (p + k) / size ≡ p / size
div_shift p k size h l =
    div-eq_of_lt-le size (omega (arith, div-mul-le_self p size))
      (rw (add-mul (p / size) 1 size) (omega (arith, div-add-mod' p size)))

mod_shift : (p k size : ℕ) → 0 < size → p % size + k < size → (p + k) % size ≡ p % size + k
mod_shift p k size h l = sym (mod-add-mod p size k) ∙ mod-eq_of_lt l

module _ {C : Type 0} (cache : Cache C) (disk : ℕ → List ℕ) (Holds : C → Type 0)
    (gives : (k : ℕ) (c : C)
      → Holds c
      → ((cache.get_page k c).0 ≡ disk k) × Holds (cache.get_page k c).1) where
  get_block_id_lem :
      (i : ℕ) (inode : List ℕ) (c : C)
      → i < direct_blocks
      → Holds c
      → ((get_block_id cache i inode c).0 ≡ block_of disk inode i)
        × Holds (get_block_id cache i inode c).1
  unfolding get_block_id block_of
  get_block_id_lem i inode c few h =
      let s = gives (i_block inode 12) c h in
      let single : ltb i 268 ≡ true = lt→ltb i 268 few in
      elim (Bool-cases (ltb i 12)) [
        | inl a ↦ rw a (refl, h)
        | inr a ↦ rw (a, single) (rw s.0 refl, s.1)
      ]

  module _ (size : ℕ) (some_bytes : 0 < size) (whole : (k : ℕ) → length (disk k) ≡ size) where
    round_bytes :
        (inode : List ℕ) (b : List ℕ) (p t n : ℕ)
        → n ≤ size - p % size
        → t + n ≤ length b
        → (j : ℕ)
        → get_or
            (take t b
              ++ memcpy (drop t b) (drop (p % size) (disk (block_of disk inode (p / size)))) n)
            j
            0
          ≡ (if leb t j && ltb j (t + n)
              then file_byte disk size inode (p + (j - t))
              else get_or b j 0)
    unfolding file_byte
    round_bytes inode b p t n f l j =
        let page = disk (block_of disk inode (p / size)) in
        let w =
          get_or_written b (drop (p % size) page) t n j l
            (omega (arith, length-drop (p % size) page, whole (block_of disk inode (p / size)))) in
        elim (Bool-cases (leb t j && ltb j (t + n))) [
          | inl e ↦
              w
              ∙ rw e (
                  get_or-drop (p % size) page (j - t)
                  ∙ rw
                      (
                        div_shift p (j - t) size some_bytes (ground arith),
                        mod_shift p (j - t) size some_bytes (ground arith),
                      )
                      refl)
          | inr e ↦ w ∙ rw e refl
        ]

    -- What `n` bytes more do to a reading.
    unfoldable pub Advanced : List ℕ → Reading C → ℕ → Reading C → Type 0
    Advanced inode r n q =
        (q.position ≡ r.position + n)
        × (q.total_read ≡ r.total_read + n)
        × (length q.buffer ≡ length r.buffer)
        × Holds q.cache
        × ((j : ℕ)
            → get_or q.buffer j 0 ≡ (
                if leb r.total_read j && ltb j (r.total_read + n)
                then file_byte disk size inode (r.position + (j - r.total_read))
                else get_or r.buffer j 0))

    round_lem :
        (inode : List ℕ) (left : ℕ) (r : Reading C)
        → r.position / size < direct_blocks
        → r.total_read + left ≤ length r.buffer
        → Holds r.cache
        → Advanced inode r
            (min (size - r.position % size) left)
            (read_round cache size inode left r)
    unfolding read_round Advanced
    round_lem inode left r few l h =
        let n = min (size - r.position % size) left in
        let block = get_block_id cache (r.position / size) inode r.cache in
        let b = get_block_id_lem (r.position / size) inode r.cache few h in
        let page = gives block.0 block.1 b.1 in
        let same = page.0 ∙ ap disk b.0 in
        (
          refl,
          refl,
          length_written r.buffer (drop (r.position % size) (cache.get_page block.0 block.1).0)
              r.total_read n,
          page.1,
          λ j.
              rw same (
                round_bytes inode r.buffer r.position r.total_read n (omega arith) (omega arith) j),
        )

    Advanced-zero : (inode : List ℕ) (r : Reading C) → Holds r.cache → Advanced inode r 0 r
    unfolding Advanced
    Advanced-zero inode r h = (omega arith, omega arith, refl, h, λ j. ground arith)

    Advanced-trans :
        (inode : List ℕ) (r q s : Reading C) (n m left : ℕ)
        → n + m ≡ left
        → Advanced inode r n q
        → Advanced inode q m s
        → Advanced inode r left s
    unfolding Advanced
    Advanced-trans inode r q s n m left e (p1, t1, l1, h1, b1) (p2, t2, l2, h2, b2) =
        (omega arith, omega arith, l2 ∙ l1, h2, λ j. ground (arith, b1 j, b2 j))

    Advanced-fits :
        (inode : List ℕ) (r q : Reading C) (n left : ℕ)
        → n ≤ left
        → r.total_read + left ≤ length r.buffer
        → Advanced inode r n q
        → q.total_read + (left - n) ≤ length q.buffer
    unfolding Advanced
    Advanced-fits inode r q n left k l (p, t, e, h, b) = omega arith

    Advanced-holds :
        (inode : List ℕ) (r q : Reading C) (n : ℕ) → Advanced inode r n q → Holds q.cache
    unfolding Advanced
    Advanced-holds inode r q n a = a.3

    Advanced-ends :
        (inode : List ℕ) (r q : Reading C) (n left : ℕ)
        → n ≤ left
        → r.position + left ≤ direct_blocks * size
        → Advanced inode r n q
        → q.position + (left - n) ≤ direct_blocks * size
    unfolding Advanced
    Advanced-ends inode r q n left k l (p, t, e, h, b) = omega arith

    -- With fuel for every byte, and the end in the blocks that the inode and its first table have,
    -- the loop reads exactly the bytes that are left.
    pub read_loop_lem :
        (inode : List ℕ) (fuel left : ℕ) (r : Reading C)
        → left ≤ fuel
        → r.position + left ≤ direct_blocks * size
        → r.total_read + left ≤ length r.buffer
        → Holds r.cache
        → Advanced inode r left (read_loop cache fuel size inode left r)
    unfolding read_loop
    read_loop_lem inode zero left r f few l h =
        let none_left : left ≡ 0 = omega arith in rw none_left (Advanced-zero inode r h)
    read_loop_lem inode (suc fuel) left r f few l h =
        let n = min (size - r.position % size) left in
        let q = read_round cache size inode left r in
        elim (Bool-cases (left == 0)) [
          | inl e ↦ rw (e, (==_iff left 0).0 e) (Advanced-zero inode r h)
          | inr e ↦
              let inside : r.position < direct_blocks * size = ground (arith, e, few) in
              let first = round_lem inode left r ((div-lt_iff_lt-mul some_bytes).1 inside) l h in
              rw e (
                Advanced-trans inode r q (read_loop cache fuel size inode (left - n) q) n (left - n)
                  left (omega arith) first
                  (read_loop_lem inode fuel (left - n) q
                    (ground (arith, mod-lt r.position {m = size} some_bytes))
                    (Advanced-ends inode r q n left (omega arith) few first)
                    (Advanced-fits inode r q n left (omega arith) l first)
                    (Advanced-holds inode r q n first)))
        ]
