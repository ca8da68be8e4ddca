-- ===== src/Memory/Paging/Share.antt =====
-- What a parent and its child have after one slot of a page directory is copied
-- (PageManager::copyMemorySpaceCOW in kernel/memory/paging.cpp).
use wandos.Base.{ℕ, ◌+◌, ◌*◌, ◌%◌, ◌<◌, ◌≤◌, ◌≡◌, ◌≢◌, refl, sym, ap, ◌∙◌, true, false, arith, ltb}
use wandos.Memory.Buddy.{phys2_virt}
use wandos.Memory.Paging.{
  Tables, write, Frames, present, frame, copy_on_write, copy_table, copy_slot,
}
use wandos.Memory.Paging.Writes.{write_ne, write_self}
use wandos.Memory.Paging.Cow.{
  SharedWith, copy_on_write-SharedWith, shared, count_all, shared-same, copy_table-each,
  copy_table-other, copy_table-count,
}

module _ {K : Type 0} (frames : Frames K) (src dst slot : ℕ) (mem : Tables) (k : K)
    (here : present (mem src slot) ≡ true) (low : frame (mem src slot) ≤ 896 * 1024 * 1024)
    (aligned : (frames.alloc_page k).0 % 4096 ≡ 0) (dirs : src ≢ dst)
    (old_new : phys2_virt (frame (mem src slot)) ≢ phys2_virt (frames.alloc_page k).0)
    (dst_old : dst ≢ phys2_virt (frame (mem src slot)))
    (dst_new : dst ≢ phys2_virt (frames.alloc_page k).0)
    (old_src : phys2_virt (frame (mem src slot)) ≢ src)
    (new_src : phys2_virt (frames.alloc_page k).0 ≢ src) where
  old : ℕ
  old = phys2_virt (frame (mem src slot))

  new : ℕ
  new = phys2_virt (frames.alloc_page k).0

  loop : Tables × K
  loop =
      copy_table frames 1024 0 (phys2_virt (frame (mem src slot)))
        (phys2_virt (frames.alloc_page k).0) (write mem dst slot (mem src slot))
        (frames.alloc_page k).1

  copied :
      copy_slot frames src dst slot mem k
      ≡ (write loop.0 dst slot (frame (frames.alloc_page k).0 + loop.0 src slot % 4096), loop.1)
  unfolding copy_slot loop
  copied =
      let fits : ltb (896 * 1024 * 1024) (frame (mem src slot)) ≡ false = ground (arith, low) in
      rw (here, fits) refl

  slot_kept : loop.0 src slot ≡ mem src slot
  unfolding loop
  slot_kept =
      copy_table-other frames (phys2_virt (frame (mem src slot)))
        (phys2_virt (frames.alloc_page k).0) 1024 0 (write mem dst slot (mem src slot))
        (frames.alloc_page k).1 src slot old_src new_src
      ∙ write_ne mem dst slot (mem src slot) src slot (λ e. dirs (sym e))

  entry_kept : (j : ℕ) → write mem dst slot (mem src slot) old j ≡ mem old j
  unfolding old
  entry_kept j = write_ne mem dst slot (mem src slot) (phys2_virt (frame (mem src slot))) j dst_old

  both :
      (j : ℕ)
      → j < 1024
      → (loop.0 old j ≡ copy_on_write (mem old j)) × (loop.0 new j ≡ copy_on_write (mem old j))
  unfolding loop old new
  both j l =
      let each =
        copy_table-each frames (phys2_virt (frame (mem src slot)))
          (phys2_virt (frames.alloc_page k).0) 1024 0 (write mem dst slot (mem src slot))
          (frames.alloc_page k).1 j old_new (omega arith) (omega arith) in
      let kept = ap copy_on_write (entry_kept j) in (each.0 ∙ kept, each.1 ∙ kept)

  users : loop.1 ≡ count_all frames (shared 1024 0 (mem old)) (frames.alloc_page k).1
  unfolding loop old
  users =
      copy_table-count frames (phys2_virt (frame (mem src slot)))
        (phys2_virt (frames.alloc_page k).0) 1024 0 (write mem dst slot (mem src slot))
        (frames.alloc_page k).1
      ∙ ap (λ fs. count_all frames fs (frames.alloc_page k).1)
          (shared-same 1024 0 _ _ (λ j l. entry_kept j))

  -- Where the tables and the directories lie apart, each of the 1024 entries of a table becomes the
  -- same in the parent and in the child: the page of before, present and open to user code as
  -- before, which neither may write to. The directory of the child leads to the new table with the
  -- flags of the parent's. Exactly the frames that could be written get one more user each.
  pub copy_slot_lem :
      (j : ℕ)
      → j < 1024
      → let r = copy_slot frames src dst slot mem k in
        (r.0 (phys2_virt (frames.alloc_page k).0) j ≡ r.0 (phys2_virt (frame (mem src slot))) j)
        × SharedWith
            (mem (phys2_virt (frame (mem src slot))) j)
            (r.0 (phys2_virt (frame (mem src slot))) j)
        × (r.0 dst slot ≡ (frames.alloc_page k).0 + mem src slot % 4096)
        × (r.1
            ≡ count_all frames
                (shared 1024 0 (mem (phys2_virt (frame (mem src slot)))))
                (frames.alloc_page k).1)
  unfolding old new
  copy_slot_lem j l =
      let child = frame (frames.alloc_page k).0 + loop.0 src slot % 4096 in
      let in_old =
        write_ne loop.0 dst slot child (phys2_virt (frame (mem src slot))) j dst_old
        ∙ (both j l).0 in
      let in_new =
        write_ne loop.0 dst slot child (phys2_virt (frames.alloc_page k).0) j dst_new
        ∙ (both j l).1 in
      rw copied (
        in_new ∙ sym in_old,
        rw in_old (copy_on_write-SharedWith (mem (phys2_virt (frame (mem src slot))) j)),
        write_self loop.0 dst slot child ∙ omega (arith, slot_kept, aligned),
        users,
      )
