-- ===== src/Memory/Paging/Tests.antt =====
-- The theorems on page tables at concrete tables (kernel/memory/paging.cpp).
use wandos.Base.{ℕ, ◌+◌, ◌%◌, ◌≡◌, refl, true, some, none, List, [], ◌∷◌, arith}
use wandos.Memory.Buddy.{virt2_phys}
use wandos.Memory.Paging.{
  Tables, write, Frames, present, frame, pd_index, pt_index, map_page, unmap_page, get_page_flags,
  copy_table, copy_slot,
}
use wandos.Memory.Paging.Walk.{walk, walk-map_page}
use wandos.Memory.Paging.Cow.{SharedWith, shared, count_all}
use wandos.Memory.Paging.Share.{copy_slot_lem}
use wandos.Memory.Paging.Kernel.{page_directory_addr, init}
use wandos.Memory.Paging.Kernel.Space.{init_direct}

-- The state is the list of the frames that got one more user, the last one first.
abbrev frames : Frames (List ℕ)
frames = record { alloc_page = λ k. (0x7000, k); increment_ref_count = λ f k. f ∷ k }

-- The parent's directory at 16 leads for the slot 256 to the table at 0x5000, with a page that can
-- be written and one that cannot.
abbrev parent : Tables
parent = write (write (write (λ table i. 0) 16 256 0x5007) 0xC0005000 3 0x9007) 0xC0005000 4 0xA005

shared_pages : (copy_table frames 6 0 0xC0005000 0xC0007000 parent []).0 0xC0007000 3 ≡ 0x9205
unfolding copy_table
shared_pages = refl

one_more : (copy_table frames 6 0 0xC0005000 0xC0007000 parent []).1 ≡ 0x9000 ∷ []
unfolding copy_table
one_more = refl

copy_slot_lem_example :
    let r = copy_slot frames 16 32 256 parent [] in
    (r.0 0xC0007000 3 ≡ r.0 0xC0005000 3)
    × SharedWith 0x9007 (r.0 0xC0005000 3)
    × (r.0 32 256 ≡ 0x7007)
    × (r.1 ≡ count_all frames (shared 1024 0 (parent 0xC0005000)) [])
copy_slot_lem_example =
    copy_slot_lem frames 16 32 256 parent [] refl (omega arith) refl (λ e. absurd (omega arith))
      (λ e. absurd (omega arith)) (λ e. absurd (omega arith)) (λ e. absurd (omega arith))
      (λ e. absurd (omega arith)) (λ e. absurd (omega arith)) 3 (omega arith)

walk-map_page_example :
    walk (map_page frames 16 0x80001234 0x30000 7 parent []).0 16 0x80001234 ≡ some 0x30234
walk-map_page_example =
    walk-map_page frames 16 0x80001234 0x30000 7 parent [] (λ e. absurd (omega arith)) refl
      (λ e. absurd (omega arith)) (λ e. absurd (omega arith))

-- The table of the parent is in the first 4 MB.
unmapped : walk (unmap_page 16 0x40003000 parent) 16 0x40003000 ≡ none
unfolding walk unmap_page
unmapped = refl

-- The same with the table at 5 MB.
abbrev high_table : Tables
high_table = write (write (λ table i. 0) 16 256 0x500007) 0xC0500000 3 0x9007

still_mapped : walk (unmap_page 16 0x40003000 high_table) 16 0x40003000 ≡ some 0x9000
unfolding walk unmap_page
still_mapped = refl

-- The flags of a mapped page are looked for at the wrong address too.
no_flags : get_page_flags 16 0x40003000 high_table ≡ 0
unfolding get_page_flags
no_flags = refl

init_direct_example :
    let entry = init parent page_directory_addr (pd_index 0xC0123456) in
    let page = init parent (frame entry) (pt_index 0xC0123456) in
    (present entry ≡ true)
    × (frame page + 0xC0123456 % 4096 ≡ virt2_phys 0xC0123456)
    × (page % 4096 ≡ 3)
init_direct_example = init_direct 0xC0123456 parent (omega arith) (omega arith)
