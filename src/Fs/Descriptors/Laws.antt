-- ===== src/Fs/Descriptors/Laws.antt =====
-- Open files (kernel/fs/vfs.cpp): which file a descriptor stands for, and how many there can be.
use wandos.Base.{
  ℕ, zero, suc, ◌≤◌, ◌<◌, ◌+◌, ◌≡◌, ◌≢◌, refl, sym, ap, ◌∙◌, inl, inr, true, false, Bool-cases,
  Option, none, some, List, [], ◌∷◌, arith, leb, ◌==◌, if◌then◌else◌, length, set, get_or,
  length-set, get_or-set_self, get_or-set_ne, lt→not_leb,
}
use wandos.Base.Int.{pos, negsuc}
use wandos.Fs.Descriptors.{
  Context, max_process_fds, allocate_fd, sys_open, file_of, FileDescriptor, sys_read, sys_close,
}

-- The table has its 256 entries, and no entry from `next_fd` on is in use.
pub record IsValid (c : Context) : Type 0 where
  pub table : length c.fd_table ≡ max_process_fds
  pub above : (i : ℕ) → c.next_fd ≤ i → get_or c.fd_table i none ≡ none

get_or-set-none : (xs : List (Option ℕ)) (k : ℕ) → get_or (set xs k none) k none ≡ none
get_or-set-none [] k = refl
get_or-set-none (x ∷ xs) zero = refl
get_or-set-none (x ∷ xs) (suc k) = get_or-set-none xs k

sys_open-some :
    {S : Type 0} (open_file : S → Option ℕ × S) (c : Context) (s : S) (fd : ℕ)
    → (open_file s).0 ≡ some fd
    → sys_open open_file c s ≡ (
      pos c.next_fd,
      record { fd_table = set c.fd_table c.next_fd (some fd); next_fd = c.next_fd + 1 },
      (open_file s).1,
    )
unfolding sys_open allocate_fd
sys_open-some open_file c s fd e = rw (e, sys_open) refl

sys_close-some :
    {S : Type 0} (ops : FileDescriptor S) (k : ℕ) (c : Context) (s : S) (fd : ℕ)
    → file_of c k ≡ some fd
    → sys_close ops k c s
      ≡ ((ops.close fd s).0, record c { fd_table = set c.fd_table k none }, (ops.close fd s).1)
unfolding sys_close
sys_close-some ops k c s fd e = rw (e, sys_close) refl

sys_read-none :
    {S : Type 0} (ops : FileDescriptor S) (k size : ℕ) (c : Context) (s : S)
    → file_of c k ≡ none
    → sys_read ops k size c s ≡ (negsuc 0, none, s)
unfolding sys_read
sys_read-none ops k size c s e = rw (e, sys_read) refl

file_of-over : (c : Context) (k : ℕ) → max_process_fds ≤ k → file_of c k ≡ none
unfolding file_of
file_of-over c k h = let over : leb max_process_fds k ≡ true = ground arith in rw over refl

-- `sys_open` of a file that opens, while `next_fd` is below 256: it returns a number that stood for no
-- file and now stands for this one, every other descriptor stands for what it stood for, and the
-- context stays valid.
pub sys_open_lem :
    {S : Type 0} (open_file : S → Option ℕ × S) (c : Context) (s : S) (fd : ℕ)
    → IsValid c
    → (open_file s).0 ≡ some fd
    → c.next_fd < max_process_fds
    → let r = sys_open open_file c s in
      (r.0 ≡ pos c.next_fd)
      × (file_of c c.next_fd ≡ none)
      × (file_of r.1 c.next_fd ≡ some fd)
      × ((j : ℕ) → j ≢ c.next_fd → file_of r.1 j ≡ file_of c j)
      × IsValid r.1
unfolding file_of
sys_open_lem open_file c s fd v e l =
    let small : leb max_process_fds c.next_fd ≡ false = lt→not_leb _ _ l in
    rw (sys_open-some open_file c s fd e) (
      refl,
      rw small (v.above c.next_fd (omega arith)),
      rw small (get_or-set_self c.fd_table c.next_fd (some fd) none (omega (arith, v.table))),
      (λ j d.
          ap (λ (o : Option ℕ). if leb max_process_fds j then none else o)
            (get_or-set_ne c.fd_table c.next_fd j (some fd) none (λ x. d (sym x)))),
      record {
        table = length-set c.fd_table c.next_fd (some fd) ∙ v.table;
        above = λ i h.
            get_or-set_ne c.fd_table c.next_fd i (some fd) none (λ x. omega (arith, h, x))
            ∙ v.above i (omega (arith, h));
      },
    )

closed : (c : Context) (k : ℕ) → file_of (record c { fd_table = set c.fd_table k none }) k ≡ none
unfolding file_of
closed c k = ground (arith, get_or-set-none c.fd_table k)

closed_ne :
    (c : Context) (k j : ℕ)
    → j ≢ k
    → file_of (record c { fd_table = set c.fd_table k none }) j ≡ file_of c j
unfolding file_of
closed_ne c k j d =
    ap (λ (o : Option ℕ). if leb max_process_fds j then none else o)
      (get_or-set_ne c.fd_table k j none none (λ x. d (sym x)))

closed_above :
    (c : Context) (k i : ℕ)
    → get_or c.fd_table i none ≡ none
    → get_or (set c.fd_table k none) i none ≡ none
closed_above c k i h = elim (Bool-cases (k == i)) [
  | inl e ↦ let same : i ≡ k = ground arith in rw same (get_or-set-none c.fd_table k)
  | inr e ↦ get_or-set_ne c.fd_table k i none none (λ (x : k ≡ i). ground arith) ∙ h
]

-- `sys_close` of an open descriptor: it stands for no file afterwards, the others stand for what they
-- stood for, and its number is not given out again: `next_fd` stays. The context stays valid.
pub sys_close_lem :
    {S : Type 0} (ops : FileDescriptor S) (k : ℕ) (c : Context) (s : S) (fd : ℕ)
    → IsValid c
    → file_of c k ≡ some fd
    → let r = sys_close ops k c s in
      (r.0 ≡ (ops.close fd s).0)
      × (file_of r.1 k ≡ none)
      × ((j : ℕ) → j ≢ k → file_of r.1 j ≡ file_of c j)
      × (r.1.next_fd ≡ c.next_fd)
      × IsValid r.1
sys_close_lem ops k c s fd v e = rw (sys_close-some ops k c s fd e) (
  refl,
  closed c k,
  (λ j d. closed_ne c k j d),
  refl,
  record {
    table = length-set c.fd_table k none ∙ v.table;
    above = λ i h. closed_above c k i (v.above i h);
  },
)

-- Once `next_fd` has reached 256, an open returns a number for which `sys_read` then fails, and
-- `next_fd` stays at 256 or more.
pub sys_open_exhausted :
    {S : Type 0} (open_file : S → Option ℕ × S) (ops : FileDescriptor S) (c : Context) (s : S)
    (fd size : ℕ)
    → (open_file s).0 ≡ some fd
    → max_process_fds ≤ c.next_fd
    → let r = sys_open open_file c s in
      (r.0 ≡ pos c.next_fd)
      × (sys_read ops c.next_fd size r.1 r.2 ≡ (negsuc 0, none, r.2))
      × (max_process_fds ≤ r.1.next_fd)
sys_open_exhausted open_file ops c s fd size e h =
    rw (sys_open-some open_file c s fd e)
      (refl, sys_read-none ops c.next_fd size _ _ (file_of-over _ c.next_fd h), omega (arith, h))
