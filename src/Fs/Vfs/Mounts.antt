-- ===== src/Fs/Vfs/Mounts.antt =====
-- `find_fs` (kernel/fs/vfs.cpp) finds the mount point with the longest path that the path starts with.
use wandos.Base.{
  ℕ, zero, suc, ◌^◌, ◌≤◌, ◌<◌, ◌≡◌, ◌↔◌, refl, sym, ◌∙◌, inl, inr, true, false, Bool-cases, Option,
  none, some, List, [], ◌∷◌, arith, ltb, length, take, drop, take_all, get_elem?, All,
}
use wandos.Base.Int.{ℤ, pos, negsuc}
use wandos.Text.CString.{content, strlen, strncmp}
use wandos.Text.CString.Compare.{strncmp-eq-zero, strlen-length}
use wandos.Fs.Vfs.{MountPoint, Found, path_size, is_zero, improves, find_from, find_fs}

-- The mount point's path, as a string.
abbrev pub name : MountPoint → List ℕ
name m = content m.path

-- A mount point in use, with whose path the path starts.
pub record Covers (m : MountPoint) (path : List ℕ) : Type 0 where
  pub used : m.used ≡ true
  pub starts : take (length (name m)) (content path) ≡ name m

-- The array of the path is as large as it is declared.
abbrev pub Sized : MountPoint → Type 0
Sized m = length m.path ≤ path_size

length-content : (s : List ℕ) → length (content s) ≤ length s
length-content [] = omega arith
length-content (c ∷ s) = ground (arith, length-content s)

strlen-name : (m : MountPoint) → Sized m → strlen m.path ≡ length (name m)
strlen-name m h = (strlen-length m.path).0 (omega (arith, length-content m.path))

is_zero_lem : (z : ℤ) → (is_zero z ≡ true) ↔ (z ≡ pos 0)
is_zero_lem (pos zero) = (λ h. refl, λ h. refl)
is_zero_lem (pos (suc n)) = (λ h. cc, λ h. ground (arith, h))
is_zero_lem (negsuc n) = (λ h. cc, λ h. cc)

-- The comparison in `find_fs` is a test for a prefix.
starts_lem :
    (m : MountPoint) (path : List ℕ)
    → Sized m
    → (is_zero (strncmp path m.path (length (name m))) ≡ true)
      ↔ (take (length (name m)) (content path) ≡ name m)
starts_lem m path h =
    let small : length (name m) < 2 ^ 31 = omega (arith, length-content m.path) in
    let z = is_zero_lem (strncmp path m.path (length (name m))) in
    let e = (strncmp-eq-zero (length (name m)) path m.path).0 small in
    let whole = take_all (length (name m)) (name m) (omega arith) in
    (λ t. e.0 (z.0 t) ∙ whole, λ t. z.1 (e.1 (t ∙ sym whole)))

-- When a round takes the entry that it looks at.
improves_lem :
    (m : MountPoint) (path : List ℕ) (longest : ℕ)
    → Sized m
    → (improves m path longest ≡ true) ↔ (Covers m path × (longest < length (name m)))
improves_lem m path longest h =
    let t = starts_lem m path h in
    rw (strlen-name m h) (
      λ e. (
        record { used = ground (arith, e); starts = t.0 (ground (arith, e)) },
        ground (arith, e),
      ),
      λ c. ground (arith, c.0.used, t.1 c.0.starts),
    )

-- What the loop ends with, for the longest match `longest` and the result `found` so far: they
-- stand, or an entry with a longer path was found. No entry that covers the path has a longer one.
pub data Search (path : List ℕ) (longest : ℕ) (found : Option Found) (ms : List MountPoint)
    (result : Option Found) : Type 0 where
  kept :
      result ≡ found
      → All (λ m. Covers m path → length (name m) ≤ longest) ms
      → Search path longest found ms result
  better :
      (i : ℕ) (m : MountPoint)
      → get_elem? ms i ≡ some m
      → Covers m path
      → longest < length (name m)
      → result ≡ some (record { fs = m.fs; remaining_path = drop (length (name m)) path })
      → All (λ m'. Covers m' path → length (name m') ≤ length (name m)) ms
      → Search path longest found ms result

shorter :
    (m : MountPoint) (path : List ℕ) (longest : ℕ)
    → Sized m
    → improves m path longest ≡ false
    → Covers m path
    → length (name m) ≤ longest
shorter m path longest z e c = elim (Bool-cases (ltb longest (length (name m)))) [
  | inl l ↦
      let taken_after_all = (improves_lem m path longest z).1 (c, ground (arith, l)) in
      cc (e, taken_after_all)
  | inr l ↦ ground (arith, l)
]

le_of : {a b c : ℕ} → a ≤ b → b < c → a ≤ c
le_of h k = omega arith

-- The entry at the head was passed over.
skip :
    (m : MountPoint) (ms : List MountPoint) (path : List ℕ) (longest : ℕ) (found : Option Found)
    {result : Option Found}
    → Sized m
    → improves m path longest ≡ false
    → Search path longest found ms result
    → Search path longest found (m ∷ ms) result
skip m ms path longest found z e (kept r all) = kept r (shorter m path longest z e, all)
skip m ms path longest found z e (better i m' at c l r all) =
    better (suc i) m' at c l r ((λ d. le_of (shorter m path longest z e d) l), all)

-- It was taken: its length is the longest now.
taken :
    (m : MountPoint) (ms : List MountPoint) (path : List ℕ) (longest : ℕ) (found : Option Found)
    {result : Option Found}
    → Covers m path
    → longest < length (name m)
    → Search path
        (length (name m))
        (some (record { fs = m.fs; remaining_path = drop (length (name m)) path }))
        ms
        result
    → Search path longest found (m ∷ ms) result
taken m ms path longest found c l (kept r all) = better 0 m refl c l r (((λ d. omega arith)), all)
taken m ms path longest found c l (better i m' at c' l' r all) =
    better (suc i) m' at c' (omega arith) r ((λ d. omega arith), all)

find_from_lem :
    (ms : List MountPoint) (path : List ℕ) (longest : ℕ) (found : Option Found)
    → All Sized ms
    → Search path longest found ms (find_from ms path longest found)
unfolding find_from
find_from_lem [] path longest found h = kept refl tt
find_from_lem (m ∷ ms) path longest found h = elim (Bool-cases (improves m path longest)) [
  | inl e ↦
      let c = (improves_lem m path longest h.0).0 e in
      rw (e, strlen-name m h.0)
        (taken m ms path longest found c.0 c.1 (
          find_from_lem ms path (length (name m))
            (some (record { fs = m.fs; remaining_path = drop (length (name m)) path })) h.1))
  | inr e ↦ rw e (skip m ms path longest found h.0 e (find_from_lem ms path longest found h.1))
]

-- In a table whose paths have at most 256 bytes, `find_fs` returns the file system of a mount point in
-- use whose path, not empty, is a prefix of the path and no shorter than that of any other such mount
-- point, with the rest of the path; or it returns null, and then no mount point in use has a path
-- that is a prefix, the empty one aside.
pub find_fs_lem :
    (ms : List MountPoint) (path : List ℕ) → All Sized ms → Search path 0 none ms (find_fs ms path)
unfolding find_fs
find_fs_lem ms path h = find_from_lem ms path 0 none h
