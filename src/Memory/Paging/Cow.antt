-- ===== src/Memory/Paging/Cow.antt =====
-- The copy of an address space on write (PageManager::copyMemorySpaceCOW in
-- kernel/memory/paging.cpp): what becomes of the entries of a table that is in use.
use wandos.Base.{
  ℕ, zero, suc, ◌+◌, ◌/◌, ◌%◌, ◌<◌, ◌≤◌, ◌≡◌, ◌≢◌, refl, ap, ◌∙◌, inl, inr, false, Bool-cases, List,
  [], ◌∷◌, arith, ◌==◌, if◌then◌else◌, ==_iff,
}
use wandos.Memory.Paging.{
  Tables, write, Frames, present, writable, frame, copy_on_write, copy_table,
}

-- An entry that no one may write through, and that is otherwise the same page.
abbrev pub SharedWith : ℕ → ℕ → Type 0
SharedWith old new =
    (writable new ≡ false)
    × (frame new ≡ frame old)
    × (present new ≡ present old)
    × (new / 4 % 2 ≡ old / 4 % 2)

pub copy_on_write-SharedWith : (e : ℕ) → SharedWith e (copy_on_write e)
unfolding copy_on_write
copy_on_write-SharedWith e = ground arith

-- One round of the loop.
step : Tables → ℕ → ℕ → ℕ → Tables
step mem src dst i =
    write (if writable (mem src i) then write mem src i (copy_on_write (mem src i)) else mem) dst i
      (copy_on_write (mem src i))

step_ne : (mem : Tables) (src dst i a j : ℕ) → i ≢ j → step mem src dst i a j ≡ mem a j
unfolding step
step_ne mem src dst i a j n = ground (arith, n)

step_other :
    (mem : Tables) (src dst i a j : ℕ) → src ≢ a → dst ≢ a → step mem src dst i a j ≡ mem a j
unfolding step
step_other mem src dst i a j m n = ground (arith, m, n)

copy_on_write_id : (e : ℕ) → writable e ≡ false → copy_on_write e ≡ e
unfolding copy_on_write
copy_on_write_id e h = rw h

step_src :
    (mem : Tables) (src dst i : ℕ)
    → src ≢ dst
    → step mem src dst i src i ≡ copy_on_write (mem src i)
unfolding step
step_src mem src dst i n = ground (arith, n, copy_on_write_id (mem src i))

step_dst : (mem : Tables) (src dst i : ℕ) → step mem src dst i dst i ≡ copy_on_write (mem src i)
unfolding step
step_dst mem src dst i = ground arith

-- The frames that are shared by the rounds from `i` on, and the counting of them.
pub shared : ℕ → ℕ → (ℕ → ℕ) → List ℕ
shared zero i table = []
shared (suc n) i table =
    let rest = shared n (i + 1) table in if writable (table i) then frame (table i) ∷ rest else rest

pub count_all : {K : Type 0} → Frames K → List ℕ → K → K
count_all frames [] k = k
count_all frames (f ∷ fs) k = count_all frames fs (frames.increment_ref_count f k)

pub shared-same :
    (n i : ℕ) (t u : ℕ → ℕ) → ((j : ℕ) → i ≤ j → t j ≡ u j) → shared n i t ≡ shared n i u
unfolding shared
shared-same zero i t u h = refl
shared-same (suc n) i t u h =
    rw (h i (omega arith), shared-same n (i + 1) t u (λ j l. h j (omega arith))) refl

module _ {K : Type 0} (frames : Frames K) (src dst : ℕ) where
  counted : Tables → ℕ → K → K
  counted mem i k =
      if writable (mem src i)
      then frames.increment_ref_count (frame (copy_on_write (mem src i))) k
      else k

  counted_first :
      (n i : ℕ) (mem : Tables) (k : K)
      → count_all frames (shared n (i + 1) (mem src)) (counted mem i k)
        ≡ count_all frames (shared (suc n) i (mem src)) k
  unfolding counted shared count_all
  counted_first n i mem k = elim (Bool-cases (writable (mem src i))) [
    | inl w ↦
        rw (w, count_all)
          (ap
            (λ (f : ℕ).
              count_all frames (shared n (i + 1) (mem src)) (frames.increment_ref_count f k))
            (copy_on_write-SharedWith (mem src i)).1)
    | inr w ↦ rw w refl
  ]

  copy_table-step :
      (n i : ℕ) (mem : Tables) (k : K)
      → copy_table frames (suc n) i src dst mem k
        ≡ copy_table frames n (i + 1) src dst (step mem src dst i) (counted mem i k)
  unfolding copy_table step counted
  copy_table-step n i mem k = refl

  copy_table-before :
      (n i : ℕ) (mem : Tables) (k : K) (a j : ℕ)
      → j < i
      → (copy_table frames n i src dst mem k).0 a j ≡ mem a j
  copy_table-before zero i mem k a j l = unfold copy_table in refl
  copy_table-before (suc n) i mem k a j l = rw (copy_table-step n i mem k) (
      copy_table-before n (i + 1) (step mem src dst i) (counted mem i k) a j (omega arith)
      ∙ step_ne mem src dst i a j (λ e. absurd (omega arith)))

  pub copy_table-other :
      (n i : ℕ) (mem : Tables) (k : K) (a j : ℕ)
      → src ≢ a
      → dst ≢ a
      → (copy_table frames n i src dst mem k).0 a j ≡ mem a j
  copy_table-other zero i mem k a j p q = unfold copy_table in refl
  copy_table-other (suc n) i mem k a j p q = rw (copy_table-step n i mem k) (
      copy_table-other n (i + 1) (step mem src dst i) (counted mem i k) a j p q
      ∙ step_other mem src dst i a j p q)

  pub copy_table-each :
      (n i : ℕ) (mem : Tables) (k : K) (j : ℕ)
      → src ≢ dst
      → i ≤ j
      → j < i + n
      → ((copy_table frames n i src dst mem k).0 src j ≡ copy_on_write (mem src j))
        × ((copy_table frames n i src dst mem k).0 dst j ≡ copy_on_write (mem src j))
  copy_table-each zero i mem k j p l u = absurd (omega arith)
  copy_table-each (suc n) i mem k j p l u =
      let after = step mem src dst i in
      let k' = counted mem i k in
      elim (Bool-cases (i == j)) [
        | inl e ↦
            let same : i ≡ j = (==_iff i j).0 e in
            rw (copy_table-step n i mem k) (
              copy_table-before n (i + 1) after k' src j (omega arith)
                  ∙ (rw (← same) (step_src mem src dst i p)),
              copy_table-before n (i + 1) after k' dst j (omega arith)
                  ∙ (rw (← same) (step_dst mem src dst i)),
            )
        | inr e ↦
            let other : i ≢ j = λ q. cc (e, (==_iff i j).1 q) in
            let rest = copy_table-each n (i + 1) after k' j p (omega arith) (omega arith) in
            let kept = step_ne mem src dst i src j other in
            rw (copy_table-step n i mem k)
              (rest.0 ∙ ap copy_on_write kept, rest.1 ∙ ap copy_on_write kept)
      ]

  pub copy_table-count :
      (n i : ℕ) (mem : Tables) (k : K)
      → (copy_table frames n i src dst mem k).1 ≡ count_all frames (shared n i (mem src)) k
  unfolding shared count_all
  copy_table-count zero i mem k = unfold copy_table in refl
  copy_table-count (suc n) i mem k =
      let later =
        shared-same n (i + 1) (step mem src dst i src) (mem src)
          (λ j l. step_ne mem src dst i src j (λ e. absurd (omega arith))) in
      rw (copy_table-step n i mem k) (
        copy_table-count n (i + 1) (step mem src dst i) (counted mem i k)
        ∙ ap (λ (fs : List ℕ). count_all frames fs (counted mem i k)) later
        ∙ counted_first n i mem k)
