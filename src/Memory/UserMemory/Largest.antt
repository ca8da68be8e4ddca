-- ===== src/Memory/UserMemory/Largest.antt =====
-- What find_largest_free_area of kernel/memory/user_memory.cpp returns.
use wandos.Base.{
  ℕ, ◌-◌, ◌≤◌, ◌<◌, ◌≡◌, inl, inr, refl, false, none, List, [], ◌∷◌, arith, ltb, leb, if◌then◌else◌,
  dec_lt, dec_le, lt→not_leb,
}
use wandos.Memory.UserMemory.{
  Area, user_start, user_end, gap, find_gap, last_end, largest_gap, find_largest_free_area,
}
use wandos.Memory.UserMemory.Gaps.{Sorted, IsFree, find_gap_complete}

largest_gap_mono : (best : ℕ) (xs : List Area) → best ≤ largest_gap best xs
unfolding largest_gap
largest_gap_mono best [] = omega arith
largest_gap_mono best (a ∷ []) = omega arith
largest_gap_mono best (a ∷ b ∷ rest) =
    ground (arith, largest_gap_mono best (b ∷ rest), largest_gap_mono (gap a b) (b ∷ rest))

-- No inner gap is larger than what the loop finds.
find_gap-largest : (best n : ℕ) (xs : List Area) → largest_gap best xs < n → find_gap xs n ≡ none
unfolding largest_gap find_gap
find_gap-largest best n [] h = refl
find_gap-largest best n (a ∷ []) h = refl
find_gap-largest best n (a ∷ b ∷ rest) h =
    let best' : ℕ = if ltb best (gap a b) then gap a b else best in
    let more : gap a b ≤ best' = ground arith in
    let later = find_gap-largest best' n (b ∷ rest) h in
    let kept = largest_gap_mono best' (b ∷ rest) in
    let small : leb n (gap a b) ≡ false = lt→not_leb n (gap a b) (omega (arith, kept, more, h)) in
    rw (small, later)

abbrev first_gap : Area → ℕ
first_gap a = if ltb user_start a.start_addr then a.start_addr - user_start else 0

find_largest-parts :
    (a : Area) (rest : List Area)
    → (largest_gap (first_gap a) (a ∷ rest) ≤ find_largest_free_area (a ∷ rest))
      × (user_end - last_end a rest ≤ find_largest_free_area (a ∷ rest))
unfolding find_largest_free_area
find_largest-parts a rest = ground arith

-- `find_largest_free_area` bounds every free range of user space.
pub find_largest_free_area_bound :
    (xs : List Area) (x n : ℕ)
    → Sorted user_start xs
    → 0 < n
    → IsFree x n xs
    → n ≤ find_largest_free_area xs
find_largest_free_area_bound [] x n s z f = unfold find_largest_free_area in omega arith
find_largest_free_area_bound (a ∷ rest) x n s z (lo, hi, (inr l, v)) =
    let e : first_gap a ≡ a.start_addr - user_start = ground arith in
    omega (arith, e, largest_gap_mono (first_gap a) (a ∷ rest), find_largest-parts a rest)
find_largest_free_area_bound (a ∷ rest) x n s z (lo, hi, (inl l, v)) =
    elim (dec_lt x (last_end a rest)) [
      | no k ↦ omega (arith, find_largest-parts a rest)
      | yes k ↦ elim (dec_le n (find_largest_free_area (a ∷ rest))) [
        | yes h ↦ h
        | no h ↦
            let none_found : find_gap (a ∷ rest) n ≡ none =
              find_gap-largest (first_gap a) n (a ∷ rest)
                (omega (arith, find_largest-parts a rest)) in
            absurd (find_gap_complete user_start n x a rest s none_found l k z v)
      ]
    ]
