-- ===== src/Process/Pid/Tests.antt =====
-- Runs of the model of PidManager, and its theorems at concrete inputs.
use wandos.Base.{ℕ, ◌<◌, ◌≡◌, refl, true, false, none, some, ◌⊎◌, if◌then◌else◌, ◌==◌}
use wandos.Process.Pid.{Bitmap, initialize, alloc, free, is_taken, alloc_words, all_set, find_clear}
use wandos.Process.Pid.Laws.{IsValid, alloc_lem, alloc-IsValid, free-alloc, initialize_lem}

-- Numbers 0 and 1 are taken.
abbrev two_taken : Bitmap
two_taken = (alloc (alloc initialize).1).1

two_taken-IsValid : IsValid two_taken
two_taken-IsValid = alloc-IsValid (alloc initialize).1 (alloc-IsValid initialize initialize_lem.0)

next_is_two : (alloc two_taken).0 ≡ some 2
unfolding initialize alloc alloc_words all_set find_clear
next_is_two = refl

alloc_lem_example :
    ((alloc two_taken ≡ (none, two_taken)) × ((p : ℕ) → p < 32768 → is_taken two_taken p ≡ true))
    ⊎ ((p : ℕ) × ((alloc two_taken).0 ≡ some p)
        × (p < 32768)
        × (is_taken two_taken p ≡ false)
        × ((q : ℕ) → q < p → is_taken two_taken q ≡ true)
        × ((q : ℕ)
            → is_taken (alloc two_taken).1 q ≡ (if q == p then true else is_taken two_taken q)))
alloc_lem_example = alloc_lem two_taken two_taken-IsValid

free-alloc_example :
    (is_taken (free 2 (alloc two_taken).1) 2 ≡ true)
    × (0 < 2 → (is_taken two_taken 1 ≡ true) × (is_taken (free 2 (alloc two_taken).1) 1 ≡ false))
free-alloc_example = free-alloc two_taken 2 two_taken-IsValid next_is_two
