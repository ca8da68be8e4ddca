-- ===== src/Process/Pid.antt =====
-- kernel/process/process.cpp, class PidManager. A word of the bitmap is the list of its 32 bits,
-- the lowest first, and the bitmap the list of its words.
use wandos.Base.{
  ℕ, zero, suc, ◌+◌, ◌-◌, ◌*◌, ◌/◌, ◌%◌, Bool, true, false, ◌||◌, ◌&&◌, Option, none, some, List,
  [], ◌∷◌, ltb, ◌==◌, if◌then◌else◌, get_or, set, replicate,
}
use mathlib.Core.Option
pub mod Laws
pub mod Search
pub mod Tests

abbrev pub Word : Type 0
Word = List Bool

abbrev pub Bitmap : Type 0
Bitmap = List Word

abbrev pub max_pid : ℕ
max_pid = 32768

pub initialize : Bitmap
initialize = replicate ((max_pid + 31) / 32) (replicate 32 false)

-- `pid_bitmap[i] == 0xFFFFFFFF`
pub all_set : Word → Bool
all_set [] = true
all_set (b ∷ w) = b && all_set w

-- The loop over `j`: the first clear bit.
pub find_clear : Word → Option ℕ
find_clear [] = none
find_clear (true ∷ w) = Option.map suc (find_clear w)
find_clear (false ∷ w) = some 0

-- The loop over `i`, from word `i` on: the number found, and these words afterwards.
pub alloc_words : ℕ → Bitmap → Option ℕ × Bitmap
unfolding all_set find_clear
alloc_words i [] = (none, [])
alloc_words i (w ∷ ws) =
    let rest = alloc_words (i + 1) ws in
    let next : Option ℕ × Bitmap = (rest.0, w ∷ rest.1) in
    if all_set w
    then next
    else elim (find_clear w) [ some j ↦ (some (i * 32 + j), set w j true ∷ ws) | none ↦ next ]

-- `none` stands for the result -1.
pub alloc : Bitmap → Option ℕ × Bitmap
unfolding alloc_words
alloc b = alloc_words 0 b

-- `pid_bitmap[i] &= ~(1 << j)` for the predecessor of `pid`.
pub free : ℕ → Bitmap → Bitmap
free pid b =
    if pid == 0 || ltb max_pid pid
    then b
    else set b ((pid - 1) / 32) (set (get_or b ((pid - 1) / 32) []) ((pid - 1) % 32) false)

-- Whether the bit of `p` is set, which is how `alloc` sees that `p` is taken.
pub is_taken : Bitmap → ℕ → Bool
is_taken b p = get_or (get_or b (p / 32) []) (p % 32) false
