-- ===== src/Text/CString.antt =====
-- lib/string.cpp, the functions on strings. A `const char*` is the list of the bytes from it to the
-- end of its object, unsigned; a string ends at its first 0 byte, and the end of the object counts
-- as one. A pointer into the argument is its distance from the argument, and `none` is a null.
use wandos.Base.{
  ℕ, zero, suc, ◌+◌, ◌-◌, ◌%◌, ◌^◌, Bool, true, false, not, ◌&&◌, ◌||◌, Option, none, some, List,
  [], ◌∷◌, ltb, leb, ◌==◌, if◌then◌else◌, drop,
}
use wandos.Base.Int.{ℤ, pos, sub_ℕ}
use mathlib.Core.Option
pub mod Compare
pub mod Find
pub mod Copy
pub mod Tests

-- The bytes before the first 0.
abbrev pub content : List ℕ → List ℕ
content [] = []
content (c ∷ s) = if c == 0 then [] else c ∷ content s

-- `*s`
abbrev pub byte : List ℕ → ℕ
byte [] = 0
byte (c ∷ s) = c

-- The loop of `strlen`.
pub scan : List ℕ → ℕ
scan [] = 0
scan (c ∷ s) = if c == 0 then 0 else suc (scan s)

-- A string of 16 MB or more is taken for a bad pointer.
unfoldable pub strlen : List ℕ → ℕ
unfolding scan
strlen s = if leb 0x1000000 (scan s) then 0 else scan s

-- `while((*d++ = *src++) != '\0')`
pub strcpy : List ℕ → List ℕ → List ℕ
strcpy [] s = []
strcpy (x ∷ d) [] = 0 ∷ d
strcpy (x ∷ d) (c ∷ s) = if c == 0 then c ∷ d else c ∷ strcpy d s

-- The second loop of `strncpy`: `n` bytes of 0.
pub pad : List ℕ → ℕ → List ℕ
pad d zero = d
pad [] (suc n) = []
pad (x ∷ d) (suc n) = 0 ∷ pad d n

unfoldable pub strncpy : List ℕ → List ℕ → ℕ → List ℕ
unfolding pad
strncpy d s zero = d
strncpy [] s (suc n) = []
strncpy (x ∷ d) [] (suc n) = pad (x ∷ d) (suc n)
strncpy (x ∷ d) (c ∷ s) (suc n) = if c == 0 then pad (x ∷ d) (suc n) else c ∷ strncpy d s n

unfoldable pub strcmp : List ℕ → List ℕ → ℤ
strcmp [] t = sub_ℕ 0 (byte t)
strcmp (a ∷ s) t =
    let rest = strcmp s (drop 1 t) in if not (a == 0) && a == byte t then rest else sub_ℕ a (byte t)

-- The loop of `strncmp` for a count that an `int` holds: at its end `n` is negative exactly when
-- the count ran out.
pub compare_up_to : ℕ → List ℕ → List ℕ → ℤ
compare_up_to zero s t = pos 0
compare_up_to (suc n) s t =
    let rest = compare_up_to n (drop 1 s) (drop 1 t) in
    if not (byte s == 0) && byte s == byte t then rest else sub_ℕ (byte s) (byte t)

-- `int n = n_`: a count of 2 ^ 31 or more is negative from the start, and the result is 0.
pub strncmp : List ℕ → List ℕ → ℕ → ℤ
unfolding compare_up_to
strncmp s t n = if ltb n (2 ^ 31) then compare_up_to n s t else pos 0

-- `c` is the argument as a byte.
unfoldable pub strchr : List ℕ → ℕ → Option ℕ
strchr [] c = if c == 0 then some 0 else none
strchr (x ∷ s) c = if x == c then some 0 else if x == 0 then none else Option.map suc (strchr s c)

-- The loop of `strrchr`, at distance `i`, with the last byte found so far.
pub find_last : ℕ → Option ℕ → List ℕ → ℕ → Option ℕ
find_last i found [] c = if c == 0 then some i else found
find_last i found (x ∷ s) c =
    let rest = find_last (suc i) (if x == c then some i else found) s c in
    if x == 0 then (if c == 0 then some i else found) else rest

unfoldable pub strrchr : List ℕ → ℕ → Option ℕ
unfolding find_last
strrchr s c = find_last 0 none s c

-- The inner loop of `strstr`: whether all of the needle is there.
pub matches : List ℕ → List ℕ → Bool
matches h [] = true
matches h (n ∷ ns) =
    let rest = matches (drop 1 h) ns in
    if n == 0 then true else if not (byte h == 0) && byte h == n then rest else false

pub search_from : ℕ → List ℕ → List ℕ → Option ℕ
unfolding matches
search_from i [] needle = none
search_from i (x ∷ h) needle =
    let rest = search_from (suc i) h needle in
    if x == 0 then none else if matches (x ∷ h) needle then some i else rest

-- For two pointers that are not null.
pub strstr : List ℕ → List ℕ → Option ℕ
unfolding search_from
strstr h needle = if byte needle == 0 then some 0 else search_from 0 h needle
