-- ===== src/Text/CString/Tests.antt =====
-- The theorems on lib/string.cpp at concrete inputs.
use wandos.Base.{ℕ, ◌≡◌, refl, some, List, [], ◌∷◌}
use wandos.Text.CString.{strstr, search_from, matches}

-- "abc", and "ab" in a buffer of four bytes.
abbrev abc : List ℕ
abc = b'a' ∷ b'b' ∷ b'c' ∷ 0 ∷ []

abbrev ab : List ℕ
ab = b'a' ∷ b'b' ∷ 0 ∷ b'z' ∷ []

strstr_runs : strstr abc (b'b' ∷ b'c' ∷ 0 ∷ []) ≡ some 1
unfolding strstr search_from matches
strstr_runs = refl
