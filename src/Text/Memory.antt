-- ===== src/Text/Memory.antt =====
-- lib/string.cpp, the functions on raw memory. A pointer is the list of the bytes from it to the
-- end of its object.
pub mod Laws
use wandos.Base.{
  ℕ, zero, suc, ◌+◌, ◌%◌, ◌≡◌, List, [], ◌∷◌, ◌++◌, if◌then◌else◌, ◌==◌, arith, refl, take, drop,
  length, ◌≤◌,
}
use wandos.Base.Int.{ℤ, pos, sub_ℕ}

-- `while(n--) *d++ = *s++;` A write or read outside the object changes nothing here.
pub memcpy : List ℕ → List ℕ → ℕ → List ℕ
memcpy d s zero = d
memcpy [] s (suc n) = []
memcpy (x ∷ d) [] (suc n) = x ∷ d
memcpy (x ∷ d) (y ∷ s) (suc n) = y ∷ memcpy d s n

-- `while(n--) *p++ = (unsigned char)c;`
pub memset : List ℕ → ℕ → ℕ → List ℕ
memset p c zero = p
memset [] c (suc n) = []
memset (x ∷ p) c (suc n) = (c % 256) ∷ memset p c n

-- The loop of `memcmp`; a read outside an object counts as the end.
pub memcmp : List ℕ → List ℕ → ℕ → ℤ
memcmp p1 p2 zero = pos 0
memcmp [] p2 (suc n) = pos 0
memcmp (a ∷ p1) [] (suc n) = pos 0
memcmp (a ∷ p1) (b ∷ p2) (suc n) = let rest = memcmp p1 p2 n in if a == b then rest else sub_ℕ a b
