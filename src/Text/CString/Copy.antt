-- ===== src/Text/CString/Copy.antt =====
-- strcpy and strncpy of lib/string.cpp.
use wandos.Base.{
  ℕ, zero, suc, ◌-◌, ◌≤◌, ◌<◌, ◌≡◌, refl, ap, List, [], ◌∷◌, ◌++◌, arith, ◌==◌, length, take, drop,
  replicate, Bool-cases, inl, inr,
}
use wandos.Text.CString.{content, strcpy, pad, strncpy}

-- `strcpy` into an object with room for the content and its end writes just these.
pub strcpy_lem :
    (d s : List ℕ)
    → length (content s) < length d
    → strcpy d s ≡ content s ++ 0 ∷ drop (suc (length (content s))) d
unfolding strcpy
strcpy_lem [] s h = absurd (omega arith)
strcpy_lem (x ∷ d) [] h = refl
strcpy_lem (x ∷ d) (c ∷ s) h = elim (Bool-cases (c == 0)) [
  | inl e ↦ ground (arith, e)
  | inr e ↦ rw e (ap (λ r. c ∷ r) (strcpy_lem d s (ground arith)))
]

pad_lem : (d : List ℕ) (n : ℕ) → n ≤ length d → pad d n ≡ replicate n 0 ++ drop n d
unfolding pad
pad_lem d zero h = refl
pad_lem [] (suc n) h = absurd (omega arith)
pad_lem (x ∷ d) (suc n) h = ap (λ r. 0 ∷ r) (pad_lem d n (omega arith))

-- `strncpy` writes `n` bytes: as much of the content as fits, then zeros. A content of `n` bytes or
-- more gets no 0 at its end.
pub strncpy_lem :
    (d s : List ℕ) (n : ℕ)
    → n ≤ length d
    → strncpy d s n ≡ take n (content s) ++ replicate (n - length (content s)) 0 ++ drop n d
unfolding strncpy
strncpy_lem d s zero h = let none_left : 0 - length (content s) ≡ 0 = omega arith in rw none_left
strncpy_lem [] s (suc n) h = absurd (omega arith)
strncpy_lem (x ∷ d) [] (suc n) h =
    let all : suc n - 0 ≡ suc n = omega arith in rw all (pad_lem (x ∷ d) (suc n) h)
strncpy_lem (x ∷ d) (c ∷ s) (suc n) h = elim (Bool-cases (c == 0)) [
  | inl e ↦ let all : suc n - 0 ≡ suc n = omega arith in rw e (rw all (pad_lem (x ∷ d) (suc n) h))
  | inr e ↦
      let same : suc n - suc (length (content s)) ≡ n - length (content s) = omega arith in
      rw e (rw same (ap (λ r. c ∷ r) (strncpy_lem d s n (omega arith))))
]
