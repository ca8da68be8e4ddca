-- ===== src/Text/CString/Compare.antt =====
-- strlen, strcmp and strncmp of lib/string.cpp against the contents of the strings.
use wandos.Base.{ℕ, zero, suc, ◌^◌, ◌≤◌, ◌<◌, ◌≡◌, ◌↔◌, refl, List, [], ◌∷◌, arith, length, take}
use wandos.Base.Int.{pos, sub_ℕ}
use wandos.Text.CString.{content, scan, strlen, strcmp, compare_up_to, strncmp}

scan-length : (s : List ℕ) → scan s ≡ length (content s)
unfolding scan
scan-length [] = refl
scan-length (c ∷ s) = ground (arith, scan-length s)

-- `strlen` is the length of the content, or 0 for 16 MB and more.
pub strlen-length :
    (s : List ℕ)
    → (length (content s) < 0x1000000 → strlen s ≡ length (content s))
      × (0x1000000 ≤ length (content s) → strlen s ≡ 0)
unfolding strlen
strlen-length s = (λ h. ground (arith, scan-length s), λ h. ground (arith, scan-length s))

sub-eq-zero : (a b : ℕ) → (sub_ℕ a b ≡ pos 0) ↔ (a ≡ b)
sub-eq-zero a b = (λ h. ground arith, λ h. ground arith)

-- `strcmp` answers 0 exactly for strings of the same content.
pub strcmp-eq-zero : (s t : List ℕ) → (strcmp s t ≡ pos 0) ↔ (content s ≡ content t)
unfolding strcmp
strcmp-eq-zero [] [] = (λ h. refl, λ h. refl)
strcmp-eq-zero [] (b ∷ t) = (λ h. ground arith, λ h. ground arith)
strcmp-eq-zero (a ∷ s) [] = (λ h. ground arith, λ h. ground arith)
strcmp-eq-zero (a ∷ s) (b ∷ t) =
    let r = strcmp-eq-zero s t in (λ h. ground (arith, r.0), λ h. ground (arith, r.1))

up_to-eq-zero :
    (n : ℕ) (s t : List ℕ)
    → (compare_up_to n s t ≡ pos 0) ↔ (take n (content s) ≡ take n (content t))
unfolding compare_up_to
up_to-eq-zero zero s t = (λ h. refl, λ h. refl)
up_to-eq-zero (suc n) [] [] = (λ h. refl, λ h. refl)
up_to-eq-zero (suc n) [] (b ∷ t) = (λ h. ground arith, λ h. ground arith)
up_to-eq-zero (suc n) (a ∷ s) [] = (λ h. ground arith, λ h. ground arith)
up_to-eq-zero (suc n) (a ∷ s) (b ∷ t) =
    let r = up_to-eq-zero n s t in (λ h. ground (arith, r.0), λ h. ground (arith, r.1))

-- `strncmp` answers 0 exactly when the first `n` bytes of the contents are the same, for a count
-- below 2 ^ 31; for a larger one it answers 0 whatever the strings are.
pub strncmp-eq-zero :
    (n : ℕ) (s t : List ℕ)
    → (n < 2 ^ 31 → (strncmp s t n ≡ pos 0) ↔ (take n (content s) ≡ take n (content t)))
      × (2 ^ 31 ≤ n → strncmp s t n ≡ pos 0)
unfolding strncmp
strncmp-eq-zero n s t =
    let r = up_to-eq-zero n s t in
    (λ h. (λ e. ground (arith, r.0), λ e. ground (arith, r.1)), λ h. ground arith)
