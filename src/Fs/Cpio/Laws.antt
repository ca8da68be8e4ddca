-- ===== src/Fs/Cpio/Laws.antt =====
-- The fields of a cpio header (include/kernel/cpio.h) are read as they are written.
use wandos.Base.{
  ℕ, zero, suc, ◌+◌, ◌*◌, ◌/◌, ◌%◌, ◌^◌, ◌<◌, ◌≡◌, refl, ◌∙◌, inl, inr, Bool, true, Bool-cases,
  List, [], ◌∷◌, ◌++◌, arith, ◌==◌, ◌&&◌, get_or, if◌then◌else◌, false,
}
use native.Mathlib.Nat.{pow-zero, pow-suc}
use wandos.Text.Format.Numbers.{lower_digits, upper_digits}
use wandos.Fs.Cpio.{hex_digit, parse_field, get_filesize, get_namesize}

-- The letters of a digit, in upper or in lower case.
abbrev pub digits_in : Bool → List ℕ
digits_in upper = if upper then upper_digits else lower_digits

-- A number in `n` hexadecimal digits; `upper` says for each digit whether it is in upper case, the
-- last digit being digit 0.
pub to_field : (ℕ → Bool) → ℕ → ℕ → List ℕ
to_field upper zero v = []
to_field upper (suc n) v =
    to_field (λ i. upper (i + 1)) n (v / 16) ++ get_or (digits_in (upper 0)) (v % 16) 0 ∷ []

digits_below : List ℕ → ℕ → Bool
digits_below digits zero = true
digits_below digits (suc n) = hex_digit (get_or digits n 0) == n && digits_below digits n

digits_below_lem :
    (digits : List ℕ) (n d : ℕ)
    → digits_below digits n ≡ true
    → d < n
    → hex_digit (get_or digits d 0) ≡ d
unfolding digits_below
digits_below_lem digits zero d h l = absurd (omega arith)
digits_below_lem digits (suc n) d h l = elim (Bool-cases (d == n)) [
  | inl e ↦ let same : d ≡ n = ground arith in rw same (ground (arith, h))
  | inr e ↦ digits_below_lem digits n d (ground (arith, h)) (ground (arith, e))
]

hex_digit_lem : (upper : Bool) (d : ℕ) → d < 16 → hex_digit (get_or (digits_in upper) d 0) ≡ d
hex_digit_lem true d l =
    digits_below_lem upper_digits 16 d (unfold digits_below hex_digit in refl) l
hex_digit_lem false d l =
    digits_below_lem lower_digits 16 d (unfold digits_below hex_digit in refl) l

parse_field-append :
    (w size c : ℕ) (cs : List ℕ)
    → parse_field w size (cs ++ c ∷ []) ≡ parse_field w size cs * 16 % 2 ^ w + hex_digit c
unfolding parse_field
parse_field-append w size c [] = refl
parse_field-append w size c (x ∷ cs) = parse_field-append w (size * 16 % 2 ^ w + hex_digit x) c cs

parse_32 :
    (upper : ℕ → Bool) (n v : ℕ)
    → v < 16 ^ n
    → v < 2 ^ 32
    → parse_field 32 0 (to_field upper n v) ≡ v
unfolding to_field
parse_32 upper zero v h b = unfold parse_field in (omega (arith, pow-zero 16))
parse_32 upper (suc n) v h b =
    let smaller : v / 16 < 16 ^ n = omega (arith, h, pow-suc 16 n) in
    let later : ℕ → Bool = λ i. upper (i + 1) in
    parse_field-append 32 0 (get_or (digits_in (upper 0)) (v % 16) 0) (to_field later n (v / 16))
    ∙ omega (
      arith,
      parse_32 later n (v / 16) smaller (omega arith),
      hex_digit_lem (upper 0) (v % 16) (omega arith),
    )

parse_16 :
    (upper : ℕ → Bool) (n v : ℕ) → v < 16 ^ n → parse_field 16 0 (to_field upper n v) ≡ v % 2 ^ 16
unfolding to_field
parse_16 upper zero v h = unfold parse_field in (omega (arith, pow-zero 16))
parse_16 upper (suc n) v h =
    let smaller : v / 16 < 16 ^ n = omega (arith, h, pow-suc 16 n) in
    let later : ℕ → Bool = λ i. upper (i + 1) in
    parse_field-append 16 0 (get_or (digits_in (upper 0)) (v % 16) 0) (to_field later n (v / 16))
    ∙ omega
        (arith, parse_16 later n (v / 16) smaller, hex_digit_lem (upper 0) (v % 16) (omega arith))

-- From eight hexadecimal digits, each in upper or in lower case, `get_filesize` reads every number
-- below 2 ^ 32 as it is, and `get_namesize` reads its lowest 16 bits.
pub get_filesize-to_field :
    (upper : ℕ → Bool) (v : ℕ)
    → v < 2 ^ 32
    → (get_filesize (to_field upper 8 v) ≡ v) × (get_namesize (to_field upper 8 v) ≡ v % 2 ^ 16)
unfolding get_filesize get_namesize
get_filesize-to_field upper v h =
    (parse_32 upper 8 v (omega arith) h, parse_16 upper 8 v (omega arith))
