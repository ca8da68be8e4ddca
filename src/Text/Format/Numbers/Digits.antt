-- ===== src/Text/Format/Numbers/Digits.antt =====
-- The digits that lib/debug.cpp prints, read back.
use wandos.Base.{
  ℕ, zero, suc, ◌+◌, ◌-◌, ◌*◌, ◌/◌, ◌%◌, ◌^◌, ◌≤◌, ◌<◌, ◌≡◌, refl, ap, ◌∙◌, Bool, true, Bool-cases,
  inl, inr, List, [], ◌∷◌, ◌++◌, arith, ◌==◌, ◌&&◌, if◌then◌else◌, get_or, length, length-append,
  All, leb,
}
use mathlib.Core.List.{reverse, reverse-append}
use native.Mathlib.Nat.{div-lt_iff_lt-mul, div-add-mod, mod-lt, pow-suc, pow-zero}
use wandos.Text.Format.Output.{
  Out, FormatFlags, emit, apply_padding-zero, apply_post_padding-zero, emit_all,
}
use wandos.Text.Format.Numbers.{
  reversed_digits, digits_of, lower_digits, num_buf_size, format_unsigned,
}

-- What a digit stands for, by its place in the table.
pub place : List ℕ → ℕ → ℕ
place [] c = 0
place (d ∷ ds) c = if d == c then 0 else suc (place ds c)

-- The number that digits stand for, the last digit first.
pub value_of : List ℕ → ℕ → List ℕ → ℕ
unfolding place
value_of digits base [] = 0
value_of digits base (c ∷ cs) = place digits c + base * value_of digits base cs

-- The digit of each number below the base stands at this number.
abbrev pub Readable : List ℕ → ℕ → Type 0
Readable digits base = (d : ℕ) → d < base → place digits (get_or digits d 0) ≡ d

pub reversed_digits_lem :
    (digits : List ℕ) (base fuel v : ℕ)
    → Readable digits base
    → 1 < base
    → v < base ^ fuel
    → value_of digits base (reversed_digits fuel digits base v) ≡ v
unfolding reversed_digits value_of
reversed_digits_lem digits base zero v r b h = omega (arith, pow-zero base)
reversed_digits_lem digits base (suc n) v r b h =
    let smaller : v / base < base ^ n =
      (div-lt_iff_lt-mul (omega arith)).1 (rw (pow-suc base n) at h) in
    let rest = reversed_digits_lem digits base n (v / base) r b smaller in
    let last = r (v % base) (mod-lt v (omega arith)) in
    elim (Bool-cases (v / base == 0)) [
      | inl e ↦ rw (e, last) (ground (arith, div-add-mod v base, e))
      | inr e ↦ rw (e, last, rest) (omega (arith, div-add-mod v base))
    ]

length-reversed_digits :
    (fuel : ℕ) (digits : List ℕ) (base v : ℕ) → length (reversed_digits fuel digits base v) ≤ fuel
unfolding reversed_digits
length-reversed_digits zero digits base v = omega arith
length-reversed_digits (suc n) digits base v =
    ground (arith, length-reversed_digits n digits base (v / base))

length-reverse : (xs : List ℕ) → length (reverse xs) ≡ length xs
length-reverse [] = refl
length-reverse (x ∷ xs) =
    ap length (reverse-append (x ∷ []) xs)
    ∙ omega (arith, length-append (reverse xs) (x ∷ []), length-reverse xs)

pub length-digits_of :
    (digits : List ℕ) (base v : ℕ) → length (digits_of digits base v) ≤ num_buf_size
unfolding digits_of
length-digits_of digits base v = omega (
  arith,
  length-reverse (reversed_digits num_buf_size digits base v),
  length-reversed_digits num_buf_size digits base v,
)

all_readable : ℕ → List ℕ → Bool
all_readable zero digits = true
all_readable (suc n) digits = place digits (get_or digits n 0) == n && all_readable n digits

all_readable_lem : (n : ℕ) (digits : List ℕ) → all_readable n digits ≡ true → Readable digits n
unfolding all_readable
all_readable_lem zero digits h d l = absurd (omega arith)
all_readable_lem (suc n) digits h d l = elim (Bool-cases (d == n)) [
  | inl e ↦ let same : d ≡ n = ground arith in rw same (ground (arith, h))
  | inr e ↦ all_readable_lem n digits (ground (arith, h)) d (ground (arith, e))
]

decimal-Readable : Readable lower_digits 10
decimal-Readable = all_readable_lem 10 lower_digits (unfold all_readable place in refl)

-- A byte is one of `0` to `9`.
abbrev pub IsDecimal : ℕ → Type 0
IsDecimal c = (b'0' ≤ c) × (c ≤ b'9')

all_decimal : ℕ → Bool
all_decimal zero = true
all_decimal (suc n) =
    (leb b'0' (get_or lower_digits n 0) && leb (get_or lower_digits n 0) b'9') && all_decimal n

all_decimal_lem : (n d : ℕ) → all_decimal n ≡ true → d < n → IsDecimal (get_or lower_digits d 0)
unfolding all_decimal
all_decimal_lem zero d h l = absurd (omega arith)
all_decimal_lem (suc n) d h l = elim (Bool-cases (d == n)) [
  | inl e ↦ let same : d ≡ n = ground arith in rw same (ground (arith, h))
  | inr e ↦ all_decimal_lem n d (ground (arith, h)) (ground (arith, e))
]

IsDecimal-digit : (d : ℕ) → d < 10 → IsDecimal (get_or lower_digits d 0)
IsDecimal-digit d l = all_decimal_lem 10 d (unfold all_decimal in refl) l

reversed_digits-IsDecimal : (fuel v : ℕ) → All IsDecimal (reversed_digits fuel lower_digits 10 v)
unfolding reversed_digits
reversed_digits-IsDecimal zero v = tt
reversed_digits-IsDecimal (suc n) v =
    let last = IsDecimal-digit (v % 10) (omega arith) in
    elim (Bool-cases (v / 10 == 0)) [
      | inl e ↦ rw e (last, tt)
      | inr e ↦ rw e (last, reversed_digits-IsDecimal n (v / 10))
    ]

-- The loop prints a digit before it tests the number.
length-reversed_digits_pos :
    (fuel v : ℕ) → 0 < length (reversed_digits (suc fuel) lower_digits 10 v)
unfolding reversed_digits
length-reversed_digits_pos fuel v = omega arith

-- With room for the 32 bytes of `num_buf` and no width, what `format_unsigned` adds is a decimal
-- number whose value is the argument, for every `unsigned long`: one digit at least, each of them
-- from `0` to `9`. `ds` has them with the last one first.
pub format_unsigned_value :
    (value : ℕ) (flags : FormatFlags) (o : Out)
    → value < 2 ^ 32
    → flags.width ≡ 0
    → num_buf_size ≤ o.room
    → (ds : List ℕ) × ((format_unsigned value flags o).written ≡ o.written ++ reverse ds)
      × (0 < length ds)
      × All IsDecimal ds
      × (value_of lower_digits 10 ds ≡ value)
unfolding format_unsigned
format_unsigned_value value flags o b w r =
    let ds = digits_of lower_digits 10 value in
    let fits = length-digits_of lower_digits 10 value in
    let printed : format_unsigned value flags o
        ≡ record { written = o.written ++ ds; room = o.room - length ds } =
      rw (apply_padding-zero (length ds) flags o w) (
        apply_post_padding-zero (length ds) flags (emit ds o) w
        ∙ emit_all ds o (omega (arith, fits, r))) in
    (
      reversed_digits num_buf_size lower_digits 10 value,
      unfold digits_of in ap (λ (x : Out). x.written) printed,
      length-reversed_digits_pos 31 value,
      reversed_digits-IsDecimal num_buf_size value,
      reversed_digits_lem lower_digits 10 num_buf_size value decimal-Readable (omega arith)
          (omega arith),
    )
