-- ===== src/Text/Format/Numbers.antt =====
-- lib/debug.cpp: the functions that print numbers. A `long` has 32 bits. An `unsigned long` is a
-- number below 2 ^ 32; a `long` is an integer, the least one aside, whose negative is undefined.
use wandos.Base.{
  ℕ, zero, suc, ◌+◌, ◌-◌, ◌/◌, ◌%◌, Bool, true, false, not, ◌&&◌, Option, none, some, List, [], ◌∷◌,
  ltb, ◌==◌, if◌then◌else◌, length, get_or, replicate,
}
use wandos.Base.Int.{ℤ, pos, negsuc}
use mathlib.Core.List.{reverse}
use wandos.Text.Format.Output.{
  Out, put, emit, emit_if, FormatFlags, apply_padding, apply_post_padding,
}
pub mod Bounds
pub mod Digits

-- `"0123456789abcdef"`
abbrev pub lower_digits : List ℕ
lower_digits =
    b'0' ∷ b'1' ∷ b'2' ∷ b'3' ∷ b'4' ∷ b'5' ∷ b'6' ∷ b'7' ∷ b'8' ∷ b'9' ∷ b'a' ∷ b'b' ∷ b'c' ∷ b'd'
    ∷ b'e' ∷ b'f' ∷ []

abbrev pub upper_digits : List ℕ
upper_digits =
    b'0' ∷ b'1' ∷ b'2' ∷ b'3' ∷ b'4' ∷ b'5' ∷ b'6' ∷ b'7' ∷ b'8' ∷ b'9' ∷ b'A' ∷ b'B' ∷ b'C' ∷ b'D'
    ∷ b'E' ∷ b'F' ∷ []

-- `do { *q++ = digits[val % base]; val /= base; } while(val);`, the last digit first. The fuel is
-- the size of `num_buf`.
unfoldable pub reversed_digits : ℕ → List ℕ → ℕ → ℕ → List ℕ
reversed_digits zero digits base val = []
reversed_digits (suc fuel) digits base val =
    let rest = reversed_digits fuel digits base (val / base) in
    get_or digits (val % base) 0 ∷ (if val / base == 0 then [] else rest)

abbrev pub num_buf_size : ℕ
num_buf_size = 32

-- What the loop `while(q != num_buf && p < end) *p++ = *--q;` finds in `num_buf`.
unfoldable pub digits_of : List ℕ → ℕ → ℕ → List ℕ
unfolding reversed_digits
digits_of digits base val = reverse (reversed_digits num_buf_size digits base val)

unfoldable pub magnitude : ℤ → ℕ
magnitude (pos n) = n
magnitude (negsuc n) = suc n

unfoldable pub is_negative : ℤ → Bool
is_negative (pos n) = false
is_negative (negsuc n) = true

abbrev pub minus : List ℕ
minus = b'-' ∷ []

unfoldable pub format_integer : ℤ → FormatFlags → Out → Out
unfolding digits_of magnitude is_negative apply_padding apply_post_padding
format_integer value flags o =
    let digits = digits_of lower_digits 10 (magnitude value) in
    let is_neg = is_negative value in
    let len = length digits + (if is_neg then 1 else 0) in
    let sign_first = not flags.left_align && flags.zero_padding && is_neg in
    let o1 = emit_if sign_first minus o in
    let o2 = if flags.left_align then o1 else apply_padding len flags o1 in
    let o3 = emit_if (is_neg && not sign_first) minus o2 in
    apply_post_padding len flags (emit digits o3)

unfoldable pub format_unsigned : ℕ → FormatFlags → Out → Out
unfolding digits_of apply_padding apply_post_padding
format_unsigned value flags o =
    let digits = digits_of lower_digits 10 value in
    apply_post_padding (length digits) flags (emit digits (apply_padding (length digits) flags o))

-- How many zeros `format_hex` puts in front of `num_len` digits.
abbrev pub hex_zeros : ℕ → FormatFlags → ℕ
hex_zeros num_len flags =
    let prefix_len : ℕ = if flags.alternative then 2 else 0 in
    let by_width : ℕ =
      if flags.zero_padding && not flags.left_align && ltb (num_len + prefix_len) flags.width
      then flags.width - num_len - prefix_len
      else 0 in
    elim flags.precision [
      | some precision ↦ if ltb num_len precision then precision - num_len else by_width
      | none ↦ by_width
    ]

-- `total_len` when the spaces are counted: a precision above `num_len` has been put in its place.
abbrev pub hex_total : ℕ → FormatFlags → ℕ
hex_total num_len flags =
    let prefix_len : ℕ = if flags.alternative then 2 else 0 in
    let total_len : ℕ = elim flags.precision [
      | some precision ↦ if ltb num_len precision then precision else num_len
      | none ↦ num_len
    ] in
    total_len + (prefix_len + hex_zeros num_len flags)

-- `if(flags.alternative && p < end - 1)`
abbrev pub hex_prefix : FormatFlags → Out → Out
hex_prefix flags o =
    emit_if (flags.alternative && ltb 1 o.room)
      (b'0' ∷ (if flags.type == b'X' then b'X' else b'x') ∷ []) o

unfoldable pub format_hex : ℕ → FormatFlags → Out → Out
unfolding digits_of
format_hex value flags o =
    let num_buf = digits_of (if flags.type == b'X' then upper_digits else lower_digits) 16 value in
    let num_len = length num_buf in
    let total_len = hex_total num_len flags in
    let spaces = replicate (flags.width - total_len) b' ' in
    let o1 = emit_if (not flags.left_align) spaces o in
    let o2 = hex_prefix flags o1 in
    let o3 = emit (replicate (hex_zeros num_len flags) b'0') o2 in
    emit_if flags.left_align spaces (emit num_buf o3)

-- The prefix counts as handled if it was written.
unfoldable pub format_octal : ℕ → FormatFlags → Out → Out
unfolding digits_of apply_padding apply_post_padding
format_octal value flags o =
    let digits = digits_of lower_digits 8 value in
    let len = length digits + (if flags.alternative then 1 else 0) in
    let prefix_handled = flags.alternative && ltb 0 o.room in
    let o1 = emit_if flags.alternative (b'0' ∷ []) o in
    let o2 = if prefix_handled then o1 else apply_padding len flags o1 in
    apply_post_padding len flags (emit digits o2)

unfoldable pub format_pointer : ℕ → Out → Out
unfolding digits_of
format_pointer ptr o = emit (digits_of lower_digits 16 ptr) (emit (b'0' ∷ b'x' ∷ []) o)
