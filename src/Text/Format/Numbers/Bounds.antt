-- ===== src/Text/Format/Numbers/Bounds.antt =====
-- The functions of lib/debug.cpp that print numbers write behind what is there, within the room.
use wandos.Base.{
  ℕ, ◌+◌, ◌-◌, Bool, true, false, not, ◌&&◌, List, [], ◌∷◌, ltb, ◌==◌, if◌then◌else◌, length,
  replicate,
}
use wandos.Base.Int.{ℤ}
use wandos.Text.Format.Output.{
  Out, emit, emit_if, FormatFlags, apply_padding, apply_post_padding, Extends, Extends-refl,
  Extends-then, emit-Extends, emit_if-Extends, apply_padding-Extends, apply_post_padding-Extends,
}
use wandos.Text.Format.Numbers.{
  digits_of, lower_digits, upper_digits, magnitude, is_negative, minus, format_integer,
  format_unsigned, hex_zeros, hex_total, hex_prefix, format_hex, format_octal, format_pointer,
}

pub if_Extends :
    (b : Bool) (o x y : Out) → Extends o x → Extends o y → Extends o (if b then x else y)
if_Extends true o x y h k = h
if_Extends false o x y h k = k

-- Digits between the two paddings.
pub digits-Extends :
    (digits : List ℕ) (len : ℕ) (flags : FormatFlags) (o : Out)
    → Extends o (apply_post_padding len flags (emit digits o))
digits-Extends digits len flags o =
    Extends-then (emit digits) (apply_post_padding len flags) (emit-Extends digits)
      (apply_post_padding-Extends len flags) o

pub format_unsigned-Extends :
    (value : ℕ) (flags : FormatFlags) (o : Out) → Extends o (format_unsigned value flags o)
unfolding format_unsigned
format_unsigned-Extends value flags o =
    let digits = digits_of lower_digits 10 value in
    Extends-then (apply_padding (length digits) flags)
      (λ o. apply_post_padding (length digits) flags (emit digits o))
      (apply_padding-Extends (length digits) flags) (digits-Extends digits (length digits) flags) o

pub format_integer-Extends :
    (value : ℤ) (flags : FormatFlags) (o : Out) → Extends o (format_integer value flags o)
unfolding format_integer
format_integer-Extends value flags o =
    let digits = digits_of lower_digits 10 (magnitude value) in
    let is_neg = is_negative value in
    let len = length digits + (if is_neg then 1 else 0) in
    let sign_first = not flags.left_align && flags.zero_padding && is_neg in
    Extends-then (emit_if sign_first minus)
      (λ o1. apply_post_padding len flags (
        emit digits (
          emit_if (is_neg && not sign_first) minus
            (if flags.left_align then o1 else apply_padding len flags o1))))
      (emit_if-Extends sign_first minus)
      (Extends-then (λ o1. if flags.left_align then o1 else apply_padding len flags o1)
        (λ o2.
          apply_post_padding len flags (emit digits (emit_if (is_neg && not sign_first) minus o2)))
        (λ o1.
          if_Extends flags.left_align o1 o1 (apply_padding len flags o1) (Extends-refl o1)
            (apply_padding-Extends len flags o1))
        (Extends-then (emit_if (is_neg && not sign_first) minus)
          (λ o3. apply_post_padding len flags (emit digits o3))
          (emit_if-Extends (is_neg && not sign_first) minus) (digits-Extends digits len flags)))
      o

pub format_hex-Extends :
    (value : ℕ) (flags : FormatFlags) (o : Out) → Extends o (format_hex value flags o)
unfolding format_hex
format_hex-Extends value flags o =
    let num_buf = digits_of (if flags.type == b'X' then upper_digits else lower_digits) 16 value in
    let num_len = length num_buf in
    let spaces = replicate (flags.width - hex_total num_len flags) b' ' in
    let zeros = replicate (hex_zeros num_len flags) b'0' in
    Extends-then (emit_if (not flags.left_align) spaces)
      (λ o1. emit_if flags.left_align spaces (emit num_buf (emit zeros (hex_prefix flags o1))))
      (emit_if-Extends (not flags.left_align) spaces)
      (Extends-then (hex_prefix flags)
        (λ o2. emit_if flags.left_align spaces (emit num_buf (emit zeros o2)))
        (λ o1.
          emit_if-Extends (flags.alternative && ltb 1 o1.room)
            (b'0' ∷ (if flags.type == b'X' then b'X' else b'x') ∷ []) o1)
        (Extends-then (emit zeros) (λ o3. emit_if flags.left_align spaces (emit num_buf o3))
          (emit-Extends zeros)
          (Extends-then (emit num_buf) (emit_if flags.left_align spaces) (emit-Extends num_buf)
            (emit_if-Extends flags.left_align spaces))))
      o

pub format_octal-Extends :
    (value : ℕ) (flags : FormatFlags) (o : Out) → Extends o (format_octal value flags o)
unfolding format_octal
format_octal-Extends value flags o =
    let digits = digits_of lower_digits 8 value in
    let len = length digits + (if flags.alternative then 1 else 0) in
    let prefix_handled = flags.alternative && ltb 0 o.room in
    Extends-then (emit_if flags.alternative (b'0' ∷ []))
      (λ o1.
        apply_post_padding len flags
          (emit digits (if prefix_handled then o1 else apply_padding len flags o1)))
      (emit_if-Extends flags.alternative (b'0' ∷ []))
      (Extends-then (λ o1. if prefix_handled then o1 else apply_padding len flags o1)
        (λ o2. apply_post_padding len flags (emit digits o2))
        (λ o1.
          if_Extends prefix_handled o1 o1 (apply_padding len flags o1) (Extends-refl o1)
            (apply_padding-Extends len flags o1))
        (digits-Extends digits len flags))
      o

pub format_pointer-Extends : (ptr : ℕ) (o : Out) → Extends o (format_pointer ptr o)
unfolding format_pointer
format_pointer-Extends ptr o =
    Extends-then (emit (b'0' ∷ b'x' ∷ [])) (emit (digits_of lower_digits 16 ptr))
      (emit-Extends (b'0' ∷ b'x' ∷ [])) (emit-Extends (digits_of lower_digits 16 ptr)) o
