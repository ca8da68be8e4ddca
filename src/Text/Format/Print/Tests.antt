-- ===== src/Text/Format/Print/Tests.antt =====
-- Runs of the model of the formatted output (lib/debug.cpp), and its theorems at concrete inputs.
use wandos.Base.{
  ℕ, ◌+◌, ◌-◌, ◌≤◌, ◌<◌, ◌≡◌, refl, arith, true, List, [], ◌∷◌, ◌++◌, length, get_or, min, All,
  some, none,
}
use mathlib.Core.List.{reverse}
use wandos.Text.Format.Output.{no_flags, emit, apply_padding, apply_post_padding}
use wandos.Text.Format.Numbers.{
  format_integer, format_unsigned, format_hex, digits_of, reversed_digits, lower_digits, magnitude,
  is_negative,
}
use wandos.Text.Format.Numbers.Digits.{IsDecimal, value_of, format_unsigned_value}
use wandos.Text.Format.Flags.{
  word, next_word, to_long, parse_format_flags, parse_marks, parse_width, parse_precision,
  skip_length, parse_number, star,
}
use wandos.Text.Format.Print.{
  Cursor, is_done, next, print_from, convert, conversion, terminated, format_string_v,
}
use wandos.Text.Format.Print.Fuel.{watched, runs_over, print_from_enough}
use wandos.Text.Format.Print.Safety.{format_string_v_bounds}

-- "%5d|%-3x"
abbrev number_format : List ℕ
number_format = b'%' ∷ b'5' ∷ b'd' ∷ b'|' ∷ b'%' ∷ b'-' ∷ b'3' ∷ b'x' ∷ []

-- -42 and 171, in a buffer of 20 bytes: "  -42|ab "
print_numbers :
    format_string_v 20 number_format (word (0x100000000 - 42) ∷ word 171 ∷ [])
    ≡ (b' ' ∷ b' ' ∷ b'-' ∷ b'4' ∷ b'2' ∷ b'|' ∷ b'a' ∷ b'b' ∷ b' ' ∷ 0 ∷ [], 9)
unfolding format_string_v terminated print_from next convert conversion format_integer format_hex
    digits_of reversed_digits magnitude is_negative apply_padding apply_post_padding emit
    parse_format_flags parse_marks parse_width parse_precision skip_length parse_number star
    next_word to_long
print_numbers = refl

format_string_v_bounds_example :
    let r = format_string_v 4 number_format (word 7 ∷ word 171 ∷ []) in
    (length r.0 ≡ min 4 (r.1 + 1)) × (0 < 4 → get_or r.0 (length r.0 - 1) 1 ≡ 0)
format_string_v_bounds_example = format_string_v_bounds 4 number_format (word 7 ∷ word 171 ∷ [])

abbrev at_start : Cursor
at_start = record {
  format = number_format;
  args = word 7 ∷ word 171 ∷ [];
  out = record { written = []; room = 20 };
}

print_from_enough_example :
    (is_done (print_from 8 at_start) ≡ true)
    × (watched 8 at_start ≡ some (print_from 8 at_start))
    × ((m : ℕ) → 8 ≤ m → print_from m at_start ≡ print_from 8 at_start)
unfolding runs_over next convert conversion format_integer format_hex digits_of reversed_digits
    magnitude is_negative apply_padding apply_post_padding emit parse_format_flags parse_marks
    parse_width parse_precision skip_length parse_number star next_word to_long
print_from_enough_example = print_from_enough 8 at_start (omega arith) refl

-- The format "%" alone is read behind its end.
lone_percent :
    watched 1 (record { format = b'%' ∷ []; args = []; out = record { written = []; room = 20 } })
    ≡ none
unfolding watched parse_format_flags parse_marks parse_width parse_precision skip_length
lone_percent = refl

format_unsigned_value_example :
    (ds : List ℕ) × ((format_unsigned 4096 no_flags (record { written = []; room = 40 })).written
      ≡ [] ++ reverse ds)
    × (0 < length ds)
    × All IsDecimal ds
    × (value_of lower_digits 10 ds ≡ 4096)
format_unsigned_value_example =
    format_unsigned_value 4096 no_flags (record { written = []; room = 40 }) (omega arith) refl
      (omega arith)
