-- ===== src/Text/Format/Print.antt =====
-- lib/debug.cpp: `format_string_v`, which prints a format with its arguments into a buffer.
-- A format is the list of its bytes up to the 0; where the code steps over that 0, behind a single `%`
-- at the end, it reads what happens to stand there, and the model stops.
use wandos.Base.{
  ℕ, zero, suc, ◌+◌, ◌-◌, ◌%◌, Bool, true, false, ◌||◌, Option, none, some, List, [], ◌∷◌, ◌++◌,
  ltb, ◌==◌, if◌then◌else◌, length, set, take, min,
}
use wandos.Text.CString.{content, strlen}
use wandos.Text.Format.Output.{
  Out, put, emit, FormatFlags, no_flags, apply_padding, apply_post_padding,
}
use wandos.Text.Format.Numbers.{
  format_integer, format_unsigned, format_hex, format_octal, format_pointer,
}
use wandos.Text.Format.Flags.{
  Arg, Parsed, next_word, next_text, to_long, here, advance, parse_format_flags,
}
pub mod Fuel
pub mod Safety
pub mod Tests

abbrev pub null_text : List ℕ
null_text = b'(' ∷ b'n' ∷ b'u' ∷ b'l' ∷ b'l' ∷ b')' ∷ []

-- The number of characters that are printed, for a string that is not null.
unfoldable pub text_length : List ℕ → FormatFlags → ℕ
text_length str flags = elim flags.precision [
  | none ↦ strlen str
  | some precision ↦ if ltb precision (strlen str) then precision else strlen str
]

unfoldable pub format_text : List ℕ → FormatFlags → Out → Out
unfolding text_length emit apply_padding apply_post_padding
format_text str flags o = apply_post_padding (text_length str flags) flags (
    emit (take (text_length str flags) (content str))
      (apply_padding (text_length str flags) flags o))

unfoldable pub format_string : Option (List ℕ) → FormatFlags → Out → Out
unfolding format_text
format_string none flags o = format_text null_text flags o
format_string (some str) flags o = format_text str flags o

-- `c` is the argument as a byte.
unfoldable pub format_char : ℕ → FormatFlags → Out → Out
unfolding emit apply_padding apply_post_padding
format_char c flags o = apply_post_padding 1 flags (emit (c ∷ []) (apply_padding 1 flags o))

-- The cases of the `switch` over the letter.
pub data Conversion : Type 0 where
  integer unsigned_integer hex octal string character pointer other : Conversion

unfoldable pub conversion : ℕ → Conversion
conversion t =
    if t == b'd' || t == b'i'
    then integer
    else if t == b'u'
    then unsigned_integer
    else if t == b'x' || t == b'X'
    then hex
    else if t == b'o'
    then octal
    else if t == b's'
    then string
    else if t == b'c'
    then character
    else if t == b'p'
    then pointer
    else other

-- What each case does with the arguments; a `%` and a letter that is none of these are printed.
unfoldable pub convert : Conversion → FormatFlags → List Arg → Out → Parsed Out
unfolding format_integer format_unsigned format_hex format_octal format_string format_char
    format_pointer emit next_word next_text to_long
convert integer flags args o =
    let w = next_word args in
    record { result = format_integer (to_long w.result) flags o; args = w.args }
convert unsigned_integer flags args o =
    let w = next_word args in record { result = format_unsigned w.result flags o; args = w.args }
convert hex flags args o =
    let w = next_word args in record { result = format_hex w.result flags o; args = w.args }
convert octal flags args o =
    let w = next_word args in record { result = format_octal w.result flags o; args = w.args }
convert string flags args o =
    let s = next_text args in record { result = format_string s.result flags o; args = s.args }
convert character flags args o =
    let w = next_word args in
    record { result = format_char (w.result % 256) flags o; args = w.args }
convert pointer flags args o =
    let w = next_word args in record { result = format_pointer w.result o; args = w.args }
convert other flags args o = record { result = emit (flags.type ∷ []) o; args = args }

-- The variables of the loop.
pub record Cursor : Type 0 where
  pub format : List ℕ
  pub args : List Arg
  pub out : Out

abbrev pub is_done : Cursor → Bool
is_done c = here c.format == 0 || c.out.room == 0

-- A round of the loop.
unfoldable pub next : Cursor → Cursor
unfolding conversion convert parse_format_flags
next c =
    if here c.format == b'%'
    then (let parsed = parse_format_flags (advance c.format) no_flags c.args in
        let r = convert (conversion parsed.1.type) parsed.1 parsed.2 c.out in
        record { format = advance parsed.0; args = r.args; out = r.result })
    else record { format = advance c.format; args = c.args; out = emit (here c.format ∷ []) c.out }

unfoldable pub print_from : ℕ → Cursor → Cursor
unfolding next
print_from zero c = c
print_from (suc fuel) c = let rest = print_from fuel (next c) in if is_done c then c else rest

-- The buffer's bytes after the 0 at the end is written: behind the text, or over its last byte.
unfoldable pub terminated : ℕ → Out → List ℕ
terminated size o =
    if ltb 0 o.room
    then o.written ++ 0 ∷ []
    else if ltb 0 size
    then set o.written (size - 1) 0
    else o.written

-- The bytes of the buffer that were written, and the result. A format takes no more rounds than it
-- has bytes.
unfoldable pub format_string_v : ℕ → List ℕ → List Arg → List ℕ × ℕ
unfolding print_from terminated
format_string_v size format args =
    let o =
      (print_from (length format) (record {
        format = format;
        args = args;
        out = record { written = []; room = size };
      })).out in
    (terminated size o, length o.written)
